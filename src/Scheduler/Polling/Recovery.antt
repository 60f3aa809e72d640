-- ===== src/Scheduler/Polling/Recovery.antt =====
-- What `RecoverStaleJobs` of internal/scheduler/cron.go does to each job.
use picoaide.Prelude.{ℕ, Bool, not, ◌&&◌, some, List, [], ◌∷◌, if◌then◌else◌}
use picoaide.Scheduler.Schedule.{CronLibrary, NextRun, invalid, never, run_at, next_run_time}
use picoaide.Scheduler.Jobs.{CronJob, has_id, stored}
use picoaide.Scheduler.Polling.{is_stale, never_ran}

abbrev with_next : NextRun → CronJob → CronJob
with_next invalid j = j
with_next never j = j
with_next (run_at t) j = record j { next_run_at = some (stored t) }

-- What becomes of one row: it is due at its next time again, if it is enabled, has never run, and
-- stands more than 48 hours off.
abbrev pub recovered : CronLibrary → (CronJob → Bool) → ℕ → CronJob → CronJob
recovered library refused now j =
    if j.enabled && (never_ran j.last_run_at && is_stale j.next_run_at now && not (refused j))
    then with_next (next_run_time library j.schedule now) j
    else j

module _ (library : CronLibrary) (refused : CronJob → Bool) (now : ℕ) where
  abbrev chosen : CronJob → Bool
  chosen j = never_ran j.last_run_at && is_stale j.next_run_at now && not (refused j)

  -- The change that looking at one job makes to one row.
  abbrev touched : CronJob → CronJob → CronJob
  touched job r =
      if chosen job
      then if has_id job.id r then with_next (next_run_time library job.schedule now) r else r
      else r

  abbrev touched_by : List CronJob → CronJob → CronJob
  touched_by [] r = r
  touched_by (job ∷ jobs) r = touched_by jobs (touched job r)
