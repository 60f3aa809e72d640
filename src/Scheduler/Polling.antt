-- ===== src/Scheduler/Polling.antt =====
-- The loop of `CronScheduler` of internal/scheduler/cron.go: `poll` claims the jobs that are due,
-- one after the other, and starts a goroutine for each; `RecoverStaleJobs` runs before the loop.
-- Between two claims other goroutines may end and requests may change the table. What the database
-- refuses is an argument of each step.
pub mod Exclusive
pub mod Alone
pub mod Recovery
use picoaide.Prelude.{
  ℕ, zero, suc, ◌+◌, ◌-◌, ◌*◌, String, Bool, true, false, not, ◌&&◌, Option, none, some, List, [],
  ◌∷◌, ◌++◌, if◌then◌else◌, keep, any, ltb, leb, ◌==◌,
}
use picoaide.Scheduler.Schedule.{CronLibrary, NextRun, invalid, never, run_at, next_run_time}
use picoaide.Scheduler.Jobs.{
  CronJob, CronTable, second, has_id, list_active_jobs, update_next_run, update_last_run,
  disable_job, insert_job, delete_job,
}

-- `snapshot` is what `poll` has still to look at, at its own `now`; `running` is the jobs whose
-- goroutines have not ended, each with the job as it was listed.
pub record Scheduler : Type 0 where
  pub table : CronTable
  pub polled_at : ℕ
  pub snapshot : List CronJob
  pub running : List CronJob

abbrev pub hour : ℕ
hour = 3600 * second

-- 100 * 365 * 24 * time.Hour
abbrev pub far_future : ℕ → ℕ
far_future now = now + 876000 * hour

abbrev pub is_due : Option ℕ → ℕ → Bool
is_due none now = false
is_due (some t) now = leb t now

-- `now := time.Now()` and the list; a list that cannot be read ends the poll.
unfoldable pub poll_begins : ℕ → Scheduler → Scheduler
poll_begins now s = record s { polled_at = now; snapshot = list_active_jobs s.table }

abbrev pub claim : CronJob → Scheduler → Scheduler
claim job s = record s {
  table = update_next_run job (far_future s.polled_at) s.table;
  running = job ∷ s.running;
}

abbrev pub poll_job : Bool → CronJob → Scheduler → Scheduler
poll_job refused job s =
    if is_due job.next_run_at s.polled_at then if refused then s else claim job s else s

abbrev pub poll_from : List CronJob → Bool → Scheduler → Scheduler
poll_from [] refused s = s
poll_from (job ∷ rest) refused s = poll_job refused job (record s { snapshot = rest })

-- One round of the loop of `poll`.
unfoldable pub poll_next : Bool → Scheduler → Scheduler
poll_next refused s = poll_from s.snapshot refused s

-- Which of the statements at a goroutine's end the database refuses; `poll` reads none of the errors.
pub record Refusals : Type 0 where
  pub last_run : Bool
  pub next_run : Bool

abbrev pub reschedule : Bool → CronJob → NextRun → CronTable → CronTable
reschedule refused job invalid table = table
reschedule refused job never table = if refused then table else disable_job job table
reschedule refused job (run_at t) table = if refused then table else update_next_run job t table

-- The end of a goroutine that has run its job, at the moment `now`.
unfoldable pub job_ends : CronLibrary → Refusals → CronJob → ℕ → Scheduler → Scheduler
job_ends library refused job now s =
    let table = if refused.last_run then s.table else update_last_run job now s.table in
    record s {
      table = reschedule refused.next_run job (next_run_time library job.schedule now) table;
      running = keep (λ j. not (has_id job.id j)) s.running;
    }

-- 48 * time.Hour
abbrev pub is_stale : Option ℕ → ℕ → Bool
is_stale none now = false
is_stale (some t) now = ltb (48 * hour) (t - now)

abbrev pub never_ran : Option ℕ → Bool
never_ran none = true
never_ran (some t) = false

abbrev pub recover_to : NextRun → CronJob → CronTable → CronTable
recover_to invalid job table = table
recover_to never job table = table
recover_to (run_at t) job table = update_next_run job t table

abbrev pub recover_job : CronLibrary → (CronJob → Bool) → ℕ → CronJob → CronTable → CronTable
recover_job library refused now job table =
    if never_ran job.last_run_at && is_stale job.next_run_at now && not (refused job)
    then recover_to (next_run_time library job.schedule now) job table
    else table

abbrev pub recover_jobs : CronLibrary → (CronJob → Bool) → ℕ → List CronJob → CronTable → CronTable
recover_jobs library refused now [] table = table
recover_jobs library refused now (job ∷ jobs) table =
    recover_jobs library refused now jobs (recover_job library refused now job table)

unfoldable pub recover_stale_jobs : CronLibrary → (CronJob → Bool) → ℕ → CronTable → CronTable
recover_stale_jobs library refused now table =
    recover_jobs library refused now (list_active_jobs table) table
