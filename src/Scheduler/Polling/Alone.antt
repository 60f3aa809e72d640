-- ===== src/Scheduler/Polling/Alone.antt =====
-- The runs of the scheduler of internal/scheduler/cron.go, in every interleaving.
use picoaide.Prelude.{
  ℕ, ◌+◌, ◌<◌, ◌≤◌, ◌≡◌, refl, subst, inl, inr, Bool, true, false, not, Option, none, some, List,
  [], ◌∷◌, arith, if◌then◌else◌, keep, any, ◌==◌, All, Unique, All-weaken, All-of, All-zip,
  All-append, All-keep, All-keep_picked, Unique-keep, Unique-append, any-keep-false, Bool-cases,
  of_if, eq_of_some,
}
use picoaide.Scheduler.Schedule.{CronLibrary, NextRun, invalid, never, run_at, next_run_time}
use picoaide.Scheduler.Jobs.{
  CronJob, CronTable, has_id, stored, list_active_jobs, update_next_run, update_last_run,
  disable_job, insert_row, insert_job, delete_job,
}
use picoaide.Scheduler.Polling.{
  Scheduler, far_future, is_due, poll_begins, poll_next, Refusals, reschedule, job_ends,
}
use picoaide.Scheduler.Polling.Exclusive.{
  same_id, is_parked, Parked, Exclusive, update_idle_row-Exclusive, poll_from-Exclusive,
}

-- A row that a goroutine runs is parked.
running_rows-Parked :
    (horizon : ℕ) (running jobs : List CronJob)
    → All (λ r. Parked horizon r.id jobs) running
    → All (λ j. any (has_id j.id) running ≡ true → is_parked horizon j.next_run_at ≡ true) jobs
running_rows-Parked horizon [] jobs h = All-of jobs λ j e. absurd (ground (arith, e))
running_rows-Parked horizon (r ∷ rs) jobs h =
    All-zip jobs
      (λ j here later e. elim (Bool-cases (r.id == j.id)) [
        | inl same ↦ here (ground (arith, same))
        | inr other ↦ later (ground (arith, other, e))
      ])
      h.0 (running_rows-Parked horizon rs jobs h.1)

poll_begins-Exclusive :
    (t0 now : ℕ) (s : Scheduler)
    → t0 ≤ now
    → now < stored (far_future t0)
    → Exclusive (stored (far_future t0)) s
    → Exclusive (stored (far_future t0)) (poll_begins now s)
unfolding poll_begins list_active_jobs
poll_begins-Exclusive t0 now s from until x = record {
  alone = x.alone;
  parked = x.parked;
  covers = omega (arith, from);
  listed_once = Unique-keep same_id (λ j. j.enabled) s.table.jobs x.rows;
  ready =
      All-keep _ (λ j. j.enabled) s.table.jobs
        (All-weaken s.table.jobs
          (λ j h due. elim (Bool-cases (any (has_id j.id) s.running)) [
            | inl busy ↦ absurd (early j.next_run_at due (h busy))
            | inr free ↦ free
          ])
          (running_rows-Parked _ s.running s.table.jobs x.parked));
  rows = x.rows;
  row_ids = x.row_ids;
  snapshot_ids = All-keep (λ j. j.id < s.table.next_id) (λ j. j.enabled) s.table.jobs x.row_ids;
  running_ids = x.running_ids;
}
  where
    early : (o : Option ℕ) → is_due o now ≡ true → is_parked (stored (far_future t0)) o ≡ true → ⊥
    early none d p = absurd (ground (arith, d))
    early (some t) d p = absurd (ground (arith, d, p, until))

ended-Exclusive :
    (horizon : ℕ) (p : CronJob → Bool) (s : Scheduler)
    → Exclusive horizon s
    → Exclusive horizon (record s { running = keep p s.running })
ended-Exclusive horizon p s x = record {
  alone = Unique-keep same_id p s.running x.alone;
  parked = All-keep (λ r. Parked horizon r.id s.table.jobs) p s.running x.parked;
  covers = x.covers;
  listed_once = x.listed_once;
  ready =
      All-weaken s.snapshot (λ j h due. any-keep-false (has_id j.id) p s.running (h due)) x.ready;
  rows = x.rows;
  row_ids = x.row_ids;
  snapshot_ids = x.snapshot_ids;
  running_ids = All-keep (λ j. j.id < s.table.next_id) p s.running x.running_ids;
}

reschedule-Exclusive :
    (next : NextRun) (refused : Bool) (horizon : ℕ) (job : CronJob) (s : Scheduler)
    → All (λ r. has_id job.id r ≡ false) s.running
    → Exclusive horizon s
    → Exclusive horizon (record s { table = reschedule refused job next s.table })
unfolding update_next_run disable_job
reschedule-Exclusive invalid refused horizon job s idle x = x
reschedule-Exclusive never true horizon job s idle x = x
reschedule-Exclusive never false horizon job s idle x =
    update_idle_row-Exclusive horizon job.id _ s (λ j. refl) idle x
reschedule-Exclusive (run_at t) true horizon job s idle x = x
reschedule-Exclusive (run_at t) false horizon job s idle x =
    update_idle_row-Exclusive horizon job.id _ s (λ j. refl) idle x

job_ends-Exclusive :
    (library : CronLibrary) (refused : Refusals) (job : CronJob) (now horizon : ℕ) (s : Scheduler)
    → Exclusive horizon s
    → Exclusive horizon (job_ends library refused job now s)
unfolding job_ends update_last_run
job_ends-Exclusive library refused job now horizon s x =
    let left = keep (λ j. not (has_id job.id j)) s.running in
    let idle : All (λ r. has_id job.id r ≡ false) left =
      All-keep_picked {P = λ r. Unit {0}} (λ j. not (has_id job.id j)) s.running
        (λ r e u. ground (arith, e)) (All-of s.running λ r. tt) in
    let ended = ended-Exclusive horizon (λ j. not (has_id job.id j)) s x in
    let noted =
      of_if (λ t. Exclusive horizon (record s { table = t; running = left })) refused.last_run
        (λ r. ended)
        (λ r.
          update_idle_row-Exclusive horizon job.id _ (record s { running = left }) (λ j. refl) idle
            ended) in
    reschedule-Exclusive (next_run_time library job.schedule now) refused.next_run horizon job
      (record s {
        table = if refused.last_run then s.table else update_last_run job now s.table;
        running = left;
      })
      idle noted

insert_row-Exclusive :
    (horizon : ℕ) (job : CronJob) (next : Option ℕ) (s : Scheduler)
    → Exclusive horizon s
    → Exclusive horizon (record s { table = insert_row job next s.table })
insert_row-Exclusive horizon job next s x = record {
  alone = x.alone;
  parked =
      All-zip s.running
        (λ r below h. All-append _ s.table.jobs _ h (λ e. absurd (ground (arith, below, e))))
        x.running_ids x.parked;
  covers = x.covers;
  listed_once = x.listed_once;
  ready = x.ready;
  rows =
      Unique-append same_id s.table.jobs _ x.rows
        (All-weaken s.table.jobs (λ j below. ground (arith, below)) x.row_ids);
  row_ids =
      All-append (λ j. j.id < s.table.next_id + 1) s.table.jobs _
        (All-weaken s.table.jobs (λ j below. omega (arith, below)) x.row_ids) (omega arith);
  snapshot_ids = All-weaken s.snapshot (λ j below. omega (arith, below)) x.snapshot_ids;
  running_ids = All-weaken s.running (λ j below. omega (arith, below)) x.running_ids;
}

delete_job-Exclusive :
    (horizon n : ℕ) (s : Scheduler)
    → Exclusive horizon s
    → Exclusive horizon (record s { table = delete_job n s.table })
unfolding delete_job
delete_job-Exclusive horizon n s x = record {
  alone = x.alone;
  parked = All-weaken s.running (λ r h. All-keep _ (λ j. not (has_id n j)) s.table.jobs h) x.parked;
  covers = x.covers;
  listed_once = x.listed_once;
  ready = x.ready;
  rows = Unique-keep same_id (λ j. not (has_id n j)) s.table.jobs x.rows;
  row_ids = All-keep (λ j. j.id < s.table.next_id) (λ j. not (has_id n j)) s.table.jobs x.row_ids;
  snapshot_ids = x.snapshot_ids;
  running_ids = x.running_ids;
}

-- Any number of steps of the poll, of goroutines that end, and of requests that add or delete a
-- job. The polls read the clock between `t0` and the moment that a job claimed at `t0` is parked
-- at. A request that edits a job is not among the steps: it sets `next_run_at` anew.
pub data Steps (library : CronLibrary) (t0 : ℕ) : Scheduler → Scheduler → Type 0 where
  done : {s : Scheduler} → Steps library t0 s s
  begins :
      {s s' : Scheduler} (now : ℕ)
      → t0 ≤ now
      → now < stored (far_future t0)
      → Steps library t0 (poll_begins now s) s'
      → Steps library t0 s s'
  looks :
      {s s' : Scheduler} (refused : Bool)
      → Steps library t0 (poll_next refused s) s'
      → Steps library t0 s s'
  ends :
      {s s' : Scheduler} (refused : Refusals) (job : CronJob) (now : ℕ)
      → Steps library t0 (job_ends library refused job now s) s'
      → Steps library t0 s s'
  inserts :
      {s s' : Scheduler} (job : CronJob) (next : NextRun) (table : CronTable)
      → insert_job job next s.table ≡ some table
      → Steps library t0 (record s { table = table }) s'
      → Steps library t0 s s'
  deletes :
      {s s' : Scheduler} (n : ℕ)
      → Steps library t0 (record s { table = delete_job n s.table }) s'
      → Steps library t0 s s'

inserted-Exclusive :
    (next : NextRun) (horizon : ℕ) (job : CronJob) (s : Scheduler) (table : CronTable)
    → insert_job job next s.table ≡ some table
    → Exclusive horizon s
    → Exclusive horizon (record s { table = table })
unfolding insert_job
inserted-Exclusive invalid horizon job s table e x = absurd (ground (arith, e))
inserted-Exclusive never horizon job s table e x =
    subst (λ t. Exclusive horizon (record s { table = t })) (eq_of_some e)
      (insert_row-Exclusive horizon job job.next_run_at s x)
inserted-Exclusive (run_at t) horizon job s table e x =
    subst (λ t. Exclusive horizon (record s { table = t })) (eq_of_some e)
      (insert_row-Exclusive horizon job (some (stored t)) s x)

Steps-Exclusive :
    {library : CronLibrary} {t0 : ℕ} {s s' : Scheduler}
    → Steps library t0 s s'
    → Exclusive (stored (far_future t0)) s
    → Exclusive (stored (far_future t0)) s'
unfolding poll_next
Steps-Exclusive done x = x
Steps-Exclusive {t0 = t0} {s = s} (begins now from until r) x =
    Steps-Exclusive r (poll_begins-Exclusive t0 now s from until x)
Steps-Exclusive {s = s} (looks refused r) x =
    Steps-Exclusive r (poll_from-Exclusive _ s.snapshot refused s refl x)
Steps-Exclusive {library = library} {s = s} (ends refused job now r) x =
    Steps-Exclusive r (job_ends-Exclusive library refused job now _ s x)
Steps-Exclusive {s = s} (inserts job next table e r) x =
    Steps-Exclusive r (inserted-Exclusive next _ job s table e x)
Steps-Exclusive {s = s} (deletes n r) x = Steps-Exclusive r (delete_job-Exclusive _ n s x)

-- The scheduler at its start: a table, no poll under way and no goroutine.
abbrev pub started : CronTable → ℕ → Scheduler
started table t0 = record { table = table; polled_at = t0; snapshot = []; running = [] }

-- From the start, no interleaving of polls, ends and requests that add or delete lets two
-- goroutines run the same job: where the ids of the table are distinct and the clock of the polls stays
-- within the 100 years after the start, the jobs that run have distinct ids, whatever the
-- database refuses.
pub runs_alone :
    {library : CronLibrary} {t0 : ℕ} {table : CronTable} {s : Scheduler}
    → Unique same_id table.jobs
    → All (λ j. j.id < table.next_id) table.jobs
    → Steps library t0 (started table t0) s
    → Unique same_id s.running
runs_alone distinct below r =
    (Steps-Exclusive r (record {
      alone = tt;
      parked = tt;
      covers = omega arith;
      listed_once = tt;
      ready = tt;
      rows = distinct;
      row_ids = below;
      snapshot_ids = tt;
      running_ids = tt;
    })).alone
