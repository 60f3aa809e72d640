-- ===== src/Scheduler/Polling/Exclusive.antt =====
-- No job of internal/scheduler/cron.go runs twice at once, as long as nobody edits its row.
use picoaide.Prelude.{
  ℕ, ◌<◌, ◌≤◌, ◌≡◌, refl, ap₂, subst, inl, inr, Bool, true, false, Option, none, some, List, [],
  ◌∷◌, map, arith, if◌then◌else◌, any, leb, ◌==◌, All, Unique, All-weaken, All-zip, All-map,
  Unique-map, any-false-All, Bool-cases, of_if,
}
use picoaide.Scheduler.Jobs.{CronJob, CronTable, has_id, stored, update_row, update_next_run}
use picoaide.Scheduler.Polling.{Scheduler, far_future, is_due, claim, poll_from}

abbrev pub same_id : CronJob → CronJob → Bool
same_id a b = b.id == a.id

abbrev pub is_parked : ℕ → Option ℕ → Bool
is_parked horizon none = true
is_parked horizon (some t) = leb horizon t

-- The rows with the id are not due before the horizon.
abbrev pub Parked : ℕ → ℕ → List CronJob → Type 0
Parked horizon n = All (λ j. has_id n j ≡ true → is_parked horizon j.next_run_at ≡ true)

abbrev pub Below : ℕ → List CronJob → Type 0
Below n = All (λ j. j.id < n)

pub record Exclusive (horizon : ℕ) (s : Scheduler) : Type 0 where
  pub alone : Unique same_id s.running
  pub parked : All (λ r. Parked horizon r.id s.table.jobs) s.running
  pub covers : horizon ≤ stored (far_future s.polled_at)
  pub listed_once : Unique same_id s.snapshot
  pub ready :
      All
        (λ j. is_due j.next_run_at s.polled_at ≡ true → any (has_id j.id) s.running ≡ false)
        s.snapshot
  pub rows : Unique same_id s.table.jobs
  pub row_ids : Below s.table.next_id s.table.jobs
  pub snapshot_ids : Below s.table.next_id s.snapshot
  pub running_ids : Below s.table.next_id s.running

abbrev pub KeepsId : (CronJob → CronJob) → Type 0
KeepsId f = (j : CronJob) → (f j).id ≡ j.id

update_row-Parked :
    (horizon n m : ℕ) (f : CronJob → CronJob) (table : CronTable)
    → KeepsId f
    → ((j : CronJob)
        → n ≡ m
        → is_parked horizon j.next_run_at ≡ true
        → is_parked horizon (f j).next_run_at ≡ true)
    → Parked horizon n table.jobs
    → Parked horizon n (update_row m f table).jobs
update_row-Parked horizon n m f table keeps k h =
    All-map (λ j. if has_id m j then f j else j)
      (λ j. has_id n j ≡ true → is_parked horizon j.next_run_at ≡ true)
      (λ j. has_id n j ≡ true → is_parked horizon j.next_run_at ≡ true) table.jobs
      (λ j hj. elim (Bool-cases (has_id m j)) [
        | inl same ↦ rw same λ here. k j (ground (arith, keeps j)) (hj (ground (arith, keeps j)))
        | inr other ↦ rw other hj
      ])
      h

row_id : (m : ℕ) (f : CronJob → CronJob) → KeepsId f → KeepsId (λ j. if has_id m j then f j else j)
row_id m f keeps j = of_if (λ (j' : CronJob). j'.id ≡ j.id) (has_id m j) (λ e. keeps j) (λ e. refl)

update_row-rows :
    (m : ℕ) (f : CronJob → CronJob) (table : CronTable)
    → KeepsId f
    → Unique same_id table.jobs
    → Unique same_id (update_row m f table).jobs
update_row-rows m f table keeps u =
    Unique-map (λ j. if has_id m j then f j else j) same_id table.jobs
      (λ a b. ap₂ (λ x y. y == x) (row_id m f keeps a) (row_id m f keeps b)) u

update_row-ids :
    (m : ℕ) (f : CronJob → CronJob) (table : CronTable)
    → KeepsId f
    → Below table.next_id table.jobs
    → Below table.next_id (update_row m f table).jobs
update_row-ids m f table keeps h =
    All-map (λ j. if has_id m j then f j else j) (λ j. j.id < table.next_id)
      (λ j. j.id < table.next_id) table.jobs (λ a ha. omega (arith, ha, row_id m f keeps a)) h

-- A change of a row that no goroutine runs, or that keeps it parked.
update_row-Exclusive :
    (horizon m : ℕ) (f : CronJob → CronJob) (s : Scheduler)
    → KeepsId f
    → All (λ r. Parked horizon r.id (update_row m f s.table).jobs) s.running
    → Exclusive horizon s
    → Exclusive horizon (record s { table = update_row m f s.table })
update_row-Exclusive horizon m f s keeps parked x = record {
  alone = x.alone;
  parked = parked;
  covers = x.covers;
  listed_once = x.listed_once;
  ready = x.ready;
  rows = update_row-rows m f s.table keeps x.rows;
  row_ids = update_row-ids m f s.table keeps x.row_ids;
  snapshot_ids = x.snapshot_ids;
  running_ids = x.running_ids;
}

pub update_idle_row-Exclusive :
    (horizon m : ℕ) (f : CronJob → CronJob) (s : Scheduler)
    → KeepsId f
    → All (λ r. has_id m r ≡ false) s.running
    → Exclusive horizon s
    → Exclusive horizon (record s { table = update_row m f s.table })
update_idle_row-Exclusive horizon m f s keeps idle x =
    update_row-Exclusive horizon m f s keeps
      (All-zip s.running
        (λ r other h.
          update_row-Parked horizon r.id m f s.table keeps (λ j e. absurd (ground (arith, other)))
            h)
        idle x.parked)
      x

update_row-parks :
    (horizon n : ℕ) (f : CronJob → CronJob) (jobs : List CronJob)
    → KeepsId f
    → ((j : CronJob) → is_parked horizon (f j).next_run_at ≡ true)
    → Parked horizon n (map (λ j. if has_id n j then f j else j) jobs)
update_row-parks horizon n f [] keeps k = tt
update_row-parks horizon n f (j ∷ js) keeps k = (
  elim (Bool-cases (has_id n j)) [
    | inl here ↦ rw here λ h. k j
    | inr other ↦ rw other λ h. absurd (ground (arith, h))
  ],
  update_row-parks horizon n f js keeps k,
)

-- `poll` claims a job that is due.
claim-Exclusive :
    (horizon : ℕ) (job : CronJob) (rest : List CronJob) (s : Scheduler)
    → s.snapshot ≡ job ∷ rest
    → is_due job.next_run_at s.polled_at ≡ true
    → Exclusive horizon s
    → Exclusive horizon (claim job (record s { snapshot = rest }))
unfolding update_next_run
claim-Exclusive horizon job rest s e due x =
    let once = subst (Unique same_id) e x.listed_once in
    let ready =
      subst
        (All (λ j. is_due j.next_run_at s.polled_at ≡ true → any (has_id j.id) s.running ≡ false)) e
        x.ready in
    let ids = subst (Below s.table.next_id) e x.snapshot_ids in
    let f : CronJob → CronJob =
      λ j. record j { next_run_at = some (stored (far_future s.polled_at)) } in
    let parks : (j : CronJob) → is_parked horizon (f j).next_run_at ≡ true =
      λ j. ground (arith, x.covers) in
    record {
      alone = (ready.0 due, x.alone);
      parked = (
        update_row-parks horizon job.id f s.table.jobs (λ j. refl) parks,
        All-weaken s.running
            (λ r h.
              update_row-Parked horizon r.id job.id f s.table (λ j. refl) (λ j same old. parks j) h)
            x.parked,
      );
      covers = x.covers;
      listed_once = once.1;
      ready =
          All-zip rest (λ j other h due_j. ground (arith, other, h due_j))
            (any-false-All {P = λ j. same_id job j ≡ false} (same_id job) rest once.0 (λ a h. h))
            ready.1;
      rows = update_row-rows job.id f s.table (λ j. refl) x.rows;
      row_ids = update_row-ids job.id f s.table (λ j. refl) x.row_ids;
      snapshot_ids = ids.1;
      running_ids = (ids.0, x.running_ids);
    }

skip-Exclusive :
    (horizon : ℕ) (job : CronJob) (rest : List CronJob) (s : Scheduler)
    → s.snapshot ≡ job ∷ rest
    → Exclusive horizon s
    → Exclusive horizon (record s { snapshot = rest })
skip-Exclusive horizon job rest s e x = record {
  alone = x.alone;
  parked = x.parked;
  covers = x.covers;
  listed_once = (subst (Unique same_id) e x.listed_once).1;
  ready =
      (subst
        (All (λ j. is_due j.next_run_at s.polled_at ≡ true → any (has_id j.id) s.running ≡ false)) e
        x.ready).1;
  rows = x.rows;
  row_ids = x.row_ids;
  snapshot_ids = (subst (Below s.table.next_id) e x.snapshot_ids).1;
  running_ids = x.running_ids;
}

pub poll_from-Exclusive :
    (horizon : ℕ) (jobs : List CronJob) (refused : Bool) (s : Scheduler)
    → s.snapshot ≡ jobs
    → Exclusive horizon s
    → Exclusive horizon (poll_from jobs refused s)
poll_from-Exclusive horizon [] refused s e x = x
poll_from-Exclusive horizon (job ∷ rest) refused s e x =
    of_if (Exclusive horizon) (is_due job.next_run_at s.polled_at)
      (λ due.
        of_if (Exclusive horizon) refused (λ r. skip-Exclusive horizon job rest s e x)
          λ r. claim-Exclusive horizon job rest s e due x)
      λ later. skip-Exclusive horizon job rest s e x
