-- ===== src/Scheduler/Jobs.antt =====
-- `SQLCronStore` of internal/scheduler/store.go: the table cron_jobs.
use picoaide.Prelude.{
  ℕ, ◌+◌, ◌*◌, ◌/◌, String, Bool, false, not, Option, none, some, List, [], ◌∷◌, ◌++◌, map,
  if◌then◌else◌, keep, ◌==◌, str_eq,
}
use picoaide.Scheduler.Schedule.{NextRun, invalid, never, run_at}

-- The columns that hold a moment are `none` where their text is empty. `created_at` is left out.
pub record CronJob : Type 0 where
  pub id : ℕ
  pub user_id : String
  pub schedule : String
  pub prompt : String
  pub agent_id : String
  pub channel_id : String
  pub enabled : Bool
  pub next_run_at : Option ℕ
  pub last_run_at : Option ℕ

-- The rows in the order of their ids, and SQLite's AUTOINCREMENT.
pub record CronTable : Type 0 where
  pub jobs : List CronJob
  pub next_id : ℕ

abbrev pub second : ℕ
second = 1000000000

-- `util.FormatTime`, as `util.ParseTime` reads it again: whole seconds.
abbrev pub stored : ℕ → ℕ
stored t = t / second * second

abbrev pub has_id : ℕ → CronJob → Bool
has_id n j = j.id == n

-- UPDATE cron_jobs SET ... WHERE id = ?
abbrev pub update_row : ℕ → (CronJob → CronJob) → CronTable → CronTable
update_row n f table = record table { jobs = map (λ j. if has_id n j then f j else j) table.jobs }

unfoldable pub list_active_jobs : CronTable → List CronJob
list_active_jobs table = keep (λ j. j.enabled) table.jobs

unfoldable pub update_next_run : CronJob → ℕ → CronTable → CronTable
update_next_run job next table =
    update_row job.id (λ j. record j { next_run_at = some (stored next) }) table

unfoldable pub update_last_run : CronJob → ℕ → CronTable → CronTable
update_last_run job now table =
    update_row job.id (λ j. record j { last_run_at = some (stored now) }) table

unfoldable pub disable_job : CronJob → CronTable → CronTable
disable_job job table = update_row job.id (λ j. record j { enabled = false }) table

abbrev pub insert_row : CronJob → Option ℕ → CronTable → CronTable
insert_row job next table = record {
  jobs = table.jobs ++ record job { id = table.next_id; next_run_at = next } ∷ [];
  next_id = table.next_id + 1;
}

abbrev insert_at : CronJob → NextRun → CronTable → Option CronTable
insert_at job invalid table = none
insert_at job never table = some (insert_row job job.next_run_at table)
insert_at job (run_at t) table = some (insert_row job (some (stored t)) table)

-- `none` is the error of a schedule that cannot be read. `next` is `NextRunTime`'s answer.
unfoldable pub insert_job : CronJob → NextRun → CronTable → Option CronTable
insert_job job next table = insert_at job next table

unfoldable pub delete_job : ℕ → CronTable → CronTable
delete_job n table = record table { jobs = keep (λ j. not (has_id n j)) table.jobs }

pub list_by_user : String → CronTable → List CronJob
list_by_user user table = descending (keep (λ j. str_eq j.user_id user) table.jobs)
  where
    descending : List CronJob → List CronJob
    descending [] = []
    descending (j ∷ js) = descending js ++ j ∷ []

abbrev first : List CronJob → Option CronJob
first [] = none
first (j ∷ js) = some j

pub get_by_id : ℕ → CronTable → Option CronJob
get_by_id n table = first (keep (has_id n) table.jobs)

abbrev edit : CronJob → Option ℕ → CronJob → CronJob
edit job next row = record row {
  schedule = job.schedule;
  prompt = job.prompt;
  agent_id = job.agent_id;
  channel_id = job.channel_id;
  enabled = job.enabled;
  next_run_at = next;
}

abbrev update_at : CronJob → NextRun → CronTable → Option CronTable
update_at job invalid table = none
update_at job never table = some (update_row job.id (edit job none) table)
update_at job (run_at t) table = some (update_row job.id (edit job (some (stored t))) table)

unfoldable pub update_job : CronJob → NextRun → CronTable → Option CronTable
update_job job next table = update_at job next table
