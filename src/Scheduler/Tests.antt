-- ===== src/Scheduler/Tests.antt =====
-- The properties of internal/scheduler at concrete inputs.
use picoaide.Prelude.{
  ℕ, ◌+◌, ◌*◌, refl, String, true, false, Option, none, some, [], ◌∷◌, arith, if◌then◌else◌, str_eq,
  Unique,
}
use picoaide.Scheduler.Schedule.{CronLibrary}
use picoaide.Scheduler.Jobs.{CronJob, CronTable}
use picoaide.Scheduler.Polling.{Scheduler, hour, poll_begins, poll_next}
use picoaide.Scheduler.Polling.Exclusive.{same_id}
use picoaide.Scheduler.Polling.Alone.{done, begins, looks, started, runs_alone}

-- A cron library that knows one expression, which is due an hour later.
abbrev hourly : CronLibrary
hourly = record {
  parse_standard = λ e. str_eq e "@hourly";
  parse = λ e. if str_eq e "@hourly" then some (λ from. from + hour) else none;
}

abbrev a_job : ℕ → String → Option ℕ → CronJob
a_job id schedule next = record {
  id = id;
  user_id = "ann";
  schedule = schedule;
  prompt = "report";
  agent_id = "pico";
  channel_id = "";
  enabled = true;
  next_run_at = next;
  last_run_at = none;
}

abbrev table : CronTable
table = record {
  jobs = a_job 1 "every 5000" (some 0) ∷ a_job 2 "cron @hourly" (some (1000 * hour)) ∷ [];
  next_id = 3;
}

abbrev polled : Scheduler
polled = poll_next false (poll_begins 5 (started table 3))

runs_alone_example : Unique same_id polled.running
runs_alone_example =
    runs_alone {library = hourly} {t0 = 3} {table = table} {s = polled} (refl, (refl, tt))
      (omega arith, (omega arith, tt)) (begins 5 (omega arith) (omega arith) (looks false done))
