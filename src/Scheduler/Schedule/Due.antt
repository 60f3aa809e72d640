-- ===== src/Scheduler/Schedule/Due.antt =====
-- What `ParseSchedule` and `NextRunTime` of internal/scheduler/cron.go agree on, and when a job is
-- next due.
use picoaide.Prelude.{
  ℕ, ◌^◌, ◌≤◌, ◌≡◌, refl, inl, inr, String, false, Option, none, some, ℤ, split_space, scan_int,
  arith, Bool-cases, Option-cases,
}
use picoaide.Scheduler.Schedule.{
  CronLibrary, invalid, to_word, described, parse_schedule, next_of, next_run_time,
}

-- The duration is negative as an int64: the interval is below zero, or too long for the type.
abbrev pub Backwards : String → Type 0
Backwards schedule =
    (rest : String) × (ms : ℤ) × (split_space schedule ≡ some ("every", rest))
    × (scan_int rest ≡ some ms)
    × (2 ^ 63 ≤ to_word ms)

next_of_refused :
    (library : CronLibrary) (parts : Option (String × String)) (from : ℕ)
    → ((e : String) → library.parse_standard e ≡ false → library.parse e ≡ none)
    → described library parts ≡ none
    → next_of library parts from ≡ invalid
next_of_refused library none from agree e = refl
next_of_refused library (some (kind, rest)) from agree e =
    elim (Option-cases (library.parse rest)) [
      | inl unread ↦ ground (arith, e)
      | inr (next, read) ↦ elim (Bool-cases (library.parse_standard rest)) [
        | inl fine ↦ ground (arith, e)
        | inr bad ↦ ground (arith, e, agree rest bad)
      ]
    ]

-- A schedule that `ParseSchedule` refuses, `NextRunTime` refuses too, where the cron library's two
-- entries agree on what they refuse.
pub next_run_time-refused :
    (library : CronLibrary) (schedule : String) (from : ℕ)
    → ((e : String) → library.parse_standard e ≡ false → library.parse e ≡ none)
    → parse_schedule library schedule ≡ none
    → next_run_time library schedule from ≡ invalid
unfolding parse_schedule next_run_time
next_run_time-refused library schedule from agree e =
    next_of_refused library (split_space schedule) from agree e
