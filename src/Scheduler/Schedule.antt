-- ===== src/Scheduler/Schedule.antt =====
-- `ParseSchedule` and `NextRunTime` of internal/scheduler/cron.go. A moment is its nanoseconds
-- since 1970, and a moment before 1970 counts as 1970. The cron library is a parameter.
pub mod Due
use picoaide.Prelude.{
  ℕ, zero, suc, ◌+◌, ◌-◌, ◌*◌, ◌%◌, ◌^◌, String, Bool, true, false, Option, none, some,
  if◌then◌else◌, ltb, str_eq, ◌+++◌, ℤ, pos, negsuc, split_space, scan_int,
}

-- `cron.ParseStandard` and `Parser.Parse` of github.com/robfig/cron: an expression that they
-- accept is a schedule, which gives the next moment after another.
pub record CronLibrary : Type 0 where
  pub parse_standard : String → Bool
  pub parse : String → Option (ℕ → ℕ)

-- `never` is the nil of a job that is not to run again.
pub data NextRun : Type 0 where
  invalid never : NextRun
  run_at : ℕ → NextRun

abbrev millisecond : ℕ
millisecond = 1000000

-- `time.Duration(ms) * time.Millisecond`, an int64 that wraps around.
abbrev to_word : ℤ → ℕ
to_word (pos n) = n * millisecond % 2 ^ 64
to_word (negsuc n) = (2 ^ 64 - (n + 1) * millisecond % 2 ^ 64) % 2 ^ 64

-- `from.Add(d)` for the duration that the word holds.
abbrev add_word : ℕ → ℕ → ℕ
add_word from w = if ltb w (2 ^ 63) then from + w else from - (2 ^ 64 - w)

abbrev every : Option ℤ → ℕ → NextRun
every none from = invalid
every (some ms) from = run_at (add_word from (to_word ms))

abbrev cron_next : Option (ℕ → ℕ) → ℕ → NextRun
cron_next none from = invalid
cron_next (some next) from = run_at (next from)

-- `time.UnixMilli(ts)`, unless it is before `from`
abbrev at : Option ℤ → ℕ → NextRun
at none from = invalid
at (some (pos ms)) from = if ltb (ms * millisecond) from then never else run_at (ms * millisecond)
at (some (negsuc ms)) from = never

module _ (library : CronLibrary) where
  abbrev described : Option (String × String) → Option String
  described none = none
  described (some (kind, rest)) =
      if str_eq kind "every"
      then some ("间隔 " +++ rest +++ " 毫秒")
      else if str_eq kind "cron"
      then if library.parse_standard rest then some ("cron: " +++ rest) else none
      else if str_eq kind "at"
      then some ("一次性: " +++ rest)
      else none

  unfoldable pub parse_schedule : String → Option String
  parse_schedule schedule = described (split_space schedule)

  abbrev next_of : Option (String × String) → ℕ → NextRun
  next_of none from = invalid
  next_of (some (kind, rest)) from =
      if str_eq kind "every"
      then every (scan_int rest) from
      else if str_eq kind "cron"
      then cron_next (library.parse rest) from
      else if str_eq kind "at"
      then at (scan_int rest) from
      else invalid

  unfoldable pub next_run_time : String → ℕ → NextRun
  next_run_time schedule from = next_of (split_space schedule) from
