-- ===== src/Web/RateLimit.antt =====
-- internal/web/ratelimit.go: the sliding-window limiter before the login and audit endpoints.
pub mod Sweep
pub mod Window
use picoaide.Prelude.{
  ℕ, ◌+◌, ◌*◌, String, Bool, true, false, Option, none, some, List, [], ◌∷◌, ◌++◌, ltb, leb,
  if◌then◌else◌, length, keep, Map, lookup, insert,
}

-- Times and the window are nanoseconds. `mu`, `done` and `stopped` guard and end the goroutine.
pub record RateLimiter : Type 0 where
  pub attempts : Map (List ℕ)
  pub limit : ℕ
  pub window : ℕ

abbrev pub minute : ℕ
minute = 60 * 1000000000

abbrev pub login_rate_limit_attempts : ℕ
login_rate_limit_attempts = 10

abbrev pub login_rate_limit_window : ℕ
login_rate_limit_window = 5 * minute

unfoldable pub new_rate_limiter : ℕ → ℕ → RateLimiter
new_rate_limiter limit window = record { attempts = []; limit = limit; window = window }

pub new_login_rate_limiter : RateLimiter
unfolding new_rate_limiter
new_login_rate_limiter = new_rate_limiter login_rate_limit_attempts login_rate_limit_window

pub new_audit_rate_limiter : RateLimiter
unfolding new_rate_limiter
new_audit_rate_limiter = new_rate_limiter 500 minute

-- `now.Sub(t) < rl.window`, with the signed difference written without subtraction
abbrev pub is_fresh : ℕ → ℕ → ℕ → Bool
is_fresh window now t = ltb now (t + window)

abbrev pub or_nil : Option (List ℕ) → List ℕ
or_nil none = []
or_nil (some ts) = ts

abbrev pub times_of : RateLimiter → String → List ℕ
times_of rl ip = or_nil (lookup ip rl.attempts)

unfoldable pub allow : RateLimiter → ℕ → String → RateLimiter × Bool
allow rl now ip =
    let valid = keep (is_fresh rl.window now) (times_of rl ip) in
    if leb rl.limit (length valid)
    then (record rl { attempts = insert ip valid rl.attempts }, false)
    else (record rl { attempts = insert ip (valid ++ now ∷ []) rl.attempts }, true)

abbrev pub is_nil : List ℕ → Bool
is_nil [] = true
is_nil (_ ∷ _) = false

-- the loop of one tick: addresses with no fresh attempt are deleted
abbrev pub sweep_entries : ℕ → ℕ → Map (List ℕ) → Map (List ℕ)
sweep_entries window now [] = []
sweep_entries window now ((ip, times) ∷ m) =
    let valid = keep (is_fresh window now) times in
    if is_nil valid then sweep_entries window now m else (ip, valid) ∷ sweep_entries window now m

unfoldable pub cleanup : RateLimiter → ℕ → RateLimiter
cleanup rl now = record rl { attempts = sweep_entries rl.window now rl.attempts }

-- What reaches the limiter: a request, or a tick of the cleanup goroutine.
pub data Event : Type 0 where
  attempt : ℕ → String → Event
  tick : ℕ → Event

abbrev pub event_time : Event → ℕ
event_time (attempt now _) = now
event_time (tick now) = now

-- The answers to the requests, in order.
unfoldable pub decisions : RateLimiter → List Event → List Bool
decisions rl [] = []
decisions rl (attempt now ip ∷ es) = let (rl', d) = allow rl now ip in d ∷ decisions rl' es
decisions rl (tick now ∷ es) = decisions (cleanup rl now) es
