-- ===== src/Web/RateLimit/Window.antt =====
-- The limiter of internal/web/ratelimit.go against one that forgets nothing.
use picoaide.Prelude.{
  ℕ, ◌+◌, ◌≤◌, ◌<◌, String, ◌≡◌, refl, ap, ap₂, sym, ◌∙◌, Bool, List, [], ◌∷◌, ◌++◌, arith, eq_iff,
  str_eq, ltb, leb, ◌&&◌, if◌then◌else◌, length, keep, length-append, keep-append, Distinct,
  lookup-insert, insert-Distinct,
}
use mathlib.Core.Path.{subst₂}
use mathlib.Core.List.{append-nil, append_assoc}
use picoaide.Web.RateLimit.{
  RateLimiter, new_rate_limiter, is_fresh, times_of, allow, cleanup, Event, attempt, tick,
  event_time, decisions,
}
use picoaide.Web.RateLimit.Sweep.{keep-fresh-fresh, times_of-cleanup, sweep-Distinct}

-- Every attempt that was let through, for each address, oldest first.
abbrev pub History : Type 0
History = String → List ℕ

abbrev pub record_at : History → String → ℕ → History
record_at h ip now j = if str_eq ip j then h ip ++ now ∷ [] else h j

-- The specification: an attempt passes while fewer than `limit` passed within the last window.
pub spec_allows : ℕ → ℕ → History → ℕ → String → Bool
spec_allows limit window h now ip = ltb (length (keep (is_fresh window now) (h ip))) limit

pub spec_next : ℕ → ℕ → History → Event → History
spec_next limit window h (attempt now ip) =
    if spec_allows limit window h now ip then record_at h ip now else h
spec_next limit window h (tick now) = h

pub spec_decisions : ℕ → ℕ → History → List Event → List Bool
spec_decisions limit window h [] = []
spec_decisions limit window h (attempt now ip ∷ es) =
    spec_allows limit window h now ip
    ∷ spec_decisions limit window (spec_next limit window h (attempt now ip)) es
spec_decisions limit window h (tick now ∷ es) = spec_decisions limit window h es

pub spec_history : ℕ → ℕ → History → List Event → History
spec_history limit window h [] = h
spec_history limit window h (e ∷ es) = spec_history limit window (spec_next limit window h e) es

-- The clock does not run backwards.
abbrev pub InOrder : ℕ → List Event → Type 0
InOrder now [] = Unit
InOrder now (e ∷ es) = (now ≤ event_time e) × InOrder (event_time e) es

-- From `now` on, the stored times and the history have the same fresh part.
record Agrees (now : ℕ) (rl : RateLimiter) (h : History) : Type 0 where
  distinct : Distinct rl.attempts
  fresh :
      (ip : String) (n : ℕ)
      → now ≤ n
      → keep (is_fresh rl.window n) (times_of rl ip) ≡ keep (is_fresh rl.window n) (h ip)

module _ {last now : ℕ} {rl : RateLimiter} {h : History} (g : Agrees last rl h)
    (le : last ≤ now) where
  allow-eq-spec : (ip : String) → (allow rl now ip).1 ≡ spec_allows rl.limit rl.window h now ip
  unfolding allow spec_allows
  allow-eq-spec ip = ground (arith, ap length (g.fresh ip now le))

  times_of-allow :
      (ip j : String) (n : ℕ)
      → now ≤ n
      → keep (is_fresh rl.window n) (times_of (allow rl now ip).0 j)
        ≡ keep (is_fresh rl.window n) (spec_next rl.limit rl.window h (attempt now ip) j)
  unfolding allow spec_next spec_allows
  times_of-allow ip j n le' = ground (
    arith,
    g.fresh ip now le,
    g.fresh ip n (omega arith),
    g.fresh j n (omega arith),
    eq_iff ip j,
    lookup-insert ip j (keep (is_fresh rl.window now) (times_of rl ip)) rl.attempts,
    lookup-insert ip j (keep (is_fresh rl.window now) (times_of rl ip) ++ now ∷ []) rl.attempts,
    keep-append (is_fresh rl.window n) (keep (is_fresh rl.window now) (times_of rl ip)) (now ∷ []),
    keep-append (is_fresh rl.window n) (h ip) (now ∷ []),
    keep-fresh-fresh rl.window now n (times_of rl ip) le',
  )

  allow-Agrees :
      (ip : String)
      → Agrees now (allow rl now ip).0 (spec_next rl.limit rl.window h (attempt now ip))
  unfolding allow
  allow-Agrees ip = record {
    distinct = ground (
      arith,
      g.distinct,
      insert-Distinct ip (keep (is_fresh rl.window now) (times_of rl ip)) rl.attempts,
      insert-Distinct ip (keep (is_fresh rl.window now) (times_of rl ip) ++ now ∷ []) rl.attempts,
    );
    fresh = λ j n le'. unfold allow in ground (arith, times_of-allow ip j n le');
  }

  cleanup-Agrees : Agrees now (cleanup rl now) h
  unfolding cleanup
  cleanup-Agrees = record {
    distinct = sweep-Distinct rl.window now rl.attempts g.distinct;
    fresh = λ ip n le'. ground (
      arith,
      times_of-cleanup rl now ip g.distinct,
      g.fresh ip n (omega arith),
      keep-fresh-fresh rl.window now n (times_of rl ip) le',
    );
  }

limit-allow : (rl : RateLimiter) (now : ℕ) (ip : String) → (allow rl now ip).0.limit ≡ rl.limit
unfolding allow
limit-allow rl now ip = ground arith

window-allow : (rl : RateLimiter) (now : ℕ) (ip : String) → (allow rl now ip).0.window ≡ rl.window
unfolding allow
window-allow rl now ip = ground arith

decisions-Agrees :
    (es : List Event) {last : ℕ} {rl : RateLimiter} {h : History}
    → Agrees last rl h
    → InOrder last es
    → decisions rl es ≡ spec_decisions rl.limit rl.window h es
unfolding decisions spec_decisions
decisions-Agrees [] g o = refl
decisions-Agrees (attempt now ip ∷ es) {rl = rl} {h = h} g o = ap₂ ◌∷◌ (allow-eq-spec g o.0 ip) (
    decisions-Agrees es (allow-Agrees g o.0 ip) o.1
    ∙ ap₂ (λ (l w : ℕ). spec_decisions l w (spec_next rl.limit rl.window h (attempt now ip)) es)
        (limit-allow rl now ip) (window-allow rl now ip))
decisions-Agrees (tick now ∷ es) {h = h} g o =
    decisions-Agrees es (cleanup-Agrees g o.0) o.1
    ∙ ap₂ (λ (l w : ℕ). spec_decisions l w h es) (unfold cleanup in refl) (unfold cleanup in refl)

abbrev pub no_history : History
no_history ip = []

new-Agrees : (limit window : ℕ) → Agrees 0 (new_rate_limiter limit window) no_history
unfolding new_rate_limiter
new-Agrees limit window = record { distinct = tt; fresh = λ ip n le. refl }

-- For requests and cleanup ticks in time order, the limiter answers each request as the
-- specification does, which forgets nothing: dropping old attempts changes no answer.
pub decisions-eq-spec :
    (limit window : ℕ) (es : List Event)
    → InOrder 0 es
    → decisions (new_rate_limiter limit window) es ≡ spec_decisions limit window no_history es
decisions-eq-spec limit window es o =
    decisions-Agrees es (new-Agrees limit window) o ∙ unfold new_rate_limiter in refl

-- When the requests of one address were let through.
pub passed : RateLimiter → String → List Event → List ℕ
passed rl ip [] = []
passed rl ip (attempt now j ∷ es) =
    let (rl', d) = allow rl now j in
    if d && str_eq j ip then now ∷ passed rl' ip es else passed rl' ip es
passed rl ip (tick now ∷ es) = passed (cleanup rl now) ip es

-- How many of the times lie from `t` on, less than a window later.
abbrev pub in_window : ℕ → ℕ → List ℕ → ℕ
in_window window t ts = length (keep (λ a. leb t a && ltb a (t + window)) ts)

in_window-le-fresh :
    (window t now : ℕ) (ts : List ℕ)
    → now < t + window
    → in_window window t ts ≤ length (keep (is_fresh window now) ts)
in_window-le-fresh window t now [] h = omega arith
in_window-le-fresh window t now (a ∷ ts) h = ground (arith, in_window-le-fresh window t now ts h)

in_window-snoc :
    (limit window t now : ℕ) (ts : List ℕ)
    → in_window window t ts ≤ limit
    → length (keep (is_fresh window now) ts) < limit
    → in_window window t (ts ++ now ∷ []) ≤ limit
in_window-snoc limit window t now ts h room =
    rw (keep-append (λ a. leb t a && ltb a (t + window)) ts (now ∷ [])) (
      ground (
        arith,
        in_window-le-fresh window t now ts,
        length-append (keep (λ a. leb t a && ltb a (t + window)) ts)
            (keep (λ a. leb t a && ltb a (t + window)) (now ∷ [])),
      ))

spec_next_bounded :
    (limit window t now : ℕ) (h : History) (ip j : String)
    → in_window window t (h ip) ≤ limit
    → in_window window t (spec_next limit window h (attempt now j) ip) ≤ limit
unfolding spec_next spec_allows
spec_next_bounded limit window t now h ip j b =
    ground (arith, eq_iff j ip, in_window-snoc limit window t now (h ip))

passed_step :
    (limit window now : ℕ) (h : History) (ip j : String) (rest : List ℕ)
    → h ip ++ (if spec_allows limit window h now j && str_eq j ip then now ∷ rest else rest)
      ≡ spec_next limit window h (attempt now j) ip ++ rest
unfolding spec_next
passed_step limit window now h ip j rest =
    ground (arith, eq_iff j ip, append_assoc (h ip) (now ∷ []) rest)

passed-Agrees :
    (ip : String) (t : ℕ) (es : List Event) {last : ℕ} {rl : RateLimiter} {h : History}
    → Agrees last rl h
    → InOrder last es
    → in_window rl.window t (h ip) ≤ rl.limit
    → in_window rl.window t (h ip ++ passed rl ip es) ≤ rl.limit
unfolding passed cleanup
passed-Agrees ip t [] g o b = rw append-nil b
passed-Agrees ip t (attempt now j ∷ es) {rl = rl} {h = h} g o b =
    let h' = spec_next rl.limit rl.window h (attempt now j) in
    let rl' = (allow rl now j).0 in
    let same_window = window-allow rl now j in
    let same_limit = limit-allow rl now j in
    let b' : in_window rl.window t (h' ip) ≤ rl.limit =
      spec_next_bounded rl.limit rl.window t now h ip j b in
    let ih =
      passed-Agrees ip t es {rl = rl'} {h = h'} (allow-Agrees g o.0 j) o.1
        (subst₂ (λ w l. in_window w t (h' ip) ≤ l) (sym same_window) (sym same_limit) b') in
    rw (allow-eq-spec g o.0 j, passed_step rl.limit rl.window now h ip j)
      (subst₂ (λ w l. in_window w t (h' ip ++ passed rl' ip es) ≤ l) same_window same_limit ih)
passed-Agrees ip t (tick now ∷ es) {rl = rl} {h = h} g o b =
    passed-Agrees ip t es {h = h} (cleanup-Agrees g o.0) o.1 b

-- For requests and cleanup ticks in time order, at most `limit` requests of one address are let
-- through in any stretch of time as long as the window.
pub passed-le-limit :
    (limit window : ℕ) (es : List Event) (ip : String) (t : ℕ)
    → InOrder 0 es
    → in_window window t (passed (new_rate_limiter limit window) ip es) ≤ limit
passed-le-limit limit window es ip t o =
    unfold new_rate_limiter in passed-Agrees ip t es (new-Agrees limit window) o (omega arith)
