-- ===== src/Web/RateLimit/Sweep.antt =====
-- What the cleanup goroutine of internal/web/ratelimit.go leaves behind.
use picoaide.Prelude.{
  ℕ, ◌≤◌, String, ◌≡◌, refl, true, none, List, [], ◌∷◌, arith, eq_iff, keep, keep-keep, Map, lookup,
  Distinct,
}
use picoaide.Web.RateLimit.{RateLimiter, is_fresh, or_nil, times_of, is_nil, sweep_entries, cleanup}

-- An attempt that is fresh at a later time was fresh before.
pub is_fresh_mono :
    (window now later t : ℕ)
    → now ≤ later
    → is_fresh window later t ≡ true
    → is_fresh window now t ≡ true
is_fresh_mono window now later t le h = ground arith

pub keep-fresh-fresh :
    (window now later : ℕ) (ts : List ℕ)
    → now ≤ later
    → keep (is_fresh window later) (keep (is_fresh window now) ts) ≡ keep (is_fresh window later) ts
keep-fresh-fresh window now later ts le =
    keep-keep (is_fresh window now) (is_fresh window later) ts
      λ t. is_fresh_mono window now later t le

module _ (window now : ℕ) where
  lookup-sweep-none :
      (k : String) (m : Map (List ℕ))
      → lookup k m ≡ none
      → lookup k (sweep_entries window now m) ≡ none
  lookup-sweep-none k [] h = refl
  lookup-sweep-none k ((i, ts) ∷ m) h = ground (arith, eq_iff i k, lookup-sweep-none k m)

  is_nil→nil : (ts : List ℕ) → is_nil ts ≡ true → ts ≡ []
  is_nil→nil [] h = refl
  is_nil→nil (t ∷ ts) h = ground arith

  -- Every address keeps exactly its fresh attempts.
  pub or_nil-lookup-sweep :
      (k : String) (m : Map (List ℕ))
      → Distinct m
      → or_nil (lookup k (sweep_entries window now m))
        ≡ keep (is_fresh window now) (or_nil (lookup k m))
  or_nil-lookup-sweep k [] d = refl
  or_nil-lookup-sweep k ((i, ts) ∷ m) d = ground (
    arith,
    eq_iff i k,
    or_nil-lookup-sweep k m d.1,
    lookup-sweep-none i m d.0,
    is_nil→nil (keep (is_fresh window now) ts),
  )

  pub sweep-Distinct : (m : Map (List ℕ)) → Distinct m → Distinct (sweep_entries window now m)
  sweep-Distinct [] d = tt
  sweep-Distinct ((i, ts) ∷ m) d = ground (arith, lookup-sweep-none i m d.0, sweep-Distinct m d.1)

pub times_of-cleanup :
    (rl : RateLimiter) (now : ℕ) (ip : String)
    → Distinct rl.attempts
    → times_of (cleanup rl now) ip ≡ keep (is_fresh rl.window now) (times_of rl ip)
unfolding cleanup
times_of-cleanup rl now ip d = or_nil-lookup-sweep rl.window now ip rl.attempts d
