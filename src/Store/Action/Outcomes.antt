-- ===== src/Store/Action/Outcomes.antt =====
-- How a function on the store may end, and the rules for its parts.
use picoaide.Prelude.{ℕ, ◌≡◌, refl, inl, inr, Bool, true, false, Option, none, some, Bool-cases}
use picoaide.Store.Db.{Db}
use picoaide.Store.Action.{
  Error, Result, ok, err, Store, Action, ◌>>=◌, ◌>>◌, pure, raise, query, caught, exec,
  exec_counting, exec_checked, given, require, touch, then_run, settle, rolled_back, transaction,
}

abbrev pub EndsOk : {A : Type 0} → (A → Store → Type 0) → Result A × Store → Type 0
EndsOk Q (ok a, s) = Q a s
EndsOk Q (err e, s) = Unit

-- If `m`, started at `s`, succeeds, then `Q` holds of its result and of the store that it leaves.
pub record Ends {A : Type 0} (m : Action A) (s : Store) (Q : A → Store → Type 0) : Type 0 where
  pub run : EndsOk Q (m s)

-- Either the function succeeded and `P` holds of its result and of the tables that it left, or it
-- failed and the tables are as they were.
abbrev pub AtomicOk : {A : Type 0} → Db → (A → Db → Type 0) → Result A × Store → Type 0
AtomicOk before P (ok a, s) = P a s.db
AtomicOk before P (err e, s) = s.db ≡ before

pub record EndsAtomic {A : Type 0} (m : Action A) (s : Store) (P : A → Db → Type 0) : Type 0 where
  pub run : AtomicOk s.db P (m s)

ends-then_run :
    {A B : Type 0} (Q : B → Store → Type 0) (k : A → Action B) (r : Result A × Store)
    → EndsOk (λ a s'. Ends (k a) s' Q) r
    → EndsOk Q (then_run r k)
ends-then_run Q k (ok a, s) h = h.run
ends-then_run Q k (err e, s) h = tt

pub ends-bind :
    {A B : Type 0} {Q : B → Store → Type 0} {k : A → Action B} {m : Action A} {s : Store}
    → Ends m s (λ a s'. Ends (k a) s' Q)
    → Ends (m >>= k) s Q
unfolding ◌>>=◌
ends-bind {Q = Q} {k = k} {m = m} {s = s} h = record { run = ends-then_run Q k (m s) h.run }

pub ends-exec :
    {Q : Unit {0} → Store → Type 0} {s : Store} (f : Db → Db)
    → ((n : ℕ) → Q tt (record s { issued = n; db = f s.db }))
    → Ends (exec f) s Q
unfolding exec
ends-exec {s = s} f h = elim (Bool-cases (s.faults s.issued)) [
  | inl e ↦ record { run = rw e tt }
  | inr e ↦ record { run = rw e (h _) }
]

pub ends-touch :
    {Q : Unit {0} → Store → Type 0} {s : Store}
    → ((n : ℕ) → Q tt (record s { issued = n }))
    → Ends touch s Q
unfolding touch
ends-touch h = ends-exec (λ db. db) h

checked-run :
    (Q : Unit {0} → Store → Type 0) (s : Store) (o : Option Db) (n : ℕ)
    → ((db : Db) → o ≡ some db → Q tt (record s { issued = n; db = db }))
    → EndsOk Q (settle s n o)
checked-run Q s none n h = tt
checked-run Q s (some db) n h = h db refl

pub ends-exec_checked :
    {Q : Unit {0} → Store → Type 0} {s : Store} (f : Db → Option Db)
    → ((db : Db) (n : ℕ) → f s.db ≡ some db → Q tt (record s { issued = n; db = db }))
    → Ends (exec_checked f) s Q
unfolding exec_checked
ends-exec_checked {Q = Q} {s = s} f h = elim (Bool-cases (s.faults s.issued)) [
  | inl e ↦ record { run = rw e tt }
  | inr e ↦ record { run = rw e (checked-run Q s (f s.db) _ (λ db. h db _)) }
]

module _ {A : Type 0} {Q : A → Store → Type 0} {s : Store} where
  pub ends-query :
      (f : Db → A) → ((n : ℕ) → Q (f s.db) (record s { issued = n })) → Ends (query f) s Q
  unfolding query
  ends-query f h = elim (Bool-cases (s.faults s.issued)) [
    | inl e ↦ record { run = rw e tt }
    | inr e ↦ record { run = rw e (h _) }
  ]

  pub ends-pure : (a : A) → Q a s → Ends (pure a) s Q
  unfolding pure
  ends-pure a h = record { run = h }

  pub ends-raise : (e : Error) → Ends (raise e) s Q
  unfolding raise
  ends-raise e = record { run = tt }

  pub ends-given : (o : Option A) → ((a : A) → o ≡ some a → Q a s) → Ends (given o) s Q
  unfolding given
  ends-given none h = record { run = tt }
  ends-given (some a) h = record { run = h a refl }

  -- A conclusion can be weakened.
  pub ends-weaken :
      {Q' : A → Store → Type 0} {m : Action A}
      → ((a : A) (t : Store) → Q a t → Q' a t)
      → Ends m s Q
      → Ends m s Q'
  ends-weaken {Q'} {m} h e = record { run = weaken (m s) e.run }
    where
      weaken : (r : Result A × Store) → EndsOk Q r → EndsOk Q' r
      weaken (ok a, t) q = h a t q
      weaken (err _, t) q = tt

pub ends-require :
    {Q : Unit {0} → Store → Type 0} {s : Store} (b : Bool) (e : Error)
    → (b ≡ true → Q tt s)
    → Ends (require b e) s Q
unfolding require
ends-require true e h = record { run = h refl }
ends-require false e h = record { run = tt }

pub ends-exec_counting :
    {Q : ℕ → Store → Type 0} {s : Store} (count : Db → ℕ) (f : Db → Db)
    → ((n : ℕ) → Q (count s.db) (record s { issued = n; db = f s.db }))
    → Ends (exec_counting count f) s Q
unfolding exec_counting
ends-exec_counting {s = s} count f h = elim (Bool-cases (s.faults s.issued)) [
  | inl e ↦ record { run = rw e tt }
  | inr e ↦ record { run = rw e (h _) }
]

rolled_back-AtomicOk :
    {A : Type 0} (P : A → Db → Type 0) (before : Db) (r : Result A × Store)
    → EndsOk (λ a s'. P a s'.db) r
    → AtomicOk before P (rolled_back before r)
rolled_back-AtomicOk P before (ok a, s) h = h
rolled_back-AtomicOk P before (err e, s) h = refl

module _ {A : Type 0} {P : A → Db → Type 0} {s : Store} where
  -- A transaction is atomic, and does what its body does.
  pub transaction-EndsAtomic :
      {body : Action A}
      → ((n : ℕ) → Ends body (record s { issued = n }) (λ a s'. P a s'.db))
      → EndsAtomic (transaction body) s P
  unfolding transaction
  transaction-EndsAtomic {body} h = record {
    run =
        rolled_back-AtomicOk P s.db _
          (ends-bind (
            ends-touch λ n.
              ends-bind
                (ends-weaken (λ a t q. ends-bind (ends-touch λ k. ends-pure a q)) (h n)))).run;
  }

  -- Before the first statement that writes, a failure leaves the tables alone.
  pub touch-EndsAtomic :
      (m : Unit {0} → Action A)
      → ((n : ℕ) → EndsAtomic (m tt) (record s { issued = n }) P)
      → EndsAtomic (touch >>= m) s P
  unfolding ◌>>=◌ touch exec
  touch-EndsAtomic m h = elim (Bool-cases (s.faults s.issued)) [
    | inl e ↦ record { run = rw e refl }
    | inr e ↦ record { run = rw e (h _).run }
  ]

pub given-EndsAtomic :
    {A B : Type 0} {P : B → Db → Type 0} {s : Store} (o : Option A) (k : A → Action B)
    → ((a : A) → o ≡ some a → EndsAtomic (k a) s P)
    → EndsAtomic (given o >>= k) s P
unfolding given ◌>>=◌ raise pure
given-EndsAtomic none k h = record { run = refl }
given-EndsAtomic (some a) k h = record { run = (h a refl).run }

-- The same rules for a statement with what follows it.
module _ {B : Type 0} {Q : B → Store → Type 0} {s : Store} where
  pub exec_then :
      (f : Db → Db) {m : Action B}
      → ((n : ℕ) → Ends m (record s { issued = n; db = f s.db }) Q)
      → Ends (exec f >> m) s Q
  exec_then f h = ends-bind (ends-exec f h)

  pub checked_then :
      (f : Db → Option Db) {m : Action B}
      → ((db : Db) (n : ℕ) → f s.db ≡ some db → Ends m (record s { issued = n; db = db }) Q)
      → Ends (exec_checked f >> m) s Q
  checked_then f h = ends-bind (ends-exec_checked f h)

  pub query_then :
      {A : Type 0} (f : Db → A) (k : A → Action B)
      → ((n : ℕ) → Ends (k (f s.db)) (record s { issued = n }) Q)
      → Ends (query f >>= k) s Q
  query_then f k h = ends-bind (ends-query f h)

  pub counting_then :
      (count : Db → ℕ) (f : Db → Db) (k : ℕ → Action B)
      → ((n : ℕ) → Ends (k (count s.db)) (record s { issued = n; db = f s.db }) Q)
      → Ends (exec_counting count f >>= k) s Q
  counting_then count f k h = ends-bind (ends-exec_counting count f h)

  pub given_then :
      {A : Type 0} (o : Option A) (k : A → Action B)
      → ((a : A) → o ≡ some a → Ends (k a) s Q)
      → Ends (given o >>= k) s Q
  given_then o k h = ends-bind (ends-given o h)

  -- A read whose error is passed over gives nothing or what stands in the tables.
  pub caught_then :
      {A : Type 0} (f : Db → A) (k : Option A → Action B)
      → ((n : ℕ) → Ends (k none) (record s { issued = n }) Q)
      → ((n : ℕ) → Ends (k (some (f s.db))) (record s { issued = n }) Q)
      → Ends (caught f >>= k) s Q
  unfolding caught ◌>>=◌
  caught_then f k h h' = elim (Bool-cases (s.faults s.issued)) [
    | inl e ↦ record { run = rw e (h _).run }
    | inr e ↦ record { run = rw e (h' _).run }
  ]

-- A single statement that writes is atomic.
settle-AtomicOk :
    (P : Unit {0} → Db → Type 0) (s : Store) (n : ℕ) (o : Option Db)
    → ((db : Db) → o ≡ some db → P tt db)
    → AtomicOk s.db P (settle s n o)
settle-AtomicOk P s n none h = refl
settle-AtomicOk P s n (some db) h = h db refl

module _ {P : Unit {0} → Db → Type 0} {s : Store} where
  pub checked-EndsAtomic :
      (f : Db → Option Db)
      → ((db : Db) → f s.db ≡ some db → P tt db)
      → EndsAtomic (exec_checked f) s P
  unfolding exec_checked
  checked-EndsAtomic f h = elim (Bool-cases (s.faults s.issued)) [
    | inl e ↦ record { run = rw e refl }
    | inr e ↦ record { run = rw e (settle-AtomicOk P s _ (f s.db) h) }
  ]

  pub exec-EndsAtomic : (f : Db → Db) → P tt (f s.db) → EndsAtomic (exec f) s P
  unfolding exec
  exec-EndsAtomic f h = elim (Bool-cases (s.faults s.issued)) [
    | inl e ↦ record { run = rw e refl }
    | inr e ↦ record { run = rw e h }
  ]
