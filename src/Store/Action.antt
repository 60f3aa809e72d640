-- ===== src/Store/Action.antt =====
-- How the functions of internal/store run: each statement may fail, an error ends the function,
-- and a session (`Begin`, `Rollback`, `Commit`) undoes what was written since it began.
pub mod Outcomes
pub mod Calm
use picoaide.Prelude.{ℕ, ◌+◌, ◌≡◌, refl, Bool, true, false, Option, none, some, if◌then◌else◌}
use picoaide.Store.Db.{Db}

-- `failed` is an error that the database reports; `stack_overflow` is the end of a recursion that has
-- none in the source; the others are the source's own.
pub data Error : Type 0 where
  failed no_such_group no_such_user is_superadmin stack_overflow ip_pool_exhausted : Error

pub data Result {ℓ} (A : Type ℓ) : Type ℓ where
  ok : A → Result A
  err : Error → Result A

-- `faults n` tells whether the n-th statement fails. It is the environment's choice.
pub record Store : Type 0 where
  pub db : Db
  pub issued : ℕ
  pub faults : ℕ → Bool

abbrev pub Action : Type 0 → Type 0
Action A = Store → Result A × Store

-- An error ends the chain: `if err != nil { return err }`.
abbrev pub then_run : {A B : Type 0} → Result A × Store → (A → Action B) → Result B × Store
then_run (ok a, s) f = f a s
then_run (err e, s) f = (err e, s)

infixl 10 ◌>>=◌ ◌>>◌
unfoldable pub ◌>>=◌ : {A B : Type 0} → Action A → (A → Action B) → Action B
◌>>=◌ m f s = then_run (m s) f

abbrev pub ◌>>◌ : {A B : Type 0} → Action A → Action B → Action B
m >> n = m >>= λ _. n

unfoldable pub pure : {A : Type 0} → A → Action A
pure a s = (ok a, s)

unfoldable pub raise : {A : Type 0} → Error → Action A
raise e s = (err e, s)

-- A statement that reads.
unfoldable pub query : {A : Type 0} → (Db → A) → Action A
query f s =
    (if s.faults s.issued then err failed else ok (f s.db), record s { issued = s.issued + 1 })

-- A statement that reads, whose error the source passes over.
unfoldable pub caught : {A : Type 0} → (Db → A) → Action (Option A)
caught f s =
    (ok (if s.faults s.issued then none else some (f s.db)), record s { issued = s.issued + 1 })

-- A statement that writes.
unfoldable pub exec : (Db → Db) → Action (Unit {0})
exec f s =
    if s.faults s.issued
    then (err failed, record s { issued = s.issued + 1 })
    else (ok tt, record s { issued = s.issued + 1; db = f s.db })

-- A DELETE or UPDATE that reports how many rows it changed.
unfoldable pub exec_counting : (Db → ℕ) → (Db → Db) → Action ℕ
exec_counting count f s =
    if s.faults s.issued
    then (err failed, record s { issued = s.issued + 1 })
    else (ok (count s.db), record s { issued = s.issued + 1; db = f s.db })

-- What the program got elsewhere: `none` is an error that ends the function.
unfoldable pub given : {A : Type 0} → Option A → Action A
unfolding raise pure
given none = raise failed
given (some a) = pure a

abbrev pub settle : Store → ℕ → Option Db → Result (Unit {0}) × Store
settle s n none = (err failed, record s { issued = n })
settle s n (some db) = (ok tt, record s { issued = n; db = db })

-- `if !b { return e }`
unfoldable pub require : Bool → Error → Action (Unit {0})
unfolding raise pure
require b e = if b then pure tt else raise e

-- A statement that a constraint of the schema may refuse.
unfoldable pub exec_checked : (Db → Option Db) → Action (Unit {0})
exec_checked f s =
    if s.faults s.issued
    then (err failed, record s { issued = s.issued + 1 })
    else settle s (s.issued + 1) (f s.db)

-- A statement that changes nothing and can fail: `ensureDB`, `Begin`, `Commit`.
unfoldable pub touch : Action (Unit {0})
unfolding exec
touch = exec (λ db. db)

abbrev pub rolled_back : {A : Type 0} → Db → Result A × Store → Result A × Store
rolled_back db (ok a, s) = (ok a, s)
rolled_back db (err e, s) = (err e, record s { db = db })

-- `session.Begin()`, the body, `session.Commit()`; any error on the way rolls back.
unfoldable pub transaction : {A : Type 0} → Action A → Action A
unfolding ◌>>=◌ touch pure
transaction body s = rolled_back s.db ((do touch; a ← body; touch; pure a) s)

-- A store whose statements all succeed.
abbrev pub calm : Db → Store
calm db = record { db = db; issued = 0; faults = λ _. false }
