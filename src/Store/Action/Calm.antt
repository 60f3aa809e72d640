-- ===== src/Store/Action/Calm.antt =====
-- Functions on the store that succeed where every statement does.
use picoaide.Prelude.{ℕ, ◌+◌, ◌≡◌, refl, ap, ◌∙◌, false, Option, some}
use picoaide.Store.Db.{Db}
use picoaide.Store.Action.{
  ok, Store, Action, ◌>>=◌, pure, query, exec, exec_counting, touch, given, then_run, rolled_back,
  transaction, calm,
}

abbrev IsCalm : Store → Type 0
IsCalm s = (n : ℕ) → s.faults n ≡ false

pub record Succeeds {A : Type 0} (m : Action A) : Type 0 where
  pub run : (s : Store) → IsCalm s → (a : A) × (t : Store) × (m s ≡ (ok a, t)) × IsCalm t

module _ {A : Type 0} where
  pub Succeeds-bind :
      {B : Type 0} {m : Action A} {k : A → Action B}
      → Succeeds m
      → ((a : A) → Succeeds (k a))
      → Succeeds (m >>= k)
  unfolding ◌>>=◌
  Succeeds-bind {k = k} h hk = record {
    run = λ s c.
        let (a, t, e, c') = h.run s c in
        let (b, u, e', c'') = (hk a).run t c' in (b, u, ap (λ r. then_run r k) e ∙ e', c'');
  }

  pub Succeeds-pure : (a : A) → Succeeds (pure a)
  unfolding pure
  Succeeds-pure a = record { run = λ s c. (a, s, refl, c) }

  pub Succeeds-query : (f : Db → A) → Succeeds (query f)
  unfolding query
  Succeeds-query f = record {
    run = λ s c. (f s.db, record s { issued = s.issued + 1 }, rw (c s.issued) refl, c);
  }

  pub Succeeds-given : (o : Option A) (a : A) → o ≡ some a → Succeeds (given o)
  unfolding given pure
  Succeeds-given o a e = record { run = λ s c. (a, s, ap (λ x. given x s) e, c) }

pub Succeeds-exec : (f : Db → Db) → Succeeds (exec f)
unfolding exec
Succeeds-exec f = record {
  run = λ s c. (tt, record s { issued = s.issued + 1; db = f s.db }, rw (c s.issued) refl, c);
}

pub Succeeds-exec_counting : (count : Db → ℕ) (f : Db → Db) → Succeeds (exec_counting count f)
unfolding exec_counting
Succeeds-exec_counting count f = record {
  run =
      λ s c. (count s.db, record s { issued = s.issued + 1; db = f s.db }, rw (c s.issued) refl, c);
}

pub Succeeds-touch : Succeeds touch
unfolding touch
Succeeds-touch = Succeeds-exec (λ db. db)

pub Succeeds-transaction :
    {A : Type 0} {body : Action A} → Succeeds body → Succeeds (transaction body)
unfolding transaction
Succeeds-transaction h =
    let all =
      Succeeds-bind Succeeds-touch
        λ _. Succeeds-bind h λ a. Succeeds-bind Succeeds-touch λ _. Succeeds-pure a in
    record { run = λ s c. let (a, t, e, c') = all.run s c in (a, t, ap (rolled_back s.db) e, c') }

-- The result of a function that returns nothing.
pub Succeeds-calm : {m : Action (Unit {0})} → Succeeds m → (db : Db) → (m (calm db)).0 ≡ ok tt
Succeeds-calm h db = let (_, _, e, _) = h.run (calm db) (λ n. refl) in ap (λ r. r.0) e

pub Succeeds-calm_result :
    {A : Type 0} {m : Action A} → Succeeds m → (db : Db) → (a : A) × ((m (calm db)).0 ≡ ok a)
Succeeds-calm_result h db = let (a, _, e, _) = h.run (calm db) (λ n. refl) in (a, ap (λ r. r.0) e)
