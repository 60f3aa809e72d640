-- ===== src/Store/Cookies/Stored.antt =====
-- `SetCookie`, `GetCookie` and `DeleteCookie` of internal/store/cookies.go, one after the other.
use text.Mathlib.TextEquality.{eq_iff}
use picoaide.Prelude.{
  ℕ, ◌+◌, ◌≡◌, refl, ap, ◌∙◌, inl, inr, String, true, false, not, ◌&&◌, List, [], ◌∷◌, ◌++◌, map,
  keep, arith, if◌then◌else◌, ◌==◌, str_eq, Bool-cases,
}
use picoaide.Store.Db.{Db, UserCookie}
use picoaide.Store.Action.{ok, Store, ◌>>=◌, pure, exec, exec_counting, query, touch, calm}
use picoaide.Store.Action.Outcomes.{AtomicOk, EndsAtomic, touch-EndsAtomic, exec-EndsAtomic}
use picoaide.Store.Action.Calm.{
  Succeeds, Succeeds-bind, Succeeds-pure, Succeeds-exec, Succeeds-exec_counting, Succeeds-touch,
  Succeeds-calm,
}
use picoaide.Store.Cookies.{
  insert_unless_updated, is_cookie, find_cookie, count_cookies, overwrite, update_cookie,
  insert_cookie, set_cookie, cookies_or_empty, get_cookie, delete_cookie,
}

abbrev text_at : String → String → List UserCookie → String
text_at u d rs = cookies_or_empty (find_cookie u d rs)

-- The second pair of a user and a domain reads as given where it is the first pair, and as before
-- where it is not; no other table changes.
abbrev pub Replaced : String → String → String → Db → Db → Type 0
Replaced username domain cookies db db' =
    ((u d : String)
      → (get_cookie u d (calm db')).0 ≡ (
          if str_eq username u && str_eq domain d
          then ok cookies
          else (get_cookie u d (calm db)).0))
    × (db' ≡ record db { user_cookies = db'.user_cookies })

text_at-update_other :
    (n m c u d : String) (rs : List UserCookie)
    → (str_eq n u && str_eq m d) ≡ false
    → text_at u d (map (overwrite n m c) rs) ≡ text_at u d rs
text_at-update_other n m c u d [] other = refl
text_at-update_other n m c u d (r ∷ rs) other = ground (
  arith,
  other,
  eq_iff n u,
  eq_iff m d,
  eq_iff r.username n,
  eq_iff r.domain m,
  eq_iff r.username u,
  eq_iff r.domain d,
  text_at-update_other n m c u d rs other,
)

text_at-update :
    (n m c u d : String) (rs : List UserCookie)
    → (count_cookies n m rs == 0) ≡ false
    → text_at u d (map (overwrite n m c) rs)
      ≡ (if str_eq n u && str_eq m d then c else text_at u d rs)
text_at-update n m c u d [] h = ground arith
text_at-update n m c u d (r ∷ rs) h = ground (
  arith,
  h,
  eq_iff n u,
  eq_iff m d,
  eq_iff r.username n,
  eq_iff r.domain m,
  eq_iff r.username u,
  eq_iff r.domain d,
  text_at-update n m c u d rs,
  text_at-update_other n m c u d rs,
)

text_at-insert :
    (n m c u d : String) (rs : List UserCookie)
    → (count_cookies n m rs == 0) ≡ true
    → text_at u d (rs ++ record { username = n; domain = m; cookies = c } ∷ [])
      ≡ (if str_eq n u && str_eq m d then c else text_at u d rs)
text_at-insert n m c u d [] h = ground arith
text_at-insert n m c u d (r ∷ rs) h = ground (
  arith,
  h,
  eq_iff n u,
  eq_iff m d,
  eq_iff r.username n,
  eq_iff r.domain m,
  eq_iff r.username u,
  eq_iff r.domain d,
  text_at-insert n m c u d rs,
)

text_at-delete :
    (n m u d : String) (rs : List UserCookie)
    → text_at u d (keep (λ r. not (is_cookie n m r)) rs)
      ≡ (if str_eq n u && str_eq m d then "" else text_at u d rs)
text_at-delete n m u d [] = ground arith
text_at-delete n m u d (r ∷ rs) = ground (
  arith,
  eq_iff n u,
  eq_iff m d,
  eq_iff r.username n,
  eq_iff r.domain m,
  eq_iff r.username u,
  eq_iff r.domain d,
  text_at-delete n m u d rs,
)

update-none :
    (n m c : String) (rs : List UserCookie)
    → (count_cookies n m rs == 0) ≡ true
    → map (overwrite n m c) rs ≡ rs
update-none n m c [] h = refl
update-none n m c (r ∷ rs) h = ground (arith, h, update-none n m c rs)

replaced :
    (n m c : String) (db : Db) (rs : List UserCookie)
    → ((u d : String)
        → text_at u d rs ≡ (if str_eq n u && str_eq m d then c else text_at u d db.user_cookies))
    → Replaced n m c db (record db { user_cookies = rs })
unfolding get_cookie ◌>>=◌ touch exec query
replaced n m c db rs h = (
  λ u d. elim (Bool-cases (str_eq n u && str_eq m d)) [
    | inl e ↦ rw e (ap ok (h u d ∙ rw e refl))
    | inr e ↦ rw e (ap ok (h u d ∙ rw e refl))
  ],
  refl,
)

-- The INSERT that follows an UPDATE of no row.
insert-AtomicOk :
    (n m c : String) (db : Db) (s : Store)
    → (count_cookies n m db.user_cookies == 0) ≡ true
    → s.db ≡ db
    → AtomicOk db (λ _. Replaced n m c db) (exec (insert_cookie n m c) s)
unfolding exec
insert-AtomicOk n m c db s none_there e = elim (Bool-cases (s.faults s.issued)) [
  | inl bad ↦ rw bad e
  | inr fine ↦
      rw fine
        (rw e (replaced n m c db _ λ u d. text_at-insert n m c u d db.user_cookies none_there))
]

set_cookie-EndsAtomic :
    (username domain cookies : String) (s : Store)
    → EndsAtomic (set_cookie username domain cookies) s (λ _. Replaced username domain cookies s.db)
unfolding set_cookie ◌>>=◌ exec_counting exec pure
set_cookie-EndsAtomic username domain cookies s = touch-EndsAtomic _ λ n.
    elim (Bool-cases (s.faults n)) [
      | inl bad ↦ record { run = rw bad refl }
      | inr fine ↦ elim (Bool-cases (count_cookies username domain s.db.user_cookies == 0)) [
        | inr some_there ↦ record {
          run = rw fine (
              rw some_there (
                replaced username domain cookies s.db _
                  λ u d. text_at-update username domain cookies u d s.db.user_cookies some_there));
        }
        | inl none_there ↦ record {
          run = rw fine (
              rw none_there (
                insert-AtomicOk username domain cookies s.db
                  (record s { issued = n + 1; db = update_cookie username domain cookies s.db })
                  none_there
                  (ap (λ rs. record s.db { user_cookies = rs })
                    (update-none username domain cookies s.db.user_cookies none_there))));
        }
      ]
    ]

insert_unless_updated-Succeeds :
    (username domain cookies : String) (affected : ℕ)
    → Succeeds (insert_unless_updated username domain cookies affected)
insert_unless_updated-Succeeds username domain cookies affected =
    elim (Bool-cases (affected == 0)) [
      | inl nothing ↦ rw nothing (Succeeds-exec (insert_cookie username domain cookies))
      | inr changed ↦ rw changed (Succeeds-pure tt)
    ]

set_cookie-Succeeds :
    (username domain cookies : String) → Succeeds (set_cookie username domain cookies)
unfolding set_cookie
set_cookie-Succeeds username domain cookies = Succeeds-bind Succeeds-touch λ _.
    Succeeds-bind (Succeeds-exec_counting _ _)
      λ affected. insert_unless_updated-Succeeds username domain cookies affected

-- `SetCookie` succeeds where every statement does, and changes nothing on an error, whichever of its
-- statements fails. On success `GetCookie` reads the new text for that user and domain, and for every
-- other pair what it read before; no other table changes.
pub set_cookie_atomic :
    (username domain cookies : String) (s : Store)
    → ((set_cookie username domain cookies (calm s.db)).0 ≡ ok tt)
      × EndsAtomic
          (set_cookie username domain cookies)
          s
          (λ _. Replaced username domain cookies s.db)
set_cookie_atomic username domain cookies s = (
  Succeeds-calm (set_cookie-Succeeds username domain cookies) s.db,
  set_cookie-EndsAtomic username domain cookies s,
)

-- `DeleteCookie` changes nothing on an error. On success `GetCookie` reads the empty text for that
-- user and domain, and for every other pair what it read before; no other table changes.
pub delete_cookie_atomic :
    (username domain : String) (s : Store)
    → EndsAtomic (delete_cookie username domain) s (λ _. Replaced username domain "" s.db)
unfolding delete_cookie
delete_cookie_atomic username domain s = touch-EndsAtomic _ λ _.
    exec-EndsAtomic _ (
      replaced username domain "" s.db _
        λ u d. text_at-delete username domain u d s.db.user_cookies)
