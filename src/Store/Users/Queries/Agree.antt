-- ===== src/Store/Users/Queries/Agree.antt =====
-- The tests and the listings of internal/store/users.go agree.
use picoaide.Prelude.{
  String, ◌≡◌, refl, ◌∙◌, inl, inr, Bool, false, not, ◌&&◌, Option, none, some, List, [], ◌∷◌, map,
  arith, keep, any, str_eq, eq_iff, subst, Bool-cases, any-keep-false, any-map,
}
use picoaide.Store.Db.{Db, LocalUser}
use picoaide.Store.Users.{find_user, is_named, is_super}
use picoaide.Store.Users.Reset.{UniqueNames}
use picoaide.Store.Groups.Tree.{OrderBy}
use picoaide.Store.Users.Queries.{
  source_or_local, get_user_source, is_external_user, super_of, is_superadmin, without_ip,
  is_external, get_external_users, get_superadmins,
}

abbrev test : (LocalUser → Bool) → Option LocalUser → Bool
test p none = false
test p (some u) = p u

-- No two users have the name, so the first with it is the only one.
any-named :
    (n : String) (p : LocalUser → Bool) (us : List LocalUser)
    → UniqueNames us
    → any (is_named n) (keep p us) ≡ test p (find_user n us)
any-named n p [] h = refl
any-named n p (u ∷ us) h = elim (Bool-cases (str_eq u.username n)) [
  | inl here ↦
      let gone : any (is_named n) us ≡ false =
        subst (λ m. any (is_named m) us ≡ false) ((eq_iff u.username n).0 here) h.0 in
      ground (arith, here, any-keep-false (is_named n) p us gone)
  | inr other ↦ ground (arith, other, any-named n p us h.1)
]

any-usernames :
    (n : String) (us : List LocalUser)
    → any (λ m. str_eq m n) (map (λ u. u.username) us) ≡ any (is_named n) us
any-usernames n [] = refl
any-usernames n (u ∷ us) = ground (arith, any-usernames n us)

super_test : (o : Option LocalUser) → test is_super o ≡ super_of o
super_test none = refl
super_test (some u) = refl

external_test :
    (o : Option LocalUser)
    → test (is_external "") o
      ≡ (not (str_eq (source_or_local o) "") && not (str_eq (source_or_local o) "local"))
external_test none = refl
external_test (some u) = elim (Bool-cases (str_eq u.source "")) [
  | inl empty ↦ rw empty refl
  | inr full ↦ ground (arith, full)
]

abbrev pub names_of : Option (List String) → List String
names_of none = []
names_of (some ns) = ns

abbrev pub rows_of : Option (List LocalUser) → List LocalUser
rows_of none = []
rows_of (some us) = us

-- Where usernames are unique and the database can be read, the names that `GetSuperadmins` lists
-- are those of which `IsSuperadmin` says so, and the users that `GetExternalUsers` lists, asked for
-- any source, are those of which `IsExternalUser` says so.
pub listings_agree :
    (by_name : OrderBy LocalUser) (db : Db) (n : String)
    → UniqueNames db.users
    → (any (λ m. str_eq m n) (names_of (get_superadmins by_name (some db)))
        ≡ is_superadmin (some db) n)
      × (any (is_named n) (rows_of (get_external_users by_name (some db) ""))
          ≡ is_external_user (some db) n)
unfolding get_superadmins is_superadmin get_external_users is_external_user get_user_source
listings_agree by_name db n h = (
  any-usernames n (by_name.sorted (keep is_super db.users))
      ∙ by_name.any-sorted (is_named n) (keep is_super db.users)
      ∙ any-named n is_super db.users h
      ∙ super_test (find_user n db.users),
  any-map without_ip (is_named n) (by_name.sorted (keep (is_external "") db.users)) (λ u. refl)
      ∙ by_name.any-sorted (is_named n) (keep (is_external "") db.users)
      ∙ any-named n (is_external "") db.users h
      ∙ external_test (find_user n db.users),
)
