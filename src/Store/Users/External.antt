-- ===== src/Store/Users/External.antt =====
-- `EnsureExternalUser`: bringing a user of the directory into local_users.
use mathlib.Core.List.{append-nil}
use picoaide.Prelude.{
  String, ◌≡◌, refl, sym, subst, false, not, Option, none, some, List, [], ◌∷◌, ◌++◌, map, arith,
  if◌then◌else◌, keep, any, str_eq, eq_iff, keep-append,
}
use picoaide.Store.Db.{Db, LocalUser}
use picoaide.Store.Action.{Store}
use picoaide.Store.Action.Outcomes.{
  Ends, EndsAtomic, query_then, given_then, ends-bind, ends-exec, ends-require, ends-exec_checked,
  transaction-EndsAtomic, touch-EndsAtomic,
}
use picoaide.Store.Users.{
  is_named, is_super, ensure_external_user, ensure_found, insert_user, find_user, or_if_empty,
}
use picoaide.Store.Users.Reset.{UniqueNames}

-- The user `n` is there once, with the role and the source; other users and superadmins are as
-- they were.
pub record Synced (n role source : String) (before after : List LocalUser) : Type 0 where
  pub found : (u : LocalUser) × (find_user n after ≡ some u) × (u.role ≡ role) × (u.source ≡ source)
  pub others : keep (λ u. not (is_named n u)) after ≡ keep (λ u. not (is_named n u)) before
  pub supers : keep is_super after ≡ keep is_super before
  pub unique : UniqueNames after

abbrev new_row : String → String → String → LocalUser → LocalUser
new_row hash role source u = record u { password_hash = hash; role = role; source = source }

module _ (n hash role source : String) where
  abbrev updated : List LocalUser → List LocalUser
  updated us = map (λ u. if is_named n u then new_row hash role source u else u) us

  named-updated :
      (m : String) (us : List LocalUser) → any (is_named m) (updated us) ≡ any (is_named m) us
  named-updated m [] = refl
  named-updated m (u ∷ us) = ground (arith, named-updated m us)

  find-updated :
      (us : List LocalUser) (u : LocalUser)
      → find_user n us ≡ some u
      → find_user n (updated us) ≡ some (new_row hash role source u)
  find-updated [] u h = ground arith
  find-updated (v ∷ us) u h = ground (arith, find-updated us u)

  others-updated :
      (us : List LocalUser)
      → keep (λ u. not (is_named n u)) (updated us) ≡ keep (λ u. not (is_named n u)) us
  others-updated [] = refl
  others-updated (u ∷ us) = ground (arith, others-updated us)

  updated-UniqueNames : (us : List LocalUser) → UniqueNames us → UniqueNames (updated us)
  updated-UniqueNames [] h = tt
  updated-UniqueNames (u ∷ us) h =
      ground (arith, named-updated u.username us, updated-UniqueNames us h.1)

  updated_absent : (us : List LocalUser) → any (is_named n) us ≡ false → updated us ≡ us
  updated_absent [] h = refl
  updated_absent (u ∷ us) h = ground (arith, updated_absent us)

  supers-updated :
      (us : List LocalUser) (u : LocalUser)
      → str_eq role "superadmin" ≡ false
      → UniqueNames us
      → find_user n us ≡ some u
      → is_super u ≡ false
      → keep is_super (updated us) ≡ keep is_super us
  supers-updated [] u r q h k = refl
  supers-updated (v ∷ us) u r q h k =
      ground (arith, eq_iff v.username n, updated_absent us, supers-updated us u r q.1)

  updated-Synced :
      (us : List LocalUser) (u : LocalUser)
      → str_eq role "superadmin" ≡ false
      → UniqueNames us
      → find_user n us ≡ some u
      → is_super u ≡ false
      → Synced n role source us (updated us)
  updated-Synced us u r q h k = record {
    found = (new_row hash role source u, find-updated us u h, refl, refl);
    others = others-updated us;
    supers = supers-updated us u r q h k;
    unique = updated-UniqueNames us q;
  }

  abbrev appended : List LocalUser → LocalUser → List LocalUser
  appended us u = us ++ u ∷ []

  find-appended :
      (us : List LocalUser) (u : LocalUser)
      → any (is_named n) us ≡ false
      → u.username ≡ n
      → find_user n (appended us u) ≡ some u
  find-appended [] u h e = ground (arith, eq_iff u.username n)
  find-appended (v ∷ us) u h e = ground (arith, find-appended us u)

  named-appended :
      (m : String) (us : List LocalUser) (u : LocalUser)
      → any (is_named m) us ≡ false
      → str_eq u.username m ≡ false
      → any (is_named m) (appended us u) ≡ false
  named-appended m [] u h e = ground arith
  named-appended m (v ∷ us) u h e = ground (arith, named-appended m us u)

  appended-UniqueNames :
      (us : List LocalUser) (u : LocalUser)
      → any (is_named n) us ≡ false
      → u.username ≡ n
      → UniqueNames us
      → UniqueNames (appended us u)
  appended-UniqueNames [] u h e q = (refl, tt)
  appended-UniqueNames (v ∷ us) u h e q = ground (
    arith,
    eq_iff v.username n,
    eq_iff u.username v.username,
    named-appended v.username us u,
    appended-UniqueNames us u,
  )

  appended-Synced :
      (us : List LocalUser) (u : LocalUser)
      → str_eq role "superadmin" ≡ false
      → UniqueNames us
      → any (is_named n) us ≡ false
      → u.username ≡ n
      → u.role ≡ role
      → u.source ≡ source
      → Synced n role source us (appended us u)
  appended-Synced us u r q h en er es = record {
    found = (u, find-appended us u h en, er, es);
    others = ground (
      arith,
      keep-append (λ v. not (is_named n v)) us (u ∷ []),
      eq_iff u.username n,
      append-nil (keep (λ v. not (is_named n v)) us),
    );
    supers = ground (arith, keep-append is_super us (u ∷ []), append-nil (keep is_super us));
    unique = appended-UniqueNames us u h en q;
  }

insert_user_free :
    (n hash role source : String) (db db' : Db)
    → insert_user n hash role source db ≡ some db'
    → (any (is_named n) db.users ≡ false)
      × (db'.users
          ≡ db.users
            ++ record {
              id = db.next_user_id;
              username = n;
              password_hash = hash;
              role = role;
              source = source;
              ip = "";
            }
              ∷ [])
insert_user_free n hash role source db db' h = ground arith

ensure_found-Ends :
    (n : String) (hash : Option String) (role source : String) (s : Store)
    → UniqueNames s.db.users
    → str_eq role "superadmin" ≡ false
    → (o : Option LocalUser) → find_user n s.db.users ≡ o
    → Ends (ensure_found n hash role source o) s (λ _ t. Synced n role source s.db.users t.db.users)
ensure_found-Ends n hash role source s q r none e = given_then hash _ λ h _.
    ends-exec_checked _ λ db' _ inserted.
      let (free, rows) = insert_user_free n h role source s.db db' inserted in
      subst (Synced n role source s.db.users) (sym rows)
        (appended-Synced n h role source s.db.users _ r q free refl refl refl)
ensure_found-Ends n hash role source s q r (some u) e = ends-bind (
    ends-require _ _ λ plain.
      given_then hash _
        λ h _. ends-exec _ λ _. updated-Synced n h role source s.db.users u r q e (ground arith))

-- `EnsureExternalUser`, asked for a role other than superadmin: on success the user is there once,
-- with that role and the source given (`user` and `external` where they are empty), all other
-- users and every superadmin are unchanged and usernames are still unique; on an error (the name
-- is a superadmin's, hashing failed, a statement failed) no table has changed.
pub ensure_external_user_atomic :
    (n : String) (hash : Option String) (role source : String) (s : Store)
    → UniqueNames s.db.users
    → str_eq (or_if_empty role "user") "superadmin" ≡ false
    → EndsAtomic (ensure_external_user n hash role source) s (λ _ db.
      Synced n (or_if_empty role "user") (or_if_empty source "external") s.db.users db.users)
unfolding ensure_external_user
ensure_external_user_atomic n hash role source s q r =
    touch-EndsAtomic _
      λ _. transaction-EndsAtomic λ _. query_then _ _ λ _. ensure_found-Ends n hash _ _ _ q r _ refl
