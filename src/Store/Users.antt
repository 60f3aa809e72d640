-- ===== src/Store/Users.antt =====
-- internal/store/users.go
pub mod Deletion
pub mod External
pub mod Reset
pub mod Queries
use picoaide.Prelude.{
  ℕ, ◌+◌, String, ◌≡◌, refl, Bool, true, false, not, ◌&&◌, Option, none, some, List, [], ◌∷◌, ◌++◌,
  map, arith, if◌then◌else◌, keep, any, length, ◌==◌, str_eq,
}
use picoaide.Store.Db.{
  Db, LocalUser, UserGroup, UserSkill, UserChannel, UserCookie, McpToken, SharedFolderMount,
  McpServerGrant,
}
use picoaide.Store.Action.{
  Error, failed, no_such_user, is_superadmin, Result, ok, err, Store, Action, ◌>>=◌, ◌>>◌, pure,
  raise, query, exec, exec_checked, exec_counting, given, require, touch, transaction,
}

-- `engine.Where("username = ?", username).Get(&user)`; usernames are unique
abbrev pub find_user : String → List LocalUser → Option LocalUser
find_user username [] = none
find_user username (u ∷ us) = if str_eq u.username username then some u else find_user username us

abbrev pub is_named : String → LocalUser → Bool
is_named username u = str_eq u.username username

abbrev pub is_super : LocalUser → Bool
is_super u = str_eq u.role "superadmin"

-- INSERT INTO local_users, refused where the username is taken
abbrev pub insert_user : String → String → String → String → Db → Option Db
insert_user username hash role source db =
    if any (is_named username) db.users
    then none
    else some (record db {
      users =
          db.users
          ++ record {
            id = db.next_user_id;
            username = username;
            password_hash = hash;
            role = role;
            source = source;
            ip = "";
          }
            ∷ [];
      next_user_id = db.next_user_id + 1;
    })

-- The eight statements of `DeleteUser`, and those of `DeleteAllRegularUsers` for one name.
abbrev pub without_skills : String → Db → Db
without_skills n db = record db {
  user_skills = keep (λ r. not (str_eq r.username n)) db.user_skills;
}

abbrev pub without_groups : String → Db → Db
without_groups n db = record db {
  user_groups = keep (λ r. not (str_eq r.username n)) db.user_groups;
}

abbrev pub without_tokens : String → Db → Db
without_tokens n db = record db { mcp_tokens = keep (λ r. not (str_eq r.username n)) db.mcp_tokens }

abbrev pub without_cookies : String → Db → Db
without_cookies n db = record db {
  user_cookies = keep (λ r. not (str_eq r.username n)) db.user_cookies;
}

abbrev pub without_channels : String → Db → Db
without_channels n db = record db {
  user_channels = keep (λ r. not (str_eq r.username n)) db.user_channels;
}

abbrev pub without_mounts : String → Db → Db
without_mounts n db = record db {
  shared_folder_mounts = keep (λ r. not (str_eq r.username n)) db.shared_folder_mounts;
}

abbrev pub is_user_grant : String → McpServerGrant → Bool
is_user_grant n r = str_eq r.grant_type "user" && str_eq r.grant_value n

abbrev pub without_grants : String → Db → Db
without_grants n db = record db {
  mcp_server_grants = keep (λ r. not (is_user_grant n r)) db.mcp_server_grants;
}

abbrev pub without_users : (LocalUser → Bool) → Db → Db
without_users p db = record db { users = keep (λ u. not (p u)) db.users }

-- How many rows a DELETE on local_users reports.
abbrev pub affected : (LocalUser → Bool) → Db → ℕ
affected p db = length (keep p db.users)

pub delete_user : String → Action (Unit {0})
delete_user username = do
  touch
  transaction (do
    exec (without_skills username)
    exec (without_groups username)
    exec (without_tokens username)
    exec (without_cookies username)
    exec (without_channels username)
    exec (without_mounts username)
    exec (without_grants username)
    deleted ← exec_counting (affected (is_named username)) (without_users (is_named username))
    require (not (deleted == 0)) no_such_user)

-- the body of the loop of `DeleteAllRegularUsers`
pub delete_rows : String → Action (Unit {0})
delete_rows username = do
  exec (without_groups username)
  exec (without_channels username)
  exec (without_skills username)
  exec (without_tokens username)
  exec (without_cookies username)
  exec (without_mounts username)
  exec (without_grants username)

pub delete_rows_of : List String → Action (Unit {0})
delete_rows_of [] = pure tt
delete_rows_of (n ∷ ns) = do delete_rows n; delete_rows_of ns

pub delete_all_regular_users : Action (List String × ℕ)
delete_all_regular_users = do
  touch
  transaction (do
    usernames ← query (λ db. map (λ u. u.username) (keep (λ u. not (is_super u)) db.users))
    delete_rows_of usernames
    deleted ←
        exec_counting (affected (λ u. not (is_super u))) (without_users (λ u. not (is_super u)))
    pure (usernames, deleted))

-- The hash of the password is the argon2 library's, so it is an argument; `none` is its error.
pub create_user : String → Option String → String → Action (Unit {0})
create_user username hash role = do
  touch
  h ← given hash
  exec_checked (insert_user username h role "local")

abbrev pub or_if_empty : String → String → String
or_if_empty s d = if str_eq s "" then d else s

-- UPDATE local_users SET password_hash, role, source WHERE username
abbrev pub update_user : String → String → String → String → Db → Db
update_user username hash role source db = record db {
  users =
      map
        (λ u.
          if is_named username u
          then record u { password_hash = hash; role = role; source = source }
          else u)
        db.users;
}

abbrev pub ensure_found :
    String → Option String → String → String → Option LocalUser → Action (Unit {0})
ensure_found username hash role source none = do
  h ← given hash
  exec_checked (insert_user username h role source)
ensure_found username hash role source (some u) = do
  require (not (is_super u)) is_superadmin
  h ← given hash
  exec (update_user username h role source)

-- `hash` is the hash of the random password.
pub ensure_external_user : String → Option String → String → String → Action (Unit {0})
ensure_external_user username hash role source = do
  touch
  transaction (do
    existing ← query (λ db. find_user username db.users)
    ensure_found username hash (or_if_empty role "user") (or_if_empty source "external") existing)

-- UPDATE local_users SET password_hash WHERE username; the number of rows comes back
abbrev pub set_hash : String → String → Db → Db
set_hash username hash db = record db {
  users = map (λ u. if is_named username u then record u { password_hash = hash } else u) db.users;
}

pub change_password : String → Option String → Action (Unit {0})
change_password username hash = do
  touch
  h ← given hash
  updated ← exec_counting (affected (is_named username)) (set_hash username h)
  require (not (updated == 0)) no_such_user
