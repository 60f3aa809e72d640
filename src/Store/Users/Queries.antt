-- ===== src/Store/Users/Queries.antt =====
-- The functions of internal/store/users.go that only read. A database that cannot be read is `none`.
pub mod Agree
use picoaide.Prelude.{
  ℕ, String, Bool, true, false, not, ◌&&◌, Option, none, some, List, [], ◌∷◌, map, if◌then◌else◌,
  keep, any, str_eq,
}
use picoaide.Store.Db.{Db, LocalUser}
use picoaide.Store.Users.{find_user, is_named, is_super}
use picoaide.Store.Groups.Tree.{OrderBy}

pub user_exists : Option Db → String → Bool
user_exists none username = false
user_exists (some db) username = any (is_named username) db.users

abbrev pub source_or_local : Option LocalUser → String
source_or_local none = ""
source_or_local (some u) = if str_eq u.source "" then "local" else u.source

unfoldable pub get_user_source : Option Db → String → String
get_user_source none username = ""
get_user_source (some db) username = source_or_local (find_user username db.users)

unfoldable pub is_external_user : Option Db → String → Bool
is_external_user db username =
    not (str_eq (get_user_source db username) "")
    && not (str_eq (get_user_source db username) "local")

abbrev pub super_of : Option LocalUser → Bool
super_of none = false
super_of (some u) = is_super u

unfoldable pub is_superadmin : Option Db → String → Bool
is_superadmin none username = false
is_superadmin (some db) username = super_of (find_user username db.users)

abbrev role_of : Option LocalUser → String
role_of none = ""
role_of (some u) = u.role

pub get_user_role : Option Db → String → String
get_user_role none username = ""
get_user_role (some db) username = role_of (find_user username db.users)

-- The fields that the listings pass on.
abbrev pub with_ip : LocalUser → LocalUser
with_ip u = record u { id = 0; password_hash = "" }

abbrev pub without_ip : LocalUser → LocalUser
without_ip u = record u { id = 0; password_hash = ""; ip = "" }

abbrev pub is_external : String → LocalUser → Bool
is_external source u =
    if str_eq source ""
    then not (str_eq u.source "") && not (str_eq u.source "local")
    else str_eq u.source source

module _ (by_name : OrderBy LocalUser) where
  pub get_all_local_users : Option Db → Option (List LocalUser)
  get_all_local_users none = none
  get_all_local_users (some db) = some (map with_ip (by_name.sorted db.users))

  unfoldable pub get_external_users : Option Db → String → Option (List LocalUser)
  get_external_users none source = none
  get_external_users (some db) source =
      some (map without_ip (by_name.sorted (keep (is_external source) db.users)))

  unfoldable pub get_superadmins : Option Db → Option (List String)
  get_superadmins none = none
  get_superadmins (some db) = some (map (λ u. u.username) (by_name.sorted (keep is_super db.users)))
