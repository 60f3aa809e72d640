-- ===== src/Store/Tests.antt =====
-- The properties of internal/store at concrete inputs.
use picoaide.Prelude.{
  decimal, All, Unique, ℕ, suc, ◌<◌, ◌≡◌, refl, ◌↔◌, String, true, Option, none, some, eq_of_some,
  List, [], ◌∷◌, arith, if◌then◌else◌, any, ◌==◌,
}
use picoaide.Store.Db.{UserGroup, Db, LocalUser, Group, empty_db}
use picoaide.Store.Action.{◌>>=◌, touch, exec, query, pure, raise, ok, Store, calm}
use picoaide.Store.Action.Outcomes.{EndsAtomic}
use picoaide.Store.Users.{ensure_external_user, or_if_empty}
use picoaide.Store.Users.External.{Synced, ensure_external_user_atomic}
use picoaide.Store.Groups.Valid.{GroupsValid}
use picoaide.Store.Cookies.{set_cookie}
use picoaide.Store.Cookies.Stored.{Replaced, set_cookie_atomic}
use picoaide.Store.Ips.{allocate_ip, address, scan_ip}
use picoaide.Store.Ips.Allocated.{Allocated}
use picoaide.Store.Groups.{has_name, is_member_row, sync_user_groups, set_group_parent}
use picoaide.Store.Groups.Tree.Circle.{set_group_parent_self}
use picoaide.Store.Groups.Synced.{calm_at, named_in, others, sync_user_groups_lem}
use picoaide.Store.Groups.Members.{has_user, get_group_members_for_deploy}
use picoaide.Store.Groups.Members.Deploy.{BelongsTo, same_name, get_group_members_for_deploy_lem}
use picoaide.Store.Groups.Calls.{sync, call, call-GroupsValid}
use picoaide.Store.Groups.Tree.{OrderBy, walk, get_sub_group_ids}
use picoaide.Store.Groups.Tree.Descendants.{IsChild, Below, listed, get_sub_group_ids_iff}
use picoaide.Store.Groups.Tree.Termination.{get_sub_group_ids_total}

abbrev a_user : ℕ → String → String → LocalUser
a_user id name role = record {
  id = id;
  username = name;
  password_hash = "h";
  role = role;
  source = "local";
  ip = "";
}

abbrev a_group : ℕ → String → Option ℕ → Group
a_group id name parent = record {
  id = id;
  name = name;
  parent_id = parent;
  source = "local";
  description = "";
}

abbrev office : Db
office = record empty_db {
  users = a_user 1 "root" "superadmin" ∷ a_user 2 "ann" "user" ∷ [];
  next_user_id = 3;
  groups = a_group 1 "all" none ∷ a_group 2 "dev" (some 1) ∷ [];
  next_group_id = 3;
  user_groups = record { username = "ann"; group_id = 2 } ∷ [];
  user_skills = record { username = "ann"; skill_name = "mail"; source = "self" } ∷ [];
}

abbrev users_as_stored : OrderBy LocalUser
users_as_stored = record { sorted = λ rows. rows; any-sorted = λ p rows. refl }

abbrev members_as_stored : OrderBy UserGroup
members_as_stored = record { sorted = λ rows. rows; any-sorted = λ p rows. refl }

-- The fourth statement fails.
abbrev shaky : Store
shaky = record { db = office; issued = 0; faults = λ n. n == 3 }

set_cookie_atomic_example :
    ((set_cookie "ann" "a.org" "k=2" (calm office)).0 ≡ ok tt)
    × EndsAtomic (set_cookie "ann" "a.org" "k=2") shaky (λ _. Replaced "ann" "a.org" "k=2" office)
set_cookie_atomic_example = set_cookie_atomic "ann" "a.org" "k=2" shaky

ensure_external_user_atomic_example :
    EndsAtomic (ensure_external_user "bob" (some "hash") "" "ldap") (calm office) (λ _ db.
      Synced "bob" (or_if_empty "" "user") (or_if_empty "ldap" "external") office.users db.users)
ensure_external_user_atomic_example =
    ensure_external_user_atomic "bob" (some "hash") "" "ldap" (calm office) (refl, (refl, tt)) refl

office-GroupsValid : GroupsValid office
office-GroupsValid = record {
  ids = ground arith;
  below = ground arith;
  names = ground arith;
  parents = ((λ pid e. absurd (ground (arith, e))), ((λ pid e. ground (arith, eq_of_some e)), tt));
  members = ground arith;
  rows = ground arith;
}

call-GroupsValid_example :
    EndsAtomic (call (sync "ann" ("dev" ∷ "ops" ∷ []) "ldap")) shaky (λ _ db. GroupsValid db)
call-GroupsValid_example =
    call-GroupsValid (sync "ann" ("dev" ∷ "ops" ∷ []) "ldap") shaky office-GroupsValid

-- The rows as they stand.
abbrev as_stored : OrderBy Group
as_stored = record { sorted = λ rows. rows; any-sorted = λ p rows. refl }

get_sub_group_ids_iff_example : (listed 2 (2 ∷ []) ≡ true) ↔ Below office 1 2
unfolding get_sub_group_ids walk
get_sub_group_ids_iff_example = get_sub_group_ids_iff as_stored 2 office 1 (2 ∷ []) refl 2

abbrev rank : ℕ → ℕ
rank g = if g == 1 then 1 else 0

office_falls : (p c : ℕ) → IsChild office p c → rank c < rank p
office_falls p c h = ground (arith, h)

get_sub_group_ids_total_example :
    (ids : List ℕ) × (get_sub_group_ids as_stored (suc (rank 1)) office 1 ≡ some ids)
get_sub_group_ids_total_example = get_sub_group_ids_total as_stored office rank 1 office_falls

-- `all` made a child of `dev`: a circle.
abbrev circle : Db
circle = record office { groups = a_group 1 "all" (some 2) ∷ a_group 2 "dev" (some 1) ∷ [] }

set_group_parent_self_example :
    ((set_group_parent "all" (some 1) (calm office)).0 ≡ ok tt)
    × (get_sub_group_ids as_stored 50 (set_group_parent "all" (some 1) (calm office)).1.db 1 ≡ none)
set_group_parent_self_example =
    set_group_parent_self as_stored office "all" (a_group 1 "all" none) 50 refl

get_group_members_for_deploy_lem_example :
    (members : List String) × ((get_group_members_for_deploy as_stored members_as_stored
        (suc (rank 1))
        "all"
        (calm office)).0
      ≡ ok members)
    × Unique same_name members
    × ((u : String)
        → (has_user u members ≡ true) ↔ BelongsTo as_stored members_as_stored office 1 u)
get_group_members_for_deploy_lem_example =
    get_group_members_for_deploy_lem as_stored members_as_stored office rank "all"
      (a_group 1 "all" none) office_falls refl

sync_user_groups_lem_example :
    (db' : Db) × (m : ℕ) × (sync_user_groups "ann" ("ops" ∷ "all" ∷ []) "ldap" (calm office)
      ≡ (ok tt, calm_at db' m))
    × All (λ name. any (has_name name) db'.groups ≡ true) ("ops" ∷ "all" ∷ [])
    × ((h : ℕ)
        → any (is_member_row "ann" h) db'.user_groups ≡ named_in ("ops" ∷ "all" ∷ []) h db'.groups)
    × (others "ann" db'.user_groups ≡ others "ann" office.user_groups)
sync_user_groups_lem_example = sync_user_groups_lem "ann" ("ops" ∷ "all" ∷ []) "ldap" office

abbrev with_address : LocalUser → String → LocalUser
with_address u ip = record u { ip = ip }

-- The second user came first; then the first user, whose address is now the highest.
abbrev out_of_order : Db
out_of_order = record office {
  users =
      with_address (a_user 1 "root" "superadmin") "100.64.0.3"
      ∷ with_address (a_user 2 "ann" "user") "100.64.0.2"
      ∷ a_user 3 "carl" "user"
      ∷ [];
}

-- The third user gets the address of the first.
same_address : (allocate_ip "carl" (calm out_of_order)).0 ≡ ok "100.64.0.3"
unfolding allocate_ip address scan_ip ◌>>=◌ touch exec query pure raise decimal
same_address = refl
