-- ===== src/Store/Groups.antt =====
-- internal/store/groups.go: user groups, their tree and their members.
pub mod Valid
pub mod Keeps
pub mod Replace
pub mod Calls
pub mod Synced
pub mod Tree
pub mod Members
use picoaide.Prelude.{
  ℕ, zero, suc, ◌+◌, String, Bool, true, false, not, ◌&&◌, ◌≡◌, Option, none, some, List, [], ◌∷◌,
  ◌++◌, map, if◌then◌else◌, keep, any, length, ◌==◌, str_eq,
}
use picoaide.Store.Db.{Db, Group, UserGroup}
use picoaide.Store.Action.{
  no_such_group, Result, ok, err, Store, Action, ◌>>=◌, ◌>>◌, pure, raise, query, caught, exec,
  exec_checked, exec_counting, require, touch, transaction,
}

abbrev pub has_name : String → Group → Bool
has_name name g = str_eq g.name name

abbrev pub has_id : ℕ → Group → Bool
has_id gid g = g.id == gid

abbrev pub group_exists : ℕ → Db → Bool
group_exists gid db = any (has_id gid) db.groups

-- `engine.Where("name = ?", name).Get(&group)`
abbrev pub find_group : String → List Group → Option Group
find_group name [] = none
find_group name (g ∷ gs) = if str_eq g.name name then some g else find_group name gs

-- REFERENCES groups(id)
abbrev pub parent_exists : Option ℕ → Db → Bool
parent_exists none db = true
parent_exists (some pid) db = group_exists pid db

abbrev pub add_group : String → Option ℕ → String → String → Db → Db
add_group name parent source description db = record db {
  groups =
      db.groups
      ++ record {
        id = db.next_group_id;
        name = name;
        parent_id = parent;
        source = source;
        description = description;
      }
        ∷ [];
  next_group_id = db.next_group_id + 1;
}

-- INSERT INTO groups, refused where the name is taken or the parent is missing
abbrev pub insert_group : String → String → String → Option ℕ → Db → Option Db
insert_group name source description parent db =
    if any (has_name name) db.groups
    then none
    else if parent_exists parent db
    then some (add_group name parent source description db)
    else none

pub create_group : String → String → String → Option ℕ → Action (Unit {0})
create_group name source description parent = do
  touch
  exec_checked (insert_group name source description parent)

abbrev pub id_or_raise : Option Group → Action ℕ
id_or_raise none = raise no_such_group
id_or_raise (some g) = pure g.id

pub get_group_id : String → Action ℕ
get_group_id name = do touch; found ← query (λ db. find_group name db.groups); id_or_raise found

abbrev pub is_member_row : String → ℕ → UserGroup → Bool
is_member_row username gid r = str_eq r.username username && r.group_id == gid

abbrev pub without_members : ℕ → Db → Db
without_members gid db = record db {
  user_groups = keep (λ r. not (r.group_id == gid)) db.user_groups;
}

abbrev pub is_parent : ℕ → Option ℕ → Bool
is_parent pid none = false
is_parent pid (some p) = p == pid

abbrev pub promote : ℕ → Group → Group
promote gid g = if is_parent gid g.parent_id then record g { parent_id = none } else g

-- UPDATE groups SET parent_id = NULL WHERE parent_id = ?
abbrev pub promote_children : ℕ → Db → Db
promote_children gid db = record db { groups = map (promote gid) db.groups }

abbrev pub without_group : ℕ → Db → Db
without_group gid db = record db { groups = keep (λ g. not (has_id gid g)) db.groups }

pub delete_group : String → Action (Unit {0})
delete_group name = do
  touch
  gid ← get_group_id name
  transaction (do
    exec (without_members gid)
    exec (promote_children gid)
    deleted ← exec_counting (λ db. length (keep (has_id gid) db.groups)) (without_group gid)
    require (not (deleted == 0)) no_such_group)

-- INSERT OR IGNORE INTO user_groups; the foreign key is not among what IGNORE skips
abbrev pub insert_member : String → ℕ → Db → Option Db
insert_member username gid db =
    if any (is_member_row username gid) db.user_groups
    then some db
    else if group_exists gid db
    then some (record db {
      user_groups = db.user_groups ++ record { username = username; group_id = gid } ∷ [];
    })
    else none

pub insert_members : ℕ → List String → Action (Unit {0})
insert_members gid [] = pure tt
insert_members gid (u ∷ us) = do exec_checked (insert_member u gid); insert_members gid us

pub add_users_to_group : String → List String → Action (Unit {0})
add_users_to_group name usernames = do
  gid ← get_group_id name
  touch
  transaction (insert_members gid usernames)

pub remove_user_from_group : String → String → Action (Unit {0})
remove_user_from_group name username = do
  gid ← get_group_id name
  touch
  exec (λ db. record db {
    user_groups = keep (λ r. not (is_member_row username gid r)) db.user_groups;
  })

-- INSERT OR IGNORE INTO groups (name, source)
abbrev pub ensure_group : String → String → Db → Db
ensure_group name source db =
    if any (has_name name) db.groups then db else add_group name none source "" db

pub ensure_groups : List String → String → Action (Unit {0})
ensure_groups [] source = pure tt
ensure_groups (name ∷ names) source = do exec (ensure_group name source); ensure_groups names source

-- a group that cannot be read is skipped, like one that is missing
abbrev pub join_found : String → Option (Option Group) → Action (Unit {0})
join_found username none = pure tt
join_found username (some none) = pure tt
join_found username (some (some g)) = exec_checked (insert_member username g.id)

pub join_groups : String → List String → Action (Unit {0})
join_groups username [] = pure tt
join_groups username (name ∷ names) = do
  found ← caught (λ db. find_group name db.groups)
  join_found username found
  join_groups username names

abbrev pub without_user : String → Db → Db
without_user username db = record db {
  user_groups = keep (λ r. not (str_eq r.username username)) db.user_groups;
}

pub sync_user_groups : String → List String → String → Action (Unit {0})
sync_user_groups username names source = do
  touch
  transaction
      (do ensure_groups names source; exec (without_user username); join_groups username names)

-- UPDATE groups SET parent_id = ? WHERE name = ?, refused where the parent is missing
abbrev pub set_parent : String → Option ℕ → Db → Option Db
set_parent name parent db =
    if parent_exists parent db
    then some (record db {
      groups = map (λ g. if has_name name g then record g { parent_id = parent } else g) db.groups;
    })
    else if any (has_name name) db.groups
    then none
    else some db

pub set_group_parent : String → Option ℕ → Action (Unit {0})
set_group_parent name parent = do touch; exec_checked (set_parent name parent)

pub clear_all_groups : Action (Unit {0})
clear_all_groups = do
  touch
  transaction
      (do exec (λ db. record db { user_groups = [] }); exec (λ db. record db { groups = [] }))
