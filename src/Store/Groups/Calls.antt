-- ===== src/Store/Groups/Calls.antt =====
-- Every call of internal/store/groups.go that changes the tables keeps them well formed.
use picoaide.Prelude.{ℕ, String, Option, none, some, List}
use picoaide.Store.Action.{Store, Action}
use picoaide.Store.Action.Outcomes.{EndsAtomic}
use picoaide.Store.Groups.{
  create_group, delete_group, add_users_to_group, remove_user_from_group, sync_user_groups,
  set_group_parent, clear_all_groups,
}
use picoaide.Store.Groups.Valid.{GroupsValid}
use picoaide.Store.Groups.Keeps.{
  add_users_to_group-Keeps, clear_all_groups-Keeps, create_group-Keeps, delete_group-Keeps,
  remove_user_from_group-Keeps, set_group_parent-Keeps, sync_user_groups-Keeps,
}
use picoaide.Store.Groups.Replace.{
  replace_group_members_by_source, replace_group_members_by_source-Keeps,
}

-- The calls that change the group tables.
pub data GroupCall : Type 0 where
  create : String → String → String → Option ℕ → GroupCall
  remove set_top : String → GroupCall
  set_under : String → ℕ → GroupCall
  add : String → List String → GroupCall
  drop : String → String → GroupCall
  sync : String → List String → String → GroupCall
  replace : String → List (String × List String) → List (String × List String) → GroupCall
  clear : GroupCall

pub call : GroupCall → Action (Unit {0})
call (create name source description parent) = create_group name source description parent
call (remove name) = delete_group name
call (set_top name) = set_group_parent name none
call (set_under name pid) = set_group_parent name (some pid)
call (add name us) = add_users_to_group name us
call (drop name u) = remove_user_from_group name u
call (sync u names source) = sync_user_groups u names source
call (replace source first second) = replace_group_members_by_source source first second
call clear = clear_all_groups

-- Each call, whichever statement of it fails, either succeeds and keeps the group tables well
-- formed (unique names, ids and memberships; no membership and no parent reference to a group that
-- is not there), or fails and leaves every table as it was.
pub call-GroupsValid :
    (c : GroupCall) (s : Store) → GroupsValid s.db → EndsAtomic (call c) s (λ _ db. GroupsValid db)
unfolding call
call-GroupsValid (create name source description parent) s v =
    create_group-Keeps name source description parent s v
call-GroupsValid (remove name) s v = delete_group-Keeps name s v
call-GroupsValid (set_top name) s v = set_group_parent-Keeps name none s v
call-GroupsValid (set_under name pid) s v = set_group_parent-Keeps name (some pid) s v
call-GroupsValid (add name us) s v = add_users_to_group-Keeps name us s v
call-GroupsValid (drop name u) s v = remove_user_from_group-Keeps name u s v
call-GroupsValid (sync u names source) s v = sync_user_groups-Keeps u names source s v
call-GroupsValid (replace source first second) s v =
    replace_group_members_by_source-Keeps source first second s v
call-GroupsValid clear s v = clear_all_groups-Keeps s v
