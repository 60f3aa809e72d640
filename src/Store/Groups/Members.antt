-- ===== src/Store/Groups/Members.antt =====
-- The members of a group, and of the groups below it: `GetGroupMembers`,
-- `GetGroupMembersWithSubGroups` and `GetGroupMembersForDeploy` of internal/store/groups.go.
pub mod Deploy
use picoaide.Prelude.{
  ℕ, String, Bool, true, false, not, Option, none, some, List, [], ◌∷◌, ◌++◌, map, if◌then◌else◌,
  keep, any, ◌==◌, str_eq,
}
use picoaide.Store.Db.{Db, Group, UserGroup}
use picoaide.Store.Action.{
  no_such_group, stack_overflow, Result, ok, err, Store, Action, ◌>>=◌, ◌>>◌, pure, raise, query,
  caught, touch,
}
use picoaide.Store.Groups.{find_group, get_group_id}
use picoaide.Store.Groups.Tree.{OrderBy, get_sub_group_ids}

abbrev pub has_user : String → List String → Bool
has_user u us = any (λ v. str_eq v u) us

-- The rows of a group that are not seen yet; `seen` is the set of the members so far.
abbrev pub add_unseen : List UserGroup → List String → List String
add_unseen [] members = members
add_unseen (r ∷ rows) members =
    add_unseen rows (if has_user r.username members then members else members ++ r.username ∷ [])

-- `none` is the error of the query, which the source reports as a missing group.
abbrev pub group_or_raise : Option (Option Group) → Action Group
group_or_raise none = raise no_such_group
group_or_raise (some none) = raise no_such_group
group_or_raise (some (some g)) = pure g

abbrev pub returned : Option (List ℕ) → Action (List ℕ)
returned none = raise stack_overflow
returned (some ids) = pure ids

module _ (by_name : OrderBy Group) (by_user : OrderBy UserGroup) where
  abbrev pub rows_of : ℕ → Db → List UserGroup
  rows_of gid db = by_user.sorted (keep (λ r. r.group_id == gid) db.user_groups)

  unfoldable pub get_group_members : String → Action (List String)
  get_group_members name = do
    gid ← get_group_id name
    rows ← query (rows_of gid)
    pure (map (λ r. r.username) rows)

  unfoldable pub collect : List ℕ → List String → Action (List String)
  collect [] members = pure members
  collect (gid ∷ gids) members = do
    rows ← query (rows_of gid)
    collect gids (add_unseen rows members)

  -- The fuel bounds the depth of `GetSubGroupIDs`, whose queries count as one.
  unfoldable pub get_group_members_for_deploy : ℕ → String → Action (List String)
  get_group_members_for_deploy fuel name = do
    touch
    found ← caught (λ db. find_group name db.groups)
    group ← group_or_raise found
    below ← query (λ db. get_sub_group_ids by_name fuel db group.id)
    ids ← returned below
    collect (group.id ∷ ids) []

  -- The direct members, and those that only a group below has; `sort_strings` is `sort.Strings`.
  pub get_group_members_with_sub_groups :
      (List String → List String) → ℕ → String → Action (List String × List String)
  get_group_members_with_sub_groups sort_strings fuel name = do
    direct ← get_group_members name
    everyone ← get_group_members_for_deploy fuel name
    pure (direct, sort_strings (keep (λ u. not (has_user u direct)) everyone))
