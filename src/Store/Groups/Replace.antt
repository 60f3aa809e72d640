-- ===== src/Store/Groups/Replace.antt =====
-- `ReplaceGroupMembersBySource` of internal/store/groups.go: the members of a directory's groups.
use picoaide.Prelude.{
  String, Bool, not, ◌&&◌, Option, none, some, List, [], ◌∷◌, map, any, keep, ◌==◌, str_eq,
}
use picoaide.Store.Db.{Db, Group, UserGroup}
use picoaide.Store.Action.{Store, Action, ◌>>=◌, ◌>>◌, pure, query, exec, touch, transaction}
use picoaide.Store.Action.Outcomes.{
  Ends, ends-bind, ends-pure, ends-weaken, exec_then, query_then, transaction-EndsAtomic,
  touch-EndsAtomic,
}
use picoaide.Store.Groups.{find_group, ensure_groups, insert_members}
use picoaide.Store.Groups.Valid.{GroupsValid, without_rows-GroupsValid}
use picoaide.Store.Groups.Keeps.{KeepsGroups, ensure_groups-Ends, insert_members-Ends}

-- SELECT id FROM groups WHERE source = ?
abbrev has_source : String → Db → UserGroup → Bool
has_source source db r = any (λ g. g.id == r.group_id && str_eq g.source source) db.groups

abbrev pub without_source : String → Db → Db
without_source source db = record db {
  user_groups = keep (λ r. not (has_source source db r)) db.user_groups;
}

abbrev pub insert_found : Option Group → List String → Action (Unit {0})
insert_found none members = pure tt
insert_found (some g) members = insert_members g.id members

pub insert_all : List (String × List String) → Action (Unit {0})
insert_all [] = pure tt
insert_all ((name, members) ∷ rest) = do
  found ← query (λ db. find_group name db.groups)
  insert_found found members
  insert_all rest

-- The map of the members comes twice, in the order that each range over it gives.
pub replace_group_members_by_source :
    String → List (String × List String) → List (String × List String) → Action (Unit {0})
replace_group_members_by_source source first second = do
  touch
  transaction (do
    ensure_groups (map (λ e. e.0) first) source
    exec (without_source source)
    insert_all second)

insert_found-Ends :
    (o : Option Group) (us : List String) (s : Store)
    → GroupsValid s.db
    → Ends (insert_found o us) s (λ _ t. GroupsValid t.db)
insert_found-Ends none us s v = ends-pure tt v
insert_found-Ends (some g) us s v = insert_members-Ends g.id us s v

insert_all-Ends :
    (entries : List (String × List String)) (s : Store)
    → GroupsValid s.db
    → Ends (insert_all entries) s (λ _ t. GroupsValid t.db)
unfolding insert_all
insert_all-Ends [] s v = ends-pure tt v
insert_all-Ends ((name, us) ∷ rest) s v = query_then _ _ λ _. ends-bind (
    ends-weaken (λ _ t w. insert_all-Ends rest t w)
      (insert_found-Ends (find_group name s.db.groups) us _ v))

pub replace_group_members_by_source-Keeps :
    (source : String) (first second : List (String × List String))
    → KeepsGroups (replace_group_members_by_source source first second)
unfolding replace_group_members_by_source
replace_group_members_by_source-Keeps source first second s v = touch-EndsAtomic _ λ _.
    transaction-EndsAtomic λ _. ends-bind (
      ends-weaken
        (λ _ t w. exec_then _ λ _. insert_all-Ends second _ (without_rows-GroupsValid _ t.db w))
        (ensure_groups-Ends (map (λ e. e.0) first) source _ v))
