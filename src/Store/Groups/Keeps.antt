-- ===== src/Store/Groups/Keeps.antt =====
-- The operations of internal/store/groups.go keep the group tables well formed.
use picoaide.Prelude.{
  ℕ, String, ◌≡◌, refl, true, Option, none, some, List, [], ◌∷◌, arith, if◌then◌else◌, any, map,
  Bool-cases, inl, inr, eq_of_some, subst, Unique-map, All-map, any-map, All-weaken, ◌∙◌, ◌+◌,
  Option-cases,
}
use picoaide.Store.Db.{Db, Group}
use picoaide.Store.Action.{Store, Action, ◌>>=◌, touch, exec, query, raise, pure}
use picoaide.Store.Action.Outcomes.{
  Ends, EndsAtomic, ends-bind, ends-exec, ends-pure, ends-require, ends-exec_checked, exec_then,
  checked_then, counting_then, caught_then, ends-weaken, transaction-EndsAtomic, touch-EndsAtomic,
  checked-EndsAtomic, exec-EndsAtomic,
}
use picoaide.Store.Groups.{
  has_name, has_id, parent_exists, insert_group, create_group, get_group_id, find_group,
  delete_group, insert_members, add_users_to_group, remove_user_from_group, ensure_group,
  ensure_groups, join_found, join_groups, sync_user_groups, set_parent, set_group_parent,
  clear_all_groups,
}
use picoaide.Store.Groups.Valid.{
  GroupsValid, HasParent, same_id, same_name, add_group-GroupsValid, insert_member-GroupsValid,
  without_rows-GroupsValid, delete-GroupsValid,
}

-- An operation keeps the tables well formed, whatever fails on the way, and changes nothing if it
-- fails.
abbrev pub KeepsGroups : {A : Type 0} → Action A → Type 0
KeepsGroups m = (s : Store) → GroupsValid s.db → EndsAtomic m s (λ _ db. GroupsValid db)

insert_group-GroupsValid :
    (name source description : String) (parent : Option ℕ) (db db' : Db)
    → insert_group name source description parent db ≡ some db'
    → GroupsValid db
    → GroupsValid db'
insert_group-GroupsValid name source description parent db db' e v =
    elim (Bool-cases (any (has_name name) db.groups)) [
      | inl taken ↦ absurd (ground arith)
      | inr free ↦ elim (Bool-cases (parent_exists parent db)) [
        | inl linked ↦
            subst GroupsValid (eq_of_some (rw (free, linked) at e))
              (add_group-GroupsValid name parent source description db free linked v)
        | inr dangling ↦ absurd (ground arith)
      ]
    ]

with_parent-GroupsValid :
    (name : String) (parent : Option ℕ) (db : Db)
    → parent_exists parent db ≡ true
    → GroupsValid db
    → GroupsValid (record db {
      groups = map (λ g. if has_name name g then record g { parent_id = parent } else g) db.groups;
    })
with_parent-GroupsValid name parent db linked v =
    let f = λ (g : Group). if has_name name g then record g { parent_id = parent } else g in
    let same_test = λ (pid : ℕ). any-map f (has_id pid) db.groups (λ g. ground arith) in
    record {
      ids = Unique-map f same_id db.groups (λ g h. ground arith) v.ids;
      below = All-map f _ _ db.groups (λ g lt. ground arith) v.below;
      names = Unique-map f same_name db.groups (λ g h. ground arith) v.names;
      parents =
          All-map f (HasParent db.groups) _ db.groups
            (λ g ok pid e. same_test pid ∙ ground (arith, ok pid)) v.parents;
      members = All-weaken db.user_groups (λ r here. same_test r.group_id ∙ here) v.members;
      rows = v.rows;
    }

set_parent-GroupsValid :
    (name : String) (parent : Option ℕ) (db db' : Db)
    → set_parent name parent db ≡ some db'
    → GroupsValid db
    → GroupsValid db'
set_parent-GroupsValid name parent db db' e v = elim (Bool-cases (parent_exists parent db)) [
  | inl linked ↦
      subst GroupsValid (eq_of_some (rw linked at e))
        (with_parent-GroupsValid name parent db linked v)
  | inr dangling ↦ elim (Bool-cases (any (has_name name) db.groups)) [
    | inl there ↦ absurd (ground arith)
    | inr gone ↦ subst GroupsValid (eq_of_some (rw (dangling, gone) at e)) v
  ]
]

pub create_group-Keeps :
    (name source description : String) (parent : Option ℕ)
    → KeepsGroups (create_group name source description parent)
unfolding create_group
create_group-Keeps name source description parent s v = touch-EndsAtomic _ λ _.
    checked-EndsAtomic _ λ db e. insert_group-GroupsValid name source description parent s.db db e v

pub set_group_parent-Keeps :
    (name : String) (parent : Option ℕ) → KeepsGroups (set_group_parent name parent)
unfolding set_group_parent
set_group_parent-Keeps name parent s v =
    touch-EndsAtomic _
      λ _. checked-EndsAtomic _ λ db e. set_parent-GroupsValid name parent s.db db e v

-- Looking a group up changes nothing.
get_group_id-EndsAtomic :
    {A : Type 0} {P : A → Db → Type 0} {s : Store} (name : String) (k : ℕ → Action A)
    → ((gid n : ℕ) → EndsAtomic (k gid) (record s { issued = n }) P)
    → EndsAtomic (get_group_id name >>= k) s P
unfolding get_group_id ◌>>=◌ touch exec query raise pure
get_group_id-EndsAtomic {s = s} name k h = elim (Bool-cases (s.faults s.issued)) [
  | inl e ↦ record { run = rw e refl }
  | inr e ↦ elim (Bool-cases (s.faults (s.issued + 1))) [
    | inl e' ↦ record { run = rw (e, e') refl }
    | inr e' ↦ elim (Option-cases (find_group name s.db.groups)) [
      | inl missing ↦ record { run = rw (e, e', missing) refl }
      | inr (g, found) ↦ record { run = rw (e, e', found) (h g.id _).run }
    ]
  ]
]

pub delete_group-Keeps : (name : String) → KeepsGroups (delete_group name)
unfolding delete_group
delete_group-Keeps name s v = touch-EndsAtomic _ λ _. get_group_id-EndsAtomic name _ λ gid _.
    transaction-EndsAtomic λ _. exec_then _ λ _.
      exec_then _ λ _. counting_then _ _ _ λ _. ends-require _ _ λ _. delete-GroupsValid gid s.db v

pub insert_members-Ends :
    (gid : ℕ) (us : List String) (s : Store)
    → GroupsValid s.db
    → Ends (insert_members gid us) s (λ _ t. GroupsValid t.db)
unfolding insert_members
insert_members-Ends gid [] s v = ends-pure tt v
insert_members-Ends gid (u ∷ us) s v =
    checked_then _
      λ db _ e. insert_members-Ends gid us _ (insert_member-GroupsValid u gid s.db db e v)

pub add_users_to_group-Keeps :
    (name : String) (us : List String) → KeepsGroups (add_users_to_group name us)
unfolding add_users_to_group
add_users_to_group-Keeps name us s v =
    get_group_id-EndsAtomic name _
      λ gid _. touch-EndsAtomic _ λ _. transaction-EndsAtomic λ _. insert_members-Ends gid us _ v

pub remove_user_from_group-Keeps : (name u : String) → KeepsGroups (remove_user_from_group name u)
unfolding remove_user_from_group
remove_user_from_group-Keeps name u s v =
    get_group_id-EndsAtomic name _
      λ gid _. touch-EndsAtomic _ λ _. exec-EndsAtomic _ (without_rows-GroupsValid _ s.db v)

ensure_group-GroupsValid :
    (name source : String) (db : Db) → GroupsValid db → GroupsValid (ensure_group name source db)
ensure_group-GroupsValid name source db v = elim (Bool-cases (any (has_name name) db.groups)) [
  | inl taken ↦ rw taken v
  | inr free ↦ rw free (add_group-GroupsValid name none source "" db free refl v)
]

pub ensure_groups-Ends :
    (names : List String) (source : String) (s : Store)
    → GroupsValid s.db
    → Ends (ensure_groups names source) s (λ _ t. GroupsValid t.db)
unfolding ensure_groups
ensure_groups-Ends [] source s v = ends-pure tt v
ensure_groups-Ends (name ∷ names) source s v =
    exec_then _ λ _. ensure_groups-Ends names source _ (ensure_group-GroupsValid name source s.db v)

join_found-Ends :
    (u : String) (o : Option (Option Group)) (s : Store)
    → GroupsValid s.db
    → Ends (join_found u o) s (λ _ t. GroupsValid t.db)
join_found-Ends u none s v = ends-pure tt v
join_found-Ends u (some none) s v = ends-pure tt v
join_found-Ends u (some (some g)) s v =
    ends-exec_checked _ λ db _ e. insert_member-GroupsValid u g.id s.db db e v

join_groups-Ends :
    (u : String) (names : List String) (s : Store)
    → GroupsValid s.db
    → Ends (join_groups u names) s (λ _ t. GroupsValid t.db)
unfolding join_groups
join_groups-Ends u [] s v = ends-pure tt v
join_groups-Ends u (name ∷ names) s v =
    let after = λ (o : Option (Option Group)) (t : Store) (w : GroupsValid t.db).
      ends-bind {k = λ _. join_groups u names} {m = join_found u o} {s = t}
        (ends-weaken (λ _ t' w'. join_groups-Ends u names t' w') (join_found-Ends u o t w)) in
    caught_then _ _ (λ _. after none _ v) (λ _. after (some (find_group name s.db.groups)) _ v)

pub sync_user_groups-Keeps :
    (u : String) (names : List String) (source : String)
    → KeepsGroups (sync_user_groups u names source)
unfolding sync_user_groups
sync_user_groups-Keeps u names source s v = touch-EndsAtomic _ λ _. transaction-EndsAtomic λ _.
    ends-bind (
      ends-weaken
        (λ _ t w. exec_then _ λ _. join_groups-Ends u names _ (without_rows-GroupsValid _ t.db w))
        (ensure_groups-Ends names source _ v))

pub clear_all_groups-Keeps : KeepsGroups clear_all_groups
unfolding clear_all_groups
clear_all_groups-Keeps s v = touch-EndsAtomic _ λ _. transaction-EndsAtomic λ _. exec_then _ λ _.
    ends-exec _
      λ _. record { ids = tt; below = tt; names = tt; parents = tt; members = tt; rows = tt }
