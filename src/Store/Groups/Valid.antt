-- ===== src/Store/Groups/Valid.antt =====
-- The well-formedness of the group tables, as the schema of internal/store/store.go declares it:
-- unique names, unique ids, unique memberships, and no dangling reference.
use picoaide.Prelude.{
  ℕ, ◌<◌, String, ◌≡◌, Bool, true, false, not, Option, some, List, [], ◌∷◌, ◌++◌, map, arith, keep,
  any, ◌==◌, eq_iff, All, Unique, Bool-cases, inl, inr, any-append, All-weaken, All-append,
  All-keep, All-keep_picked, any-keep-true, Unique-keep, Unique-append, any-false-All, any-map,
  Unique-map, All-map, subst, ◌∙◌, ◌⊎◌, eq_of_some,
}
use picoaide.Store.Db.{Db, Group, UserGroup}
use picoaide.Store.Groups.{
  has_name, has_id, group_exists, parent_exists, add_group, is_member_row, promote, without_members,
  promote_children, without_group, insert_member,
}

abbrev pub same_id : Group → Group → Bool
same_id g h = has_id g.id h

abbrev pub same_name : Group → Group → Bool
same_name g h = has_name g.name h

abbrev pub same_row : UserGroup → UserGroup → Bool
same_row r q = is_member_row r.username r.group_id q

abbrev pub HasParent : List Group → Group → Type 0
HasParent gs g = (pid : ℕ) → g.parent_id ≡ some pid → any (has_id pid) gs ≡ true

pub record GroupsValid (db : Db) : Type 0 where
  pub ids : Unique same_id db.groups
  pub below : All (λ g. g.id < db.next_group_id) db.groups
  pub names : Unique same_name db.groups
  pub parents : All (HasParent db.groups) db.groups
  pub members : All (λ r. any (has_id r.group_id) db.groups ≡ true) db.user_groups
  pub rows : Unique same_row db.user_groups

abbrev new_group : ℕ → String → Option ℕ → String → String → Group
new_group gid name parent source description = record {
  id = gid;
  name = name;
  parent_id = parent;
  source = source;
  description = description;
}

find_appended :
    (gs : List Group) (g : Group) (pid : ℕ)
    → any (has_id pid) gs ≡ true
    → any (has_id pid) (gs ++ g ∷ []) ≡ true
find_appended gs g pid h = rw (any-append (has_id pid) gs (g ∷ []), h)

pub add_group-GroupsValid :
    (name : String) (parent : Option ℕ) (source description : String) (db : Db)
    → any (has_name name) db.groups ≡ false
    → parent_exists parent db ≡ true
    → GroupsValid db
    → GroupsValid (add_group name parent source description db)
add_group-GroupsValid name parent source description db free linked v =
    let g = new_group db.next_group_id name parent source description in
    record {
      ids =
          Unique-append same_id db.groups g v.ids
            (All-weaken db.groups (λ h lt. ground arith) v.below);
      below =
          All-append _ db.groups g (All-weaken db.groups (λ h lt. omega arith) v.below)
            (omega arith);
      names = Unique-append same_name db.groups g v.names (
          any-false-All (has_name name) db.groups free
            (λ h ne. ground (arith, eq_iff h.name name, eq_iff name h.name)));
      parents =
          All-append _ db.groups g
            (All-weaken db.groups (λ h ok pid e. find_appended db.groups g pid (ok pid e))
              v.parents)
            (λ pid e. find_appended db.groups g pid (ground arith));
      members = All-weaken db.user_groups (λ r. find_appended db.groups g r.group_id) v.members;
      rows = v.rows;
    }

abbrev with_member : String → ℕ → Db → Db
with_member username gid db = record db {
  user_groups = db.user_groups ++ record { username = username; group_id = gid } ∷ [];
}

insert_member_cases :
    (username : String) (gid : ℕ) (db db' : Db)
    → insert_member username gid db ≡ some db'
    → (db ≡ db')
      ⊎ ((any (is_member_row username gid) db.user_groups ≡ false)
          × (group_exists gid db ≡ true)
          × (with_member username gid db ≡ db'))
insert_member_cases username gid db db' e =
    elim (Bool-cases (any (is_member_row username gid) db.user_groups)) [
      | inl old ↦ inl (eq_of_some (rw old at e))
      | inr new ↦ elim (Bool-cases (group_exists gid db)) [
        | inl there ↦ inr (new, there, eq_of_some (rw (new, there) at e))
        | inr gone ↦ absurd (ground arith)
      ]
    ]

with_member-GroupsValid :
    (username : String) (gid : ℕ) (db : Db)
    → any (is_member_row username gid) db.user_groups ≡ false
    → group_exists gid db ≡ true
    → GroupsValid db
    → GroupsValid (with_member username gid db)
with_member-GroupsValid username gid db new there v = record {
  ids = v.ids;
  below = v.below;
  names = v.names;
  parents = v.parents;
  members = All-append _ db.user_groups _ v.members there;
  rows = Unique-append same_row db.user_groups _ v.rows (
      any-false-All (is_member_row username gid) db.user_groups new
        (λ r ne. ground (arith, eq_iff r.username username, eq_iff username r.username)));
}

pub insert_member-GroupsValid :
    (username : String) (gid : ℕ) (db db' : Db)
    → insert_member username gid db ≡ some db'
    → GroupsValid db
    → GroupsValid db'
insert_member-GroupsValid username gid db db' e v =
    elim (insert_member_cases username gid db db' e) [
      | inl same ↦ subst GroupsValid same v
      | inr (new, there, grown) ↦
          subst GroupsValid grown (with_member-GroupsValid username gid db new there v)
    ]

pub without_rows-GroupsValid :
    (p : UserGroup → Bool) (db : Db)
    → GroupsValid db
    → GroupsValid (record db { user_groups = keep p db.user_groups })
without_rows-GroupsValid p db v = record {
  ids = v.ids;
  below = v.below;
  names = v.names;
  parents = v.parents;
  members = All-keep _ p db.user_groups v.members;
  rows = Unique-keep same_row p db.user_groups v.rows;
}

promoted_kept :
    (gid : ℕ) (gs : List Group) (g : Group)
    → HasParent gs g
    → HasParent (keep (λ h. not (has_id gid h)) (map (promote gid) gs)) (promote gid g)
promoted_kept gid gs g ok pid e =
    any-keep-true (has_id pid) (λ h. not (has_id gid h)) (map (promote gid) gs)
      (λ h here. ground arith)
    ∙ any-map (promote gid) (has_id pid) gs (λ h. ground arith)
    ∙ ok pid (ground arith)

-- Removing the members of a group, promoting its children, and then removing it.
pub delete-GroupsValid :
    (gid : ℕ) (db : Db)
    → GroupsValid db
    → GroupsValid (without_group gid (promote_children gid (without_members gid db)))
delete-GroupsValid gid db v = record {
  ids =
      Unique-keep same_id (λ h. not (has_id gid h)) (map (promote gid) db.groups)
        (Unique-map (promote gid) same_id db.groups (λ g h. ground arith) v.ids);
  below =
      All-keep _ (λ h. not (has_id gid h)) (map (promote gid) db.groups)
        (All-map (promote gid) _ _ db.groups (λ g lt. ground arith) v.below);
  names =
      Unique-keep same_name (λ h. not (has_id gid h)) (map (promote gid) db.groups)
        (Unique-map (promote gid) same_name db.groups (λ g h. ground arith) v.names);
  parents =
      All-keep _ (λ h. not (has_id gid h)) (map (promote gid) db.groups)
        (All-map (promote gid) _ _ db.groups (λ g. promoted_kept gid db.groups g) v.parents);
  members =
      All-keep_picked (λ r. not (r.group_id == gid)) db.user_groups
        (λ r other here.
          any-keep-true (has_id r.group_id) (λ h. not (has_id gid h)) (map (promote gid) db.groups)
            (λ h same. ground arith)
          ∙ any-map (promote gid) (has_id r.group_id) db.groups (λ h. ground arith)
          ∙ here)
        v.members;
  rows = Unique-keep same_row (λ r. not (r.group_id == gid)) db.user_groups v.rows;
}
