-- ===== src/Store/Groups/Tree/Circle.antt =====
-- `SetGroupParent` and `GetSubGroupIDs` of internal/store/groups.go, one after the other.
use picoaide.Prelude.{
  ℕ, String, ◌≡◌, refl, inl, inr, true, ◌&&◌, none, some, List, [], ◌∷◌, map, arith, if◌then◌else◌,
  any, ◌==◌, Bool-cases,
}
use picoaide.Store.Db.{Db, Group}
use picoaide.Store.Action.{ok, ◌>>=◌, touch, exec, exec_checked, calm}
use picoaide.Store.Groups.{has_name, is_parent, find_group, set_group_parent}
use picoaide.Store.Groups.Synced.{find_group-exists}
use picoaide.Store.Groups.Tree.{OrderBy, get_sub_group_ids}
use picoaide.Store.Groups.Tree.Descendants.{direct}
use picoaide.Store.Groups.Tree.Termination.{get_sub_group_ids_circle}

abbrev moved : String → ℕ → Group → Group
moved name pid g = if has_name name g then record g { parent_id = some pid } else g

-- The row that the name finds is now a child of the new parent.
moved-child :
    (name : String) (pid : ℕ) (gs : List Group) (g : Group)
    → find_group name gs ≡ some g
    → any (λ x. x.id == g.id && is_parent pid x.parent_id) (map (moved name pid) gs) ≡ true
moved-child name pid [] g e = absurd (ground (arith, e))
moved-child name pid (x ∷ gs) g e = elim (Bool-cases (has_name name x)) [
  | inl here ↦ ground (arith, e, here)
  | inr later ↦ ground (arith, e, later, moved-child name pid gs g)
]

-- `SetGroupParent` makes a group its own parent where it is asked to and no statement fails; from
-- then on `GetSubGroupIDs` returns for that group at no depth of its calls.
pub set_group_parent_self :
    (by_name : OrderBy Group) (db : Db) (name : String) (g : Group) (fuel : ℕ)
    → find_group name db.groups ≡ some g
    → ((set_group_parent name (some g.id) (calm db)).0 ≡ ok tt)
      × (get_sub_group_ids by_name fuel (set_group_parent name (some g.id) (calm db)).1.db g.id
          ≡ none)
unfolding set_group_parent ◌>>=◌ touch exec exec_checked
set_group_parent_self by_name db name g fuel e = rw (find_group-exists name db.groups g e) (
  refl,
  get_sub_group_ids_circle by_name fuel (record db { groups = map (moved name g.id) db.groups })
      g.id (direct (moved-child name g.id db.groups g e)),
)
