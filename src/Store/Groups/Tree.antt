-- ===== src/Store/Groups/Tree.antt =====
-- `GetSubGroupIDs` and `GetGroupMembersForDeploy` of internal/store/groups.go: the groups below a
-- group. Nothing in `SetGroupParent` keeps the parents from going round in a circle.
pub mod Descendants
pub mod Termination
pub mod Circle
use picoaide.Prelude.{
  ℕ, zero, suc, ◌+◌, ◌<◌, ◌≤◌, String, ◌≡◌, refl, ◌⊎◌, inl, inr, Bool, true, false, Option, none,
  some, List, [], ◌∷◌, ◌++◌, arith, if◌then◌else◌, keep, any, ◌==◌, str_eq, Option-cases,
}
use picoaide.Store.Db.{Db, Group, UserGroup}
use picoaide.Store.Groups.{has_name, has_id, find_group, is_parent}

infixl 10 ◌>>=◌
abbrev ◌>>=◌ : {A B : Type 0} → Option A → (A → Option B) → Option B
none >>= f = none
some a >>= f = f a

-- ORDER BY: the database gives the rows that fit in an order of its own.
pub record OrderBy (R : Type 0) : Type 0 where
  pub sorted : List R → List R
  pub any-sorted : (p : R → Bool) (rows : List R) → any p (sorted rows) ≡ any p rows

module _ (by_name : OrderBy Group) where
  -- `engine.Where("parent_id = ?", pid).OrderBy("name").Find(&children)`
  abbrev pub children : Db → ℕ → List Group
  children db pid = by_name.sorted (keep (λ g. is_parent pid g.parent_id) db.groups)

  -- The loop over the children; `walk` is the recursive call.
  abbrev pub walk_children : (ℕ → Option (List ℕ)) → List Group → Option (List ℕ)
  walk_children walk [] = some []
  walk_children walk (c ∷ cs) = do
    below ← walk c.id
    rest ← walk_children walk cs
    some (c.id ∷ below ++ rest)

  -- The depth of the calls is bounded by the fuel; `none` means that it ran out.
  unfoldable pub walk : ℕ → Db → ℕ → Option (List ℕ)
  walk zero db pid = none
  walk (suc fuel) db pid = walk_children (walk fuel db) (children db pid)

  unfoldable pub get_sub_group_ids : ℕ → Db → ℕ → Option (List ℕ)
  get_sub_group_ids fuel db gid = walk fuel db gid
