-- ===== src/Store/Groups/Tree/Termination.antt =====
-- When `GetSubGroupIDs` of internal/store/groups.go returns: as long as no group stands below
-- itself. `SetGroupParent` lets one do so.
use picoaide.Prelude.{
  ℕ, zero, suc, ◌<◌, ◌≡◌, refl, sym, ◌∙◌, true, Option, none, some, List, [], ◌∷◌, ◌++◌, arith, any,
}
use picoaide.Store.Db.{Db, Group}
use picoaide.Store.Groups.{has_id}
use picoaide.Store.Groups.Tree.{OrderBy, children, walk_children, walk, get_sub_group_ids}
use picoaide.Store.Groups.Tree.Descendants.{
  IsChild, Below, direct, deeper, any-children, walk_children-none,
}

module _ (by_name : OrderBy Group) where
  walk_children_total :
      (f : ℕ → Option (List ℕ)) (cs : List Group)
      → ((c : ℕ) → any (has_id c) cs ≡ true → (below : List ℕ) × (f c ≡ some below))
      → (ids : List ℕ) × (walk_children by_name f cs ≡ some ids)
  walk_children_total f [] h = ([], refl)
  walk_children_total f (g ∷ cs) h =
      let (below, eb) = h g.id (ground arith) in
      let (rest, er) = walk_children_total f cs (λ c hc. h c (ground arith)) in
      (g.id ∷ below ++ rest, rw (eb, er))

  walk_total :
      (fuel : ℕ) (db : Db) (rank : ℕ → ℕ) (pid : ℕ)
      → ((p c : ℕ) → IsChild db p c → rank c < rank p)
      → rank pid < fuel
      → (ids : List ℕ) × (walk by_name fuel db pid ≡ some ids)
  unfolding walk
  walk_total zero db rank pid falls h = absurd (omega arith)
  walk_total (suc fuel) db rank pid falls h =
      walk_children_total (walk by_name fuel db) (children by_name db pid) λ c hc.
        let less = falls pid c (sym (any-children by_name db pid c) ∙ hc) in
        walk_total fuel db rank c falls (omega arith)

  -- Where some rank falls from every parent to its children (the parents form no circle),
  -- `GetSubGroupIDs` returns, and its calls go no deeper than the rank of the group.
  pub get_sub_group_ids_total :
      (db : Db) (rank : ℕ → ℕ) (gid : ℕ)
      → ((p c : ℕ) → IsChild db p c → rank c < rank p)
      → (ids : List ℕ) × (get_sub_group_ids by_name (suc (rank gid)) db gid ≡ some ids)
  unfolding get_sub_group_ids
  get_sub_group_ids_total db rank gid falls =
      walk_total (suc (rank gid)) db rank gid falls (omega arith)

  Below-trans : {db : Db} {a b c : ℕ} → Below db a b → Below db b c → Below db a c
  Below-trans (direct h) k = deeper h k
  Below-trans (deeper h l) k = deeper h (Below-trans l k)

  -- The first child on a circle stands on a circle too.
  first_step :
      {db : Db} {a b : ℕ} → Below db a b → Below db b a → (c : ℕ) × IsChild db a c × Below db c c
  first_step {b = b} (direct child) back = (b, child, Below-trans back (direct child))
  first_step (deeper {c = c} child l) back =
      (c, child, Below-trans (Below-trans l back) (direct child))

  walk_circle : (fuel : ℕ) (db : Db) {a : ℕ} → Below db a a → walk by_name fuel db a ≡ none
  unfolding walk
  walk_circle zero db b = refl
  walk_circle (suc fuel) db {a} b =
      let (c, child, circle) = first_step b b in
      walk_children-none by_name (walk by_name fuel db) (children by_name db a) c
        (any-children by_name db a c ∙ child) (walk_circle fuel db circle)

  -- Where a group stands below itself, `GetSubGroupIDs` never returns for it, whatever the depth:
  -- the source recurses until its stack is full.
  pub get_sub_group_ids_circle :
      (fuel : ℕ) (db : Db) (gid : ℕ)
      → Below db gid gid
      → get_sub_group_ids by_name fuel db gid ≡ none
  unfolding get_sub_group_ids
  get_sub_group_ids_circle fuel db gid b = walk_circle fuel db b
