-- ===== src/Store/Groups/Tree/Descendants.antt =====
-- What `GetSubGroupIDs` of internal/store/groups.go returns, and when it returns.
use picoaide.Prelude.{
  ℕ, zero, suc, ◌≡◌, refl, sym, ◌∙◌, ◌↔◌, ◌⊎◌, inl, inr, Bool, true, ◌&&◌, Option, none, some, List,
  [], ◌∷◌, ◌++◌, arith, keep, any, ◌==◌, Option-cases, any-append, Bool-cases,
}
use picoaide.Store.Db.{Db, Group}
use picoaide.Store.Groups.{has_id, is_parent}
use picoaide.Store.Groups.Tree.{OrderBy, children, walk_children, walk, get_sub_group_ids}

-- A row with the id `cid` and the parent `pid`.
abbrev pub IsChild : Db → ℕ → ℕ → Type 0
IsChild db pid cid = any (λ g. g.id == cid && is_parent pid g.parent_id) db.groups ≡ true

-- `d` stands below `pid` in the tree.
pub data Below (db : Db) : ℕ → ℕ → Type 0 where
  direct : {pid c : ℕ} → IsChild db pid c → Below db pid c
  deeper : {pid c d : ℕ} → IsChild db pid c → Below db c d → Below db pid d

-- The number is in the list.
abbrev pub listed : ℕ → List ℕ → Bool
listed d ids = any (λ i. i == d) ids

module _ (by_name : OrderBy Group) where
  pub any-children :
      (db : Db) (pid cid : ℕ)
      → any (has_id cid) (children by_name db pid)
        ≡ any (λ g. g.id == cid && is_parent pid g.parent_id) db.groups
  any-children db pid cid =
      by_name.any-sorted (has_id cid) (keep (λ g. is_parent pid g.parent_id) db.groups)
      ∙ any-keep-and db.groups
    where
      any-keep-and :
          (gs : List Group)
          → any (has_id cid) (keep (λ g. is_parent pid g.parent_id) gs)
            ≡ any (λ g. g.id == cid && is_parent pid g.parent_id) gs
      any-keep-and [] = refl
      any-keep-and (g ∷ gs) = ground (arith, any-keep-and gs)

  -- Where one child's walk does not end, the loop does not.
  pub walk_children-none :
      (f : ℕ → Option (List ℕ)) (cs : List Group) (c : ℕ)
      → any (has_id c) cs ≡ true
      → f c ≡ none
      → walk_children by_name f cs ≡ none
  walk_children-none f [] c h e = ground arith
  walk_children-none f (g ∷ cs) c h e = ground (arith, walk_children-none f cs c)

  walk_children_inv :
      (f : ℕ → Option (List ℕ)) (g : Group) (cs : List Group) (ids : List ℕ)
      → walk_children by_name f (g ∷ cs) ≡ some ids
      → (below : List ℕ) × (rest : List ℕ) × (f g.id ≡ some below)
        × (walk_children by_name f cs ≡ some rest)
        × (ids ≡ g.id ∷ below ++ rest)
  walk_children_inv f g cs ids e = elim (Option-cases (f g.id)) [
    | inl no_below ↦ absurd (ground arith)
    | inr (below, eb) ↦ elim (Option-cases (walk_children by_name f cs)) [
      | inl no_rest ↦ absurd (ground arith)
      | inr (rest, er) ↦ (below, rest, eb, er, ground arith)
    ]
  ]

  -- The walk of one child.
  abbrev Hit : (ℕ → Option (List ℕ)) → List Group → ℕ → Type 0
  Hit f cs d =
      (c : ℕ) × (below : List ℕ) × (any (has_id c) cs ≡ true)
      × (f c ≡ some below)
      × (listed d below ≡ true)

  -- A number in the result of the loop is a child, or in the result of a child's walk.
  walk_children_sound :
      (f : ℕ → Option (List ℕ)) (cs : List Group) (ids : List ℕ) (d : ℕ)
      → walk_children by_name f cs ≡ some ids
      → listed d ids ≡ true
      → (any (has_id d) cs ≡ true) ⊎ Hit f cs d
  walk_children_sound f [] ids d e h = absurd (ground arith)
  walk_children_sound f (g ∷ cs) ids d e h =
      let (below, rest, eb, er, eids) = walk_children_inv f g cs ids e in
      elim (Bool-cases (g.id == d)) [
        | inl here ↦ inl (ground arith)
        | inr not_here ↦ elim (Bool-cases (listed d below)) [
          | inl found ↦ inr (g.id, below, ground arith, eb, found)
          | inr not_below ↦
              elim (walk_children_sound f cs rest d er
                (ground (arith, any-append (λ i. i == d) below rest))) [
                  | inl later ↦ inl (ground arith)
                  | inr (c, b, hc, hf, hb) ↦ inr (c, b, ground arith, hf, hb)
                ]
        ]
      ]

  -- Every child is in the result of the loop, and so is all that the child's walk gives.
  walk_children_complete :
      (f : ℕ → Option (List ℕ)) (cs : List Group) (ids : List ℕ) (c : ℕ)
      → walk_children by_name f cs ≡ some ids
      → any (has_id c) cs ≡ true
      → (listed c ids ≡ true)
        × (below : List ℕ) × (f c ≡ some below)
        × ((d : ℕ) → listed d below ≡ true → listed d ids ≡ true)
  walk_children_complete f [] ids c e h = absurd (ground arith)
  walk_children_complete f (g ∷ cs) ids c e h =
      let (below, rest, eb, er, eids) = walk_children_inv f g cs ids e in
      elim (Bool-cases (g.id == c)) [
        | inl here ↦ (
          ground arith,
          below,
          ground arith,
          λ d hd. ground (arith, any-append (λ i. i == d) below rest),
        )
        | inr later ↦
            let (hc, b, eb', hb) = walk_children_complete f cs rest c er (ground arith) in
            (
              ground (arith, any-append (λ i. i == c) below rest),
              b,
              eb',
              λ d hd. ground (arith, any-append (λ i. i == d) below rest, hb d),
            )
      ]

  walk_sound :
      (fuel : ℕ) (db : Db) (pid : ℕ) (ids : List ℕ) (d : ℕ)
      → walk by_name fuel db pid ≡ some ids
      → listed d ids ≡ true
      → Below db pid d
  unfolding walk
  walk_sound zero db pid ids d e h = absurd (ground arith)
  walk_sound (suc fuel) db pid ids d e h =
      elim (walk_children_sound (walk by_name fuel db) (children by_name db pid) ids d e h) [
        | inl child ↦ direct (sym (any-children db pid d) ∙ child)
        | inr (c, below, child, eb, hd) ↦
            deeper (sym (any-children db pid c) ∙ child) (walk_sound fuel db c below d eb hd)
      ]

  walk_complete :
      (fuel : ℕ) (db : Db) {pid d : ℕ} (ids : List ℕ)
      → walk by_name fuel db pid ≡ some ids
      → Below db pid d
      → listed d ids ≡ true
  unfolding walk
  walk_complete zero db ids e b = absurd (ground arith)
  walk_complete (suc fuel) db {pid} {d} ids e (direct child) =
      (walk_children_complete (walk by_name fuel db) (children by_name db pid) ids d e
        (any-children db pid d ∙ child)).0
  walk_complete (suc fuel) db {pid} {d} ids e (deeper {c = c} child b) =
      let (_, below, eb, up) =
        walk_children_complete (walk by_name fuel db) (children by_name db pid) ids c e
          (any-children db pid c ∙ child) in
      up d (walk_complete fuel db below eb b)

  -- When `GetSubGroupIDs` returns, its result is exactly the groups below the group.
  pub get_sub_group_ids_iff :
      (fuel : ℕ) (db : Db) (gid : ℕ) (ids : List ℕ)
      → get_sub_group_ids by_name fuel db gid ≡ some ids
      → (d : ℕ) → (listed d ids ≡ true) ↔ Below db gid d
  unfolding get_sub_group_ids
  get_sub_group_ids_iff fuel db gid ids e d =
      (walk_sound fuel db gid ids d e, walk_complete fuel db ids e)
