-- ===== src/Util/Tree/Merge.antt =====
-- What `MergeMap` of internal/util/util.go makes of each key.
use picoaide.Prelude.{
  String, ◌≡◌, refl, sym, ap, ap₂, ◌∙◌, inl, inr, Bool, true, false, Option, none, some,
  if◌then◌else◌, str_eq, eq_iff, Bool-cases, subst,
}
use picoaide.Util.Tree.{Value, Entries, empty, entry, get, put, merge_map, merged}
use picoaide.Util.Tree.Paths.{get-put}

module _ {A : Type 0} where
  -- The keys of a map are distinct.
  abbrev pub DistinctKeys : Entries A → Type 0
  DistinctKeys empty = Unit
  DistinctKeys (entry k v es) = (get k es ≡ none) × DistinctKeys es

  -- A key that the source lacks keeps its value; one that it has gets the source's value, merged
  -- where both are maps.
  abbrev pub merged_at : Option (Value A) → Option (Value A) → Option (Value A)
  merged_at d none = d
  merged_at d (some sv) = some (merged d sv)

  -- Where the source's keys are distinct, `MergeMap` acts on each key by itself, so the order of
  -- the range does not matter.
  pub merge_map-get :
      (dst src : Entries A) (k : String)
      → DistinctKeys src
      → get k (merge_map dst src) ≡ merged_at (get k dst) (get k src)
  unfolding merge_map
  merge_map-get dst empty k h = refl
  merge_map-get dst (entry j sv rest) k h =
      let now = merged (get j dst) sv in
      let stored : (b : Bool)
          → str_eq j k ≡ b
          → get k (put j now dst) ≡ (if b then some now else get k dst) =
        λ b e. get-put j k now dst ∙ ap (λ b. if b then some now else get k dst) e in
      let source : (b : Bool)
          → str_eq j k ≡ b
          → get k (entry j sv rest) ≡ (if b then some sv else get k rest) =
        λ b e. ap (λ b. if b then some sv else get k rest) e in
      merge_map-get (put j now dst) rest k h.1 ∙ elim (Bool-cases (str_eq j k)) [
        | inl same ↦
            let e : j ≡ k = (eq_iff j k).0 same in
            ap₂ merged_at (stored true same) (subst (λ x. get x rest ≡ none) e h.0)
            ∙ ap (λ x. some (merged (get x dst) sv)) e
            ∙ sym (ap (merged_at (get k dst)) (source true same))
        | inr other ↦
            ap (λ o. merged_at o (get k rest)) (stored false other)
            ∙ sym (ap (merged_at (get k dst)) (source false other))
      ]
