-- ===== src/Config/Flat/Nested.antt =====
-- How `buildNested` of internal/config/flatten.go goes down a path, next to `SetByPath`.
use picoaide.Prelude.{
  String, Bool, true, false, not, ◌&&◌, Option, none, some, List, [], ◌∷◌, if◌then◌else◌, str_eq,
  ◌≡◌, refl, sym, ap, ◌∙◌, arith, eq_iff, dot_free, are_dot_free,
}
use picoaide.Util.Tree.{Value, leaf, node, empty, entry, get, put, map_or_new, set_parts}
use picoaide.Util.Tree.Paths.{Diverges, here, there, get-put_same, get-put_other}
use picoaide.Config.Flat.{Scalar, Nested, put_below, put_nested}
use picoaide.Config.Flat.Flattened.{Keyed, KeyedValue}

-- The parts of a path are not empty.
abbrev pub is_path : List String → Bool
is_path [] = true
is_path (p ∷ ps) = not (str_eq p "") && is_path ps

module _ {F A : Type 0} where
  abbrev clear_below : (Nested F A → Bool) → Option (Value (Scalar F A)) → Bool
  clear_below f none = true
  clear_below f (some (leaf a)) = false
  clear_below f (some (node es)) = f es

  -- No value that is not a map stands in the way of the path.
  abbrev pub clear : List String → Nested F A → Bool
  clear [] es = true
  clear (p ∷ []) es = true
  clear (p ∷ q ∷ ps) es = clear_below (clear (q ∷ ps)) (get p es)

  pub clear-empty : (ps : List String) (es : Nested F A) → es ≡ empty → clear ps es ≡ true
  clear-empty [] es e = refl
  clear-empty (p ∷ []) es e = refl
  clear-empty (p ∷ q ∷ ps) es e = ap (λ m. clear_below (clear (q ∷ ps)) (get p m)) e

  pub put_nested-set_parts :
      (ps : List String) (v : Value (Scalar F A)) (es : Nested F A)
      → clear ps es ≡ true
      → put_nested ps v es ≡ set_parts ps v es
  put_nested-set_parts [] v es c = refl
  put_nested-set_parts (p ∷ []) v es c = refl
  put_nested-set_parts (p ∷ q ∷ ps) v es c = below (put_nested-set_parts (q ∷ ps) v) (get p es) c
    where
      below :
          ((sub : Nested F A)
            → clear (q ∷ ps) sub ≡ true
            → put_nested (q ∷ ps) v sub ≡ set_parts (q ∷ ps) v sub)
          → (o : Option (Value (Scalar F A))) → clear_below (clear (q ∷ ps)) o ≡ true
          → put_below p es (put_nested (q ∷ ps) v) o
            ≡ put p (node (set_parts (q ∷ ps) v (map_or_new o))) es
      below same none c =
          ap (λ sub. put p (node sub) es) (same empty (clear-empty (q ∷ ps) empty refl))
      below same (some (leaf a)) c = absurd (ground (arith, c))
      below same (some (node sub)) c = ap (λ sub. put p (node sub) es) (same sub c)

  clear-map_or_new :
      (q : String) (qs : List String) (o : Option (Value (Scalar F A)))
      → clear_below (clear (q ∷ qs)) o ≡ true
      → clear (q ∷ qs) (map_or_new o) ≡ true
  clear-map_or_new q qs none c = clear-empty (q ∷ qs) empty refl
  clear-map_or_new q qs (some (leaf a)) c = absurd (ground (arith, c))
  clear-map_or_new q qs (some (node es)) c = c

  clear-put_other :
      (p q : String) (qs : List String) (v : Value (Scalar F A)) (es : Nested F A)
      → str_eq p q ≡ false
      → clear (q ∷ qs) es ≡ true
      → clear (q ∷ qs) (put p v es) ≡ true
  clear-put_other p q [] v es other c = refl
  clear-put_other p q (r ∷ qs) v es other c =
      ap (clear_below (clear (r ∷ qs))) (get-put_other p q v es other) ∙ c

  -- A path stays clear when a value is set at a path that parts from it.
  pub clear-set_parts :
      {ps qs : List String} (d : Diverges ps qs) (v : Value (Scalar F A)) (es : Nested F A)
      → clear qs es ≡ true
      → clear qs (set_parts ps v es) ≡ true
  clear-set_parts (here p q [] qs h) v es c = clear-put_other p q qs v es h c
  clear-set_parts (here p q (r ∷ ps) qs h) v es c = clear-put_other p q qs _ es h c
  clear-set_parts (there p (here r q ps qs h)) v es c =
      ap (clear_below (clear (q ∷ qs))) (get-put_same p _ es)
      ∙ clear-set_parts (here r q ps qs h) v (map_or_new (get p es))
          (clear-map_or_new q qs (get p es) c)
  clear-set_parts (there p (there q {ps} {qs} d)) v es c =
      ap (clear_below (clear (q ∷ qs))) (get-put_same p _ es)
      ∙ clear-set_parts (there q d) v (map_or_new (get p es)) (clear-map_or_new q qs (get p es) c)

  -- Maps whose keys are well formed stay so.
  put-Keyed :
      (k : String) (v : Value (Scalar F A)) (es : Nested F A)
      → str_eq k "" ≡ false
      → dot_free k ≡ true
      → KeyedValue v
      → Keyed es
      → Keyed (put k v es)
  unfolding Keyed
  put-Keyed k v empty nonempty dotless h hs = (nonempty, dotless, refl, h, tt)
  put-Keyed k v (entry j w es) nonempty dotless h (nonempty', dotless', new, h', hs) =
      by_key (put-Keyed k v es nonempty dotless h hs) (str_eq j k) refl
    where
      by_key :
          Keyed (put k v es)
          → (b : Bool) → str_eq j k ≡ b
          → Keyed (if b then entry k v es else entry j w (put k v es))
      by_key rest true e =
          (nonempty, dotless, ap (λ i. get i es) (sym ((eq_iff j k).0 e)) ∙ new, h, hs)
      by_key rest false e = (
        nonempty',
        dotless',
        get-put_other k j v es (ground (arith, e, eq_iff k j, eq_iff j k)) ∙ new,
        h',
        rest,
      )

  pub below-Keyed : (p : String) (es : Nested F A) → Keyed es → Keyed (map_or_new (get p es))
  unfolding Keyed
  below-Keyed p empty h = tt
  below-Keyed p (entry j v es) (_, _, _, h, hs) = by_key (below-Keyed p es hs) v h (str_eq j p)
    where
      by_key :
          Keyed (map_or_new (get p es))
          → (v : Value (Scalar F A)) → KeyedValue v
          → (b : Bool) → Keyed (map_or_new (if b then some v else get p es))
      by_key rest (leaf a) h true = tt
      by_key rest (node sub) h true = h
      by_key rest v h false = rest

  pub set_parts-Keyed :
      (ps : List String) (v : Value (Scalar F A)) (es : Nested F A)
      → is_path ps ≡ true
      → are_dot_free ps ≡ true
      → KeyedValue v
      → Keyed es
      → Keyed (set_parts ps v es)
  unfolding Keyed
  set_parts-Keyed [] v es path dotless h hs = hs
  set_parts-Keyed (p ∷ []) v es path dotless h hs =
      put-Keyed p v es (ground (arith, path)) (ground (arith, dotless)) h hs
  set_parts-Keyed (p ∷ q ∷ ps) v es path dotless h hs =
      put-Keyed p (node (set_parts (q ∷ ps) v (map_or_new (get p es)))) es (ground (arith, path))
        (ground (arith, dotless))
        (set_parts-Keyed (q ∷ ps) v (map_or_new (get p es)) (ground (arith, path))
          (ground (arith, dotless)) h (below-Keyed p es hs))
        hs
