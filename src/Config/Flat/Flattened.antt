-- ===== src/Config/Flat/Flattened.antt =====
-- Where the entries of `flattenConfig` come from, internal/config/flatten.go.
use picoaide.Prelude.{
  String, true, false, Option, none, some, List, [], ◌∷◌, if◌then◌else◌, str_eq, eq_iff, eq_of_some,
  ◌≡◌, refl, sym, ap, ◌∙◌, inl, inr, arith, Bool-cases, Map, lookup, lookup-insert, ◌+++◌,
  split_dots, dot_free, nonempty-append, split_dots-append,
}
use picoaide.Config.Flat.Ways.{strip, next, strip-append, at_end, at_end-strip}
use picoaide.Util.Tree.{Value, leaf, node, Entries, empty, entry, get, get_parts}
use picoaide.Config.Settings.Saved.{or_else}
use picoaide.Config.Flat.{
  Scalar, Nested, RawJson, is_blob_key, scalar_text, put_text, flatten_recursive, flatten_value,
}

-- The keys of a map are distinct, not empty, and have no dots.
unfoldable mutual
  pub Keyed : {X : Type 0} → Entries X → Type 0
  Keyed empty = Unit
  Keyed (entry k v es) =
      (str_eq k "" ≡ false) × (dot_free k ≡ true) × (get k es ≡ none) × KeyedValue v × Keyed es

  pub KeyedValue : {X : Type 0} → Value X → Type 0
  KeyedValue (leaf a) = Unit
  KeyedValue (node es) = Keyed es

-- At the top, what stands under the two keys that are stored as JSON may be any value.
unfoldable pub KeyedTop : {X : Type 0} → Entries X → Type 0
KeyedTop empty = Unit
KeyedTop (entry k v es) =
    (str_eq k "" ≡ false)
    × (dot_free k ≡ true)
    × (get k es ≡ none)
    × (if is_blob_key k then Unit {0} else KeyedValue v)
    × KeyedTop es

module _ {F A : Type 0} (json : RawJson F A) where
  abbrev pub leaf_text : Option (Value (Scalar F A)) → Option String
  leaf_text none = none
  leaf_text (some (leaf a)) = scalar_text json a
  leaf_text (some (node es)) = none

  abbrev pub found : Value (Scalar F A) → Option (List String) → Option String
  found v none = none
  found v (some parts) = leaf_text (get_parts parts (some v))

  pub put_text-lookup :
      (j k : String) (m : Option String) (result : Map String)
      → lookup k (put_text json j m result)
        ≡ or_else (at_end m (strip (split_dots j) (split_dots k))) (lookup k result)
  put_text-lookup j k none result = rw (at_end-strip none j k) (ground arith)
  put_text-lookup j k (some s) result =
      rw (at_end-strip (some s) j k) (lookup-insert j k s result ∙ ground arith)

  found-leaf :
      (a : Scalar F A) (o : Option (List String)) → at_end (scalar_text json a) o ≡ found (leaf a) o
  found-leaf a none = refl
  found-leaf a (some []) = refl
  found-leaf a (some (q ∷ qs)) = refl

  -- A value that stands under one key alone.
  pub taken :
      (v : Value (Scalar F A)) (o o' : Option (Value (Scalar F A))) (qs : List String)
      (r : Option String)
      → o ≡ none
      → o' ≡ some v
      → or_else (leaf_text (get_parts qs o)) (or_else (found v (some qs)) r)
        ≡ or_else (leaf_text (get_parts qs o')) r
  taken v (some w) o' qs r e e' = absurd (ground (arith, e))
  taken v none none qs r e e' = absurd (ground (arith, e'))
  taken v none (some w) [] r e e' = ap (λ x. or_else (leaf_text (some x)) r) (sym (eq_of_some e'))
  taken v none (some w) (q ∷ qs) r e e' =
      ap (λ x. or_else (leaf_text (get_parts (q ∷ qs) (some x))) r) (sym (eq_of_some e'))

  -- The first entry is found under its key, and the others elsewhere.
  found-entry :
      (k : String) (v : Value (Scalar F A)) (es : Nested F A) (r : Option String)
      (o : Option (List String))
      → get k es ≡ none
      → or_else (found (node es) o) (or_else (found v (next k o)) r)
        ≡ or_else (found (node (entry k v es)) o) r
  found-entry k v es r none new = refl
  found-entry k v es r (some []) new = refl
  found-entry k v es r (some (q ∷ qs)) new = elim (Bool-cases (str_eq k q)) [
    | inl same ↦
        ap
          (λ b.
            or_else (found (node es) (some (q ∷ qs)))
              (or_else (found v (if b then some qs else none)) r))
          same
        ∙ taken v (get q es) (get q (entry k v es)) qs r
            (ap (λ i. get i es) (sym ((eq_iff k q).0 same)) ∙ new)
            (ap (λ b. if b then some v else get q es) same)
    | inr other ↦
        ap
          (λ b.
            or_else (found (node es) (some (q ∷ qs)))
              (or_else (found v (if b then some qs else none)) r))
          other
        ∙ ap (λ b. or_else (leaf_text (get_parts qs (if b then some v else get q es))) r)
            (sym other)
  ]

  mutual
    unfolding flatten_recursive flatten_value Keyed

    flatten_recursive-lookup :
        (es : Nested F A) (prefix k : String) (result : Map String)
        → str_eq prefix "" ≡ false
        → Keyed es
        → lookup k (flatten_recursive json es prefix result)
          ≡ or_else (found (node es) (strip (split_dots prefix) (split_dots k))) (lookup k result)
    flatten_recursive-lookup empty prefix k result inner h =
        nothing (strip (split_dots prefix) (split_dots k))
      where
        nothing :
            (o : Option (List String))
            → lookup k result ≡ or_else (found (node empty) o) (lookup k result)
        nothing none = refl
        nothing (some []) = refl
        nothing (some (q ∷ [])) = refl
        nothing (some (q ∷ q' ∷ qs)) = refl
    flatten_recursive-lookup (entry j v es) prefix k result inner (some_, dotless, new, vs, h) =
        rw inner (
          flatten_recursive-lookup es prefix k
            (flatten_value json v (prefix +++ ("." +++ j)) result) inner h
          ∙ ap (or_else (found (node es) (strip (split_dots prefix) (split_dots k)))) (
              flatten_value-lookup v (prefix +++ ("." +++ j)) k result
                (nonempty-append prefix ("." +++ j) inner) vs
              ∙ ap (λ o. or_else (found v o) (lookup k result))
                  (ap (λ ps. strip ps (split_dots k)) (split_dots-append prefix j dotless)
                    ∙ strip-append j (split_dots prefix) (split_dots k)))
          ∙ found-entry j v es (lookup k result) (strip (split_dots prefix) (split_dots k)) new)

    pub flatten_value-lookup :
        (v : Value (Scalar F A)) (key k : String) (result : Map String)
        → str_eq key "" ≡ false
        → KeyedValue v
        → lookup k (flatten_value json v key result)
          ≡ or_else (found v (strip (split_dots key) (split_dots k))) (lookup k result)
    flatten_value-lookup (leaf a) key k result inner h =
        put_text-lookup key k (scalar_text json a) result
        ∙ ap (λ o. or_else o (lookup k result))
            (found-leaf a (strip (split_dots key) (split_dots k)))
    flatten_value-lookup (node es) key k result inner h =
        flatten_recursive-lookup es key k result inner h
