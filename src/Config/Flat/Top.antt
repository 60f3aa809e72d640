-- ===== src/Config/Flat/Top.antt =====
-- The first step of a key in `flattenConfig`, internal/config/flatten.go.
use picoaide.Prelude.{
  String, Bool, true, false, Option, none, some, List, [], ◌∷◌, if◌then◌else◌, str_eq, eq_iff,
  eq_of_some, ◌≡◌, refl, sym, ap, ◌∙◌, inl, inr, arith, Bool-cases, Map, lookup, split_dots,
  split_dots_cons, dot_free, split_dots_single,
}
use picoaide.Config.Flat.Ways.{strip, next, strip-append, at_end}
use picoaide.Util.Tree.{Value, node, empty, entry, get, get_parts}
use picoaide.Config.Flat.Flattened.{
  KeyedValue, KeyedTop, leaf_text, found, put_text-lookup, taken, flatten_value-lookup,
}
use picoaide.Config.Settings.Saved.{or_else}
use picoaide.Config.Flat.{
  Scalar, Nested, RawJson, is_blob_key, put_text, flatten_recursive, flatten_value,
}

module _ {F A : Type 0} (json : RawJson F A) where
  abbrev pub blob_text : Option (Value (Scalar F A)) → Option String
  blob_text none = none
  blob_text (some v) = json.marshal v

  -- The text that belongs under the key: a value that is stored as JSON, or the leaf at its path.
  abbrev pub at_parts : Nested F A → List String → Option String
  at_parts es [] = none
  at_parts es (q ∷ qs) =
      if is_blob_key q
      then at_end (blob_text (get q es)) (some qs)
      else leaf_text json (get_parts (q ∷ qs) (some (node es)))

  first-entry :
      (k q : String) (qs : List String) (v : Value (Scalar F A)) (es : Nested F A)
      (r : Option String)
      → get k es ≡ none
      → or_else (at_parts es (q ∷ qs)) (
          or_else
            (if is_blob_key k
              then at_end (json.marshal v) (next k (some (q ∷ qs)))
              else found json v (next k (some (q ∷ qs))))
            r)
        ≡ or_else (at_parts (entry k v es) (q ∷ qs)) r
  first-entry k q qs v es r new = elim (Bool-cases (str_eq k q)) [
    | inl same ↦
        let here : k ≡ q = (eq_iff k q).0 same in
        ap
          (λ o.
            or_else (at_parts es (q ∷ qs))
              (or_else (if is_blob_key k then at_end (json.marshal v) o else found json v o) r))
          (ap (λ b. if b then some qs else none) same)
        ∙ ap
            (λ b.
              or_else (at_parts es (q ∷ qs)) (
                or_else (if b then at_end (json.marshal v) (some qs) else found json v (some qs))
                  r))
            (ap is_blob_key here)
        ∙ one (is_blob_key q) (get q es) (get q (entry k v es))
            (ap (λ i. get i es) (sym here) ∙ new) (ap (λ b. if b then some v else get q es) same)
    | inr other ↦
        ap
          (λ b. or_else (at_parts es (q ∷ qs)) (
            or_else
              (let rest = if b then some qs else none in
                if is_blob_key k then at_end (json.marshal v) rest else found json v rest)
              r))
          other
        ∙ elsewhere (is_blob_key k) (at_parts es (q ∷ qs))
        ∙ ap
            (λ b.
              let o = if b then some v else get q es in
              or_else
                (if is_blob_key q
                  then at_end (blob_text o) (some qs)
                  else leaf_text json (get_parts qs o))
                r)
            (sym other)
  ]
    where
      one :
          (b : Bool) (o o' : Option (Value (Scalar F A)))
          → o ≡ none
          → o' ≡ some v
          → or_else
              (if b then at_end (blob_text o) (some qs) else leaf_text json (get_parts qs o))
              (or_else (if b then at_end (json.marshal v) (some qs) else found json v (some qs)) r)
            ≡ or_else
                (if b then at_end (blob_text o') (some qs) else leaf_text json (get_parts qs o'))
                r
      one b (some w) o' e e' = absurd (ground (arith, e))
      one b none none e e' = absurd (ground (arith, e'))
      one true none (some w) e e' =
          ap (λ x. or_else (at_end none (some qs)) (or_else (at_end (json.marshal x) (some qs)) r))
            (sym (eq_of_some e'))
          ∙ blob w qs
        where
          blob :
              (w : Value (Scalar F A)) (qs : List String)
              → or_else (at_end none (some qs)) (or_else (at_end (json.marshal w) (some qs)) r)
                ≡ or_else (at_end (json.marshal w) (some qs)) r
          blob w [] = refl
          blob w (q ∷ qs) = refl
      one false none (some w) e e' = taken json v none (some w) qs r e e'

      elsewhere :
          (b : Bool) (o : Option String)
          → or_else o (or_else (if b then none else none) r) ≡ or_else o r
      elsewhere true o = refl
      elsewhere false o = refl

  first-step :
      (j k : String) (v : Value (Scalar F A)) (result : Map String)
      → str_eq j "" ≡ false
      → dot_free j ≡ true
      → (if is_blob_key j then Unit {0} else KeyedValue v)
      → lookup k (
          if is_blob_key j
          then put_text json j (json.marshal v) result
          else flatten_value json v j result)
        ≡ or_else
            (if is_blob_key j
              then at_end (json.marshal v) (next j (some (split_dots k)))
              else found json v (next j (some (split_dots k))))
            (lookup k result)
  first-step j k v result nonempty dotless = by_key (is_blob_key j)
    where
      way : strip (split_dots j) (split_dots k) ≡ next j (some (split_dots k))
      way =
          ap (λ ps. strip ps (split_dots k)) (split_dots_single j dotless)
          ∙ strip-append j [] (split_dots k)

      by_key :
          (b : Bool)
          → (if b then Unit {0} else KeyedValue v)
          → lookup k
              (if b then put_text json j (json.marshal v) result else flatten_value json v j result)
            ≡ or_else
                (if b
                  then at_end (json.marshal v) (next j (some (split_dots k)))
                  else found json v (next j (some (split_dots k))))
                (lookup k result)
      by_key true h =
          put_text-lookup json j k (json.marshal v) result
          ∙ ap (λ o. or_else (at_end (json.marshal v) o) (lookup k result)) way
      by_key false h =
          flatten_value-lookup json v j k result nonempty h
          ∙ ap (λ o. or_else (found json v o) (lookup k result)) way

  pub flatten_top-lookup :
      (es : Nested F A) (k : String) (result : Map String)
      → KeyedTop es
      → lookup k (flatten_recursive json es "" result)
        ≡ or_else (at_parts es (split_dots k)) (lookup k result)
  unfolding flatten_recursive KeyedTop
  flatten_top-lookup empty k result h = nothing (split_dots k)
    where
      nothing : (ps : List String) → lookup k result ≡ or_else (at_parts empty ps) (lookup k result)
      nothing [] = refl
      nothing (q ∷ qs) = by_key (is_blob_key q) qs
        where
          by_key :
              (b : Bool) (qs : List String)
              → lookup k result
                ≡ or_else
                    (if b then at_end none (some qs) else leaf_text json (get_parts qs none))
                    (lookup k result)
          by_key true [] = refl
          by_key true (q ∷ qs) = refl
          by_key false [] = refl
          by_key false (q ∷ qs) = refl
  flatten_top-lookup (entry j v es) k result (nonempty, dotless, new, vs, h) =
      let (q, qs, parts) = split_dots_cons k in
      flatten_top-lookup es k _ h
      ∙ ap (or_else (at_parts es (split_dots k))) (first-step j k v result nonempty dotless vs)
      ∙ ap
          (λ ps. or_else (at_parts es ps) (
            or_else
              (if is_blob_key j
                then at_end (json.marshal v) (next j (some ps))
                else found json v (next j (some ps)))
              (lookup k result)))
          parts
      ∙ first-entry j q qs v es (lookup k result) new
      ∙ ap (λ ps. or_else (at_parts (entry j v es) ps) (lookup k result)) (sym parts)
