-- ===== src/Config/Flat/Texts.antt =====
-- The texts of `flattenConfig` are those at the paths of the nested maps, internal/config/flatten.go.
use picoaide.Prelude.{
  String, Bool, true, false, Option, none, some, List, [], ◌∷◌, if◌then◌else◌, str_eq, eq_iff, ◌≡◌,
  refl, sym, ap, ◌∙◌, inl, inr, arith, Bool-cases, lookup, split_dots, split_dots_cons, join_dots,
  join-split_dots,
}
use picoaide.Config.Flat.Ways.{at_end}
use picoaide.Util.Tree.{node, empty, entry, get, get_parts, deep_get}
use picoaide.Config.Flat.Flattened.{KeyedTop, leaf_text}
use picoaide.Config.Settings.Saved.{or_else}
use picoaide.Config.Flat.{Nested, RawJson, is_blob_key, flatten_config}
use picoaide.Config.Flat.Top.{blob_text, at_parts, flatten_top-lookup}

abbrev pub starts_blob : List String → Bool
starts_blob [] = false
starts_blob (q ∷ qs) = is_blob_key q

module _ {F A : Type 0} (json : RawJson F A) where
  -- The text of the leaf at the path that the key spells; under the two keys that are stored as JSON, what
  -- stands there as JSON.
  abbrev pub text_at : Nested F A → String → Option String
  text_at data_ key =
      if is_blob_key key
      then blob_text json (get key data_)
      else if starts_blob (split_dots key)
      then none
      else leaf_text json (deep_get data_ key)

  no_empty_key : (es : Nested F A) → KeyedTop es → get "" es ≡ none
  unfolding KeyedTop
  no_empty_key empty h = refl
  no_empty_key (entry j v es) (nonempty, dotless, new, vs, h) =
      ap (λ b. if b then some v else get "" es) nonempty ∙ no_empty_key es h

  at_parts-deep_get :
      (es : Nested F A) (key q : String) (qs : List String)
      → KeyedTop es
      → split_dots key ≡ q ∷ qs
      → get_parts (q ∷ qs) (some (node es)) ≡ deep_get es key
  unfolding deep_get
  at_parts-deep_get es key q qs h parts = elim (Bool-cases (str_eq key "")) [
    | inl nil_ ↦
        let way : q ∷ qs ≡ "" ∷ [] = sym parts ∙ ap split_dots ((eq_iff key "").0 nil_) in
        ap (λ ps. get_parts ps (some (node es))) way
        ∙ ap (get_parts []) (no_empty_key es h)
        ∙ ap (λ b. if b then none else get_parts (split_dots key) (some (node es))) (sym nil_)
    | inr other ↦
        ap (λ ps. get_parts ps (some (node es))) (sym parts)
        ∙ ap (λ b. if b then none else get_parts (split_dots key) (some (node es))) (sym other)
  ]

  at_parts-text_at :
      (es : Nested F A) (key : String)
      → KeyedTop es
      → at_parts json es (split_dots key) ≡ text_at es key
  at_parts-text_at es key h =
      let (q, qs, parts) = split_dots_cons key in by_key q qs parts (is_blob_key key) refl
    where
      by_name :
          is_blob_key key ≡ true → at_parts json es (split_dots key) ≡ blob_text json (get key es)
      by_name e = elim (Bool-cases (str_eq key "security")) [
        | inl first ↦
            let same = (eq_iff key "security").0 first in
            ap (λ k. at_parts json es (split_dots k)) same
            ∙ ap (λ k. blob_text json (get k es)) (sym same)
        | inr other ↦
            let same = (eq_iff key "skills").0 (ground (arith, e, other)) in
            ap (λ k. at_parts json es (split_dots k)) same
            ∙ ap (λ k. blob_text json (get k es)) (sym same)
      ]

      by_first :
          (q : String) (qs : List String)
          → split_dots key ≡ q ∷ qs
          → is_blob_key key ≡ false
          → (b : Bool) → is_blob_key q ≡ b
          → (if b
              then at_end (blob_text json (get q es)) (some qs)
              else leaf_text json (get_parts (q ∷ qs) (some (node es))))
            ≡ (if b then none else leaf_text json (deep_get es key))
      by_first q [] parts plain true e =
          let same : key ≡ q = sym (join-split_dots key) ∙ ap join_dots parts in
          let blob : is_blob_key key ≡ true = ap is_blob_key same ∙ e in
          absurd (ground (arith, plain, blob))
      by_first q (p ∷ qs) parts plain true e = refl
      by_first q qs parts plain false e =
          ap (leaf_text json) (at_parts-deep_get es key q qs h parts)

      by_key :
          (q : String) (qs : List String)
          → split_dots key ≡ q ∷ qs
          → (b : Bool) → is_blob_key key ≡ b
          → at_parts json es (split_dots key) ≡ (
              if b
              then blob_text json (get key es)
              else if starts_blob (split_dots key)
              then none
              else leaf_text json (deep_get es key))
      by_key q qs parts true e = by_name e
      by_key q qs parts false e =
          ap (at_parts json es) parts
          ∙ by_first q qs parts e (is_blob_key q) refl
          ∙ ap (λ ps. if starts_blob ps then none else leaf_text json (deep_get es key)) (sym parts)

  -- flattenConfig writes under a key the text of the leaf that DeepGet finds at it, and under the two keys
  -- that are stored as JSON, what stands there as JSON, when the keys of the maps outside of these two are
  -- distinct, not empty and without dots.
  pub flatten_config-deep_get :
      (data_ : Nested F A) (key : String)
      → KeyedTop data_
      → lookup key (flatten_config json data_) ≡ text_at data_ key
  unfolding flatten_config
  flatten_config-deep_get data_ key h =
      flatten_top-lookup json data_ key [] h
      ∙ or_else-none (at_parts json data_ (split_dots key))
      ∙ at_parts-text_at data_ key h
    where
      or_else-none : (o : Option String) → or_else o none ≡ o
      or_else-none none = refl
      or_else-none (some s) = refl
