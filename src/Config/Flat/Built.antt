-- ===== src/Config/Flat/Built.antt =====
-- What `buildNested` of internal/config/flatten.go puts under each path.
use picoaide.Prelude.{
  String, Bool, true, false, Option, none, some, List, [], ◌∷◌, if◌then◌else◌, str_eq, eq_iff,
  eq_of_some, ◌≡◌, refl, sym, ap, subst, ◌∙◌, inl, inr, arith, Bool-cases, Map, lookup, split_dots,
  split_dots_cons,
}
use picoaide.Util.Tree.{Value, leaf, node, get_parts, set_parts}
use picoaide.Util.Tree.Paths.{Diverges, here, there, set_parts_same, set_parts_other}
use picoaide.Config.Flat.{
  Scalar, Nested, RawJson, is_blob_key, typed_value, put_nested, put_parsed, put_value, build_onto,
}
use picoaide.Config.Flat.Nested.{clear, clear-set_parts, put_nested-set_parts}

diverge_back : {ps qs : List String} → Diverges ps qs → Diverges qs ps
diverge_back (here p q ps qs h) = here q p qs ps (ground (arith, h, eq_iff p q, eq_iff q p))
diverge_back (there p d) = there p (diverge_back d)

pub blob_split : (key : String) → is_blob_key key ≡ true → split_dots key ≡ key ∷ []
blob_split key e = elim (Bool-cases (str_eq key "security")) [
  | inl first ↦
      let same = (eq_iff key "security").0 first in ap split_dots same ∙ ap (λ k. k ∷ []) (sym same)
  | inr other ↦
      let same = (eq_iff key "skills").0 (ground (arith, e, other)) in
      ap split_dots same ∙ ap (λ k. k ∷ []) (sym same)
]

-- The path of the key parts from the paths of all others.
abbrev pub Apart : String → Map String → Type 0
Apart k [] = Unit
Apart k ((j, v) ∷ kv) = Diverges (split_dots k) (split_dots j) × Apart k kv

abbrev pub Spread : Map String → Type 0
Spread [] = Unit
Spread ((k, v) ∷ kv) = Apart k kv × Spread kv

Apart-lookup :
    (j k v : String) (kv : Map String)
    → Apart j kv
    → lookup k kv ≡ some v
    → Diverges (split_dots j) (split_dots k)
Apart-lookup j k v [] a e = absurd (ground (arith, e))
Apart-lookup j k v ((i, w) ∷ kv) (d, a) e = elim (Bool-cases (str_eq i k)) [
  | inl same ↦ subst (λ x. Diverges (split_dots j) (split_dots x)) ((eq_iff i k).0 same) d
  | inr other ↦
      Apart-lookup j k v kv a (sym (ap (λ b. if b then some w else lookup k kv) other) ∙ e)
]

module _ {F A : Type 0} (json : RawJson F A) where
  abbrev pub value_for : String → String → Option (Value (Scalar F A))
  value_for key value =
      if is_blob_key key then json.unmarshal value else some (leaf (typed_value key value))

  abbrev pub set_value : String → Option (Value (Scalar F A)) → Nested F A → Nested F A
  set_value key none es = es
  set_value key (some v) es = set_parts (split_dots key) v es

  pub put_value-set_value :
      (key value : String) (es : Nested F A)
      → clear (split_dots key) es ≡ true
      → put_value json key value es ≡ set_value key (value_for key value) es
  put_value-set_value key value es c = by_key (is_blob_key key) refl
    where
      parsed :
          is_blob_key key ≡ true
          → (o : Option (Value (Scalar F A))) → put_parsed key o es ≡ set_value key o es
      parsed e none = refl
      parsed e (some v) = ap (λ ps. set_parts ps v es) (sym (blob_split key e))

      by_key :
          (b : Bool)
          → is_blob_key key ≡ b
          → (if b
              then put_parsed key (json.unmarshal value) es
              else put_nested (split_dots key) (leaf (typed_value key value)) es)
            ≡ set_value key
                (if b then json.unmarshal value else some (leaf (typed_value key value)))
                es
      by_key true e = parsed e (json.unmarshal value)
      by_key false e = put_nested-set_parts (split_dots key) (leaf (typed_value key value)) es c

  set_value_same :
      (key : String) (o : Option (Value (Scalar F A))) (es : Nested F A)
      → get_parts (split_dots key) (some (node es)) ≡ none
      → get_parts (split_dots key) (some (node (set_value key o es))) ≡ o
  set_value_same key none es new = new
  set_value_same key (some v) es new =
      let (p, ps, parts) = split_dots_cons key in rw parts (set_parts_same p ps v es)

  set_value_other :
      (j k : String) (o : Option (Value (Scalar F A))) (es : Nested F A)
      → Diverges (split_dots j) (split_dots k)
      → get_parts (split_dots k) (some (node (set_value j o es)))
        ≡ get_parts (split_dots k) (some (node es))
  set_value_other j k none es d = refl
  set_value_other j k (some v) es d = set_parts_other d v es

  abbrev pub AllClear : Map String → Nested F A → Type 0
  AllClear [] es = Unit
  AllClear ((k, v) ∷ kv) es = (clear (split_dots k) es ≡ true) × AllClear kv es

  pub set_value-AllClear :
      (k : String) (o : Option (Value (Scalar F A))) (kv : Map String) (es : Nested F A)
      → Apart k kv
      → AllClear kv es
      → AllClear kv (set_value k o es)
  set_value-AllClear k o [] es a c = tt
  set_value-AllClear k none ((j, w) ∷ kv) es (d, a) (c, cs) = (c, cs)
  set_value-AllClear k (some v) ((j, w) ∷ kv) es (d, a) (c, cs) =
      (clear-set_parts d v es c, set_value-AllClear k (some v) kv es a cs)

  build_onto-other :
      (k : String) (kv : Map String) (es : Nested F A)
      → Apart k kv
      → Spread kv
      → AllClear kv es
      → get_parts (split_dots k) (some (node (build_onto json kv es)))
        ≡ get_parts (split_dots k) (some (node es))
  unfolding build_onto
  build_onto-other k [] es a s c = refl
  build_onto-other k ((j, w) ∷ kv) es (d, a) (s, ss) (c, cs) =
      ap (λ m. get_parts (split_dots k) (some (node (build_onto json kv m))))
        (put_value-set_value j w es c)
      ∙ build_onto-other k kv (set_value j (value_for j w) es) a ss
          (set_value-AllClear j (value_for j w) kv es s cs)
      ∙ set_value_other j k (value_for j w) es (diverge_back d)

  pub build_onto-at :
      (k v : String) (kv : Map String) (es : Nested F A)
      → lookup k kv ≡ some v
      → Spread kv
      → AllClear kv es
      → get_parts (split_dots k) (some (node es)) ≡ none
      → get_parts (split_dots k) (some (node (build_onto json kv es))) ≡ value_for k v
  unfolding build_onto
  build_onto-at k v [] es e s c new = absurd (ground (arith, e))
  build_onto-at k v ((j, w) ∷ kv) es e (s, ss) (c, cs) new =
      ap (λ m. get_parts (split_dots k) (some (node (build_onto json kv m))))
        (put_value-set_value j w es c)
      ∙ elim (Bool-cases (str_eq j k)) [
        | inl same ↦
            let at : j ≡ k = (eq_iff j k).0 same in
            let value : w ≡ v =
              eq_of_some (sym (ap (λ b. if b then some w else lookup k kv) same) ∙ e) in
            build_onto-other k kv es' (subst (λ i. Apart i kv) at s) ss kept
            ∙ ap (λ i. get_parts (split_dots k) (some (node (set_value i (value_for j w) es)))) at
            ∙ set_value_same k (value_for j w) es new
            ∙ ap (λ i. value_for i w) at
            ∙ ap (value_for k) value
        | inr other ↦
            let later = sym (ap (λ b. if b then some w else lookup k kv) other) ∙ e in
            build_onto-at k v kv es' later ss kept
              (set_value_other j k (value_for j w) es (Apart-lookup j k v kv s later) ∙ new)
      ]
    where
      es' : Nested F A
      es' = set_value j (value_for j w) es

      kept : AllClear kv es'
      kept = set_value-AllClear j (value_for j w) kv es s cs
