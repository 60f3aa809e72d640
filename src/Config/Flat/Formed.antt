-- ===== src/Config/Flat/Formed.antt =====
-- The maps that `buildNested` makes are well formed, internal/config/flatten.go.
use picoaide.Prelude.{
  String, Bool, true, false, Option, none, some, List, [], ◌∷◌, if◌then◌else◌, str_eq, eq_iff,
  eq_of_some, ◌≡◌, refl, sym, ap, subst, ◌∙◌, arith, Map, split_dots, split_dots_cons,
  split_dots-dot_free, dot_free, are_dot_free,
}
use picoaide.Util.Tree.{Value, leaf, node, empty, entry, get, put, map_or_new, set_parts}
use picoaide.Util.Tree.Paths.{get-put_other}
use picoaide.Config.Flat.{Scalar, Nested, RawJson, is_blob_key, typed_value, build_onto}
use picoaide.Config.Flat.Flattened.{Keyed, KeyedValue, KeyedTop}
use picoaide.Config.Flat.Texts.{starts_blob}
use picoaide.Config.Flat.Nested.{is_path, set_parts-Keyed}
use picoaide.Config.Flat.Built.{
  Spread, AllClear, value_for, set_value, put_value-set_value, set_value-AllClear,
}

-- Every key is a path of names, and leads through one that is stored as JSON only where it is one.
abbrev pub ArePaths : Map String → Type 0
ArePaths [] = Unit
ArePaths ((k, v) ∷ kv) =
    (is_path (split_dots k) ≡ true) × (starts_blob (split_dots k) ≡ is_blob_key k) × ArePaths kv

module _ {F A : Type 0} (json : RawJson F A) where
  below-KeyedTop :
      (p : String) (es : Nested F A)
      → is_blob_key p ≡ false
      → KeyedTop es
      → Keyed (map_or_new (get p es))
  unfolding KeyedTop Keyed
  below-KeyedTop p empty plain h = tt
  below-KeyedTop p (entry j v es) plain (_, _, _, h, hs) =
      by_key (below-KeyedTop p es plain hs) (str_eq j p) refl
    where
      of_value : (v : Value (Scalar F A)) → KeyedValue v → Keyed (map_or_new (some v))
      of_value (leaf a) h = tt
      of_value (node sub) h = h

      by_key :
          Keyed (map_or_new (get p es))
          → (b : Bool) → str_eq j p ≡ b
          → Keyed (map_or_new (if b then some v else get p es))
      by_key rest true e = of_value v (
          subst (λ b. if b then Unit {0} else KeyedValue v)
            (ap is_blob_key ((eq_iff j p).0 e) ∙ plain) h)
      by_key rest false e = rest

  put-KeyedTop :
      (k : String) (v : Value (Scalar F A)) (es : Nested F A)
      → str_eq k "" ≡ false
      → dot_free k ≡ true
      → (if is_blob_key k then Unit {0} else KeyedValue v)
      → KeyedTop es
      → KeyedTop (put k v es)
  unfolding KeyedTop
  put-KeyedTop k v empty nonempty dotless h hs = (nonempty, dotless, refl, h, tt)
  put-KeyedTop k v (entry j w es) nonempty dotless h (nonempty', dotless', new, h', hs) =
      by_key (put-KeyedTop k v es nonempty dotless h hs) (str_eq j k) refl
    where
      by_key :
          KeyedTop (put k v es)
          → (b : Bool) → str_eq j k ≡ b
          → KeyedTop (if b then entry k v es else entry j w (put k v es))
      by_key rest true e =
          (nonempty, dotless, ap (λ i. get i es) (sym ((eq_iff j k).0 e)) ∙ new, h, hs)
      by_key rest false e = (
        nonempty',
        dotless',
        get-put_other k j v es (ground (arith, e, eq_iff k j, eq_iff j k)) ∙ new,
        h',
        rest,
      )

  set_parts-KeyedTop :
      (p : String) (ps : List String) (v : Value (Scalar F A)) (es : Nested F A)
      → is_path (p ∷ ps) ≡ true
      → are_dot_free (p ∷ ps) ≡ true
      → (is_blob_key p ≡ false → KeyedValue v)
      → KeyedTop es
      → KeyedTop (set_parts (p ∷ ps) v es)
  unfolding Keyed
  set_parts-KeyedTop p [] v es path dotless h hs =
      put-KeyedTop p v es (ground (arith, path)) (ground (arith, dotless))
        (by_key (is_blob_key p) refl) hs
    where
      by_key : (b : Bool) → is_blob_key p ≡ b → if b then Unit {0} else KeyedValue v
      by_key true e = tt
      by_key false e = h e
  set_parts-KeyedTop p (q ∷ ps) v es path dotless h hs =
      put-KeyedTop p (node (set_parts (q ∷ ps) v (map_or_new (get p es)))) es (ground (arith, path))
        (ground (arith, dotless)) (by_key (is_blob_key p) refl) hs
    where
      by_key :
          (b : Bool)
          → is_blob_key p ≡ b
          → if b then Unit {0} else KeyedValue (node (set_parts (q ∷ ps) v (map_or_new (get p es))))
      by_key true e = tt
      by_key false e =
          set_parts-Keyed (q ∷ ps) v (map_or_new (get p es)) (ground (arith, path))
            (ground (arith, dotless)) (h e) (below-KeyedTop p es e hs)

  pub build_onto-KeyedTop :
      (kv : Map String) (es : Nested F A)
      → Spread kv
      → AllClear json kv es
      → ArePaths kv
      → KeyedTop es
      → KeyedTop (build_onto json kv es)
  unfolding build_onto Keyed
  build_onto-KeyedTop [] es s c paths h = h
  build_onto-KeyedTop ((k, v) ∷ kv) es (s, ss) (c, cs) (path, starts, paths) h =
      subst (λ m. KeyedTop (build_onto json kv m)) (sym (put_value-set_value json k v es c))
        (build_onto-KeyedTop kv (set_value json k (value_for json k v) es) ss
          (set_value-AllClear json k (value_for json k v) kv es s cs) paths
          (set_in (split_dots_cons k) (value_for json k v) is_plain))
    where
      is_plain :
          (x : Value (Scalar F A))
          → is_blob_key k ≡ false
          → value_for json k v ≡ some x
          → KeyedValue x
      is_plain x plain e =
          subst KeyedValue
            (eq_of_some (
              sym (ap (λ b. if b then json.unmarshal v else some (leaf (typed_value k v))) plain)
              ∙ e))
            tt

      set_in :
          (p : String) × (ps : List String) × (split_dots k ≡ p ∷ ps)
          → (o : Option (Value (Scalar F A)))
          → ((x : Value (Scalar F A)) → is_blob_key k ≡ false → o ≡ some x → KeyedValue x)
          → KeyedTop (set_value json k o es)
      set_in split none plain = h
      set_in (p, ps, parts) (some x) plain =
          subst (λ qs. KeyedTop (set_parts qs x es)) (sym parts)
            (set_parts-KeyedTop p ps x es (ap is_path (sym parts) ∙ path)
              (ap are_dot_free (sym parts) ∙ split_dots-dot_free k)
              (λ e. plain x (sym starts ∙ ap starts_blob parts ∙ e) refl) h)
