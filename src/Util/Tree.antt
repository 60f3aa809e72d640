-- ===== src/Util/Tree.antt =====
-- The trees of maps that the configuration is kept in, internal/util/util.go: `MergeMap`, `DeepGet`,
-- `SetByPath` and `DeleteByPath`. The maps that a call changes in place are its result, and no map
-- is shared.
pub mod Paths
pub mod Merge
use picoaide.Prelude.{
  String, Bool, true, false, Option, none, some, List, [], ◌∷◌, if◌then◌else◌, str_eq, split_dots,
}

-- An `interface{}` that is a `map[string]interface{}`, or anything else. The keys of a map are
-- distinct.
mutual
  pub data Value (A : Type 0) : Type 0 where
    leaf : A → Value A
    node : Entries A → Value A

  pub data Entries (A : Type 0) : Type 0 where
    empty : Entries A
    entry : String → Value A → Entries A → Entries A

module _ {A : Type 0} where
  -- v, ok := m[k]
  abbrev pub get : String → Entries A → Option (Value A)
  get k empty = none
  get k (entry j v es) = if str_eq j k then some v else get k es

  -- m[k] = v
  abbrev pub put : String → Value A → Entries A → Entries A
  put k v empty = entry k v empty
  put k v (entry j w es) = if str_eq j k then entry k v es else entry j w (put k v es)

  -- delete(m, k)
  abbrev pub remove : String → Entries A → Entries A
  remove k empty = empty
  remove k (entry j w es) = if str_eq j k then remove k es else entry j w (remove k es)

  -- The loop of `DeepGet`.
  abbrev pub get_parts : List String → Option (Value A) → Option (Value A)
  get_parts parts none = none
  get_parts [] (some v) = some v
  get_parts (p ∷ ps) (some (leaf a)) = none
  get_parts (p ∷ ps) (some (node es)) = get_parts ps (get p es)

  unfoldable pub deep_get : Entries A → String → Option (Value A)
  deep_get cfg path = if str_eq path "" then none else get_parts (split_dots path) (some (node cfg))

  -- `current[p].(map[string]interface{})`, or a new map.
  abbrev pub map_or_new : Option (Value A) → Entries A
  map_or_new none = empty
  map_or_new (some (leaf a)) = empty
  map_or_new (some (node es)) = es

  -- `strings.Split` gives one part at least.
  abbrev pub set_parts : List String → Value A → Entries A → Entries A
  set_parts [] value es = es
  set_parts (p ∷ []) value es = put p value es
  set_parts (p ∷ q ∷ ps) value es =
      put p (node (set_parts (q ∷ ps) value (map_or_new (get p es)))) es

  unfoldable pub set_by_path : Entries A → String → Value A → Entries A
  set_by_path cfg path value = if str_eq path "" then cfg else set_parts (split_dots path) value cfg

  -- The change goes on in the map under the key, if there is one.
  abbrev pub descend : String → Entries A → Option (Value A) → (Entries A → Entries A) → Entries A
  descend p es none f = es
  descend p es (some (leaf a)) f = es
  descend p es (some (node sub)) f = put p (node (f sub)) es

  abbrev pub delete_parts : List String → Entries A → Entries A
  delete_parts [] es = es
  delete_parts (p ∷ []) es = remove p es
  delete_parts (p ∷ q ∷ ps) es = descend p es (get p es) (delete_parts (q ∷ ps))

  unfoldable pub delete_by_path : Entries A → String → Entries A
  delete_by_path cfg path = if str_eq path "" then cfg else delete_parts (split_dots path) cfg

  mutual
    -- The entries of the source, in the order that the range gives.
    pub merge_map : Entries A → Entries A → Entries A
    merge_map dst empty = dst
    merge_map dst (entry k sv rest) = merge_map (put k (merged (get k dst) sv) dst) rest

    pub merged : Option (Value A) → Value A → Value A
    merged none sv = sv
    merged (some dv) (leaf a) = leaf a
    merged (some (leaf b)) (node es) = node es
    merged (some (node ds)) (node es) = node (merge_map ds es)
