-- ===== src/Util/Tree/Paths.antt =====
-- What `DeepGet` of internal/util/util.go reads after `SetByPath` and `DeleteByPath`.
use picoaide.Prelude.{
  String, ◌≡◌, refl, sym, ap, ◌∙◌, false, Option, none, some, List, [], ◌∷◌, arith, if◌then◌else◌,
  str_eq, eq_iff, eq_refl, split_dots, split_dots_cons,
}
use picoaide.Util.Tree.{
  Value, leaf, node, Entries, empty, entry, get, put, remove, get_parts, deep_get, map_or_new,
  set_parts, set_by_path, descend, delete_parts, delete_by_path,
}

-- Neither path leads through the other: they part at some key.
pub data Diverges : List String → List String → Type 0 where
  here : (p q : String) (ps qs : List String) → str_eq p q ≡ false → Diverges (p ∷ ps) (q ∷ qs)
  there : (p : String) {ps qs : List String} → Diverges ps qs → Diverges (p ∷ ps) (p ∷ qs)

module _ {A : Type 0} where
  pub get-put :
      (k j : String) (v : Value A) (es : Entries A)
      → get j (put k v es) ≡ (if str_eq k j then some v else get j es)
  get-put k j v empty = refl
  get-put k j v (entry i w es) =
      ground (arith, eq_iff k j, eq_iff i k, eq_iff i j, get-put k j v es)

  get-remove :
      (k j : String) (es : Entries A)
      → get j (remove k es) ≡ (if str_eq k j then none else get j es)
  get-remove k j empty = ground arith
  get-remove k j (entry i w es) =
      ground (arith, eq_iff k j, eq_iff i k, eq_iff i j, get-remove k j es)

  pub get-put_same : (k : String) (v : Value A) (es : Entries A) → get k (put k v es) ≡ some v
  get-put_same k v es = get-put k k v es ∙ ap (λ b. if b then some v else get k es) (eq_refl k)

  pub get-put_other :
      (k j : String) (v : Value A) (es : Entries A)
      → str_eq k j ≡ false
      → get j (put k v es) ≡ get j es
  get-put_other k j v es h = get-put k j v es ∙ ap (λ b. if b then some v else get j es) h

  pub set_parts_same :
      (p : String) (ps : List String) (v : Value A) (es : Entries A)
      → get_parts (p ∷ ps) (some (node (set_parts (p ∷ ps) v es))) ≡ some v
  set_parts_same p [] v es = ap (get_parts []) (get-put_same p v es)
  set_parts_same p (q ∷ ps) v es =
      ap (get_parts (q ∷ ps)) (get-put_same p _ es) ∙ set_parts_same q ps v (map_or_new (get p es))

  map_or_new-get :
      (q : String) (qs : List String) (o : Option (Value A))
      → get_parts (q ∷ qs) (some (node (map_or_new o))) ≡ get_parts (q ∷ qs) o
  map_or_new-get q qs none = refl
  map_or_new-get q qs (some (leaf a)) = refl
  map_or_new-get q qs (some (node es)) = refl

  pub set_parts_other :
      {ps qs : List String} (d : Diverges ps qs) (v : Value A) (es : Entries A)
      → get_parts qs (some (node (set_parts ps v es))) ≡ get_parts qs (some (node es))
  set_parts_other (here p q [] qs h) v es = ap (get_parts qs) (get-put_other p q v es h)
  set_parts_other (here p q (r ∷ ps) qs h) v es = ap (get_parts qs) (get-put_other p q _ es h)
  set_parts_other (there p (here q r ps qs h)) v es =
      ap (get_parts (r ∷ qs)) (get-put_same p _ es)
      ∙ set_parts_other (here q r ps qs h) v (map_or_new (get p es))
      ∙ map_or_new-get r qs (get p es)
  set_parts_other (there p (there q {ps = ps} {qs = qs} d)) v es =
      ap (get_parts (q ∷ qs)) (get-put_same p _ es)
      ∙ set_parts_other (there q d) v (map_or_new (get p es))
      ∙ map_or_new-get q qs (get p es)

  descend-get :
      (p j : String) (es : Entries A) (o : Option (Value A)) (f : Entries A → Entries A)
      → str_eq p j ≡ false
      → get j (descend p es o f) ≡ get j es
  descend-get p j es none f h = refl
  descend-get p j es (some (leaf a)) f h = refl
  descend-get p j es (some (node sub)) f h = get-put_other p j _ es h

  -- Below the key, the path leads into what the change made of the map there.
  descend-get_parts :
      (p : String) (es : Entries A) (o : Option (Value A)) (f : Entries A → Entries A) (q : String)
      (qs : List String) (result : Option (Value A) → Option (Value A))
      → get p es ≡ o
      → result none ≡ none
      → ((a : A) → result (some (leaf a)) ≡ none)
      → ((sub : Entries A) → get_parts (q ∷ qs) (some (node (f sub))) ≡ result (some (node sub)))
      → get_parts (q ∷ qs) (get p (descend p es o f)) ≡ result o
  descend-get_parts p es none f q qs result e missing at_leaf at_node =
      ap (get_parts (q ∷ qs)) e ∙ sym missing
  descend-get_parts p es (some (leaf a)) f q qs result e missing at_leaf at_node =
      ap (get_parts (q ∷ qs)) e ∙ sym (at_leaf a)
  descend-get_parts p es (some (node sub)) f q qs result e missing at_leaf at_node =
      ap (get_parts (q ∷ qs)) (get-put_same p _ es) ∙ at_node sub

  delete_parts_same :
      (p : String) (ps : List String) (es : Entries A)
      → get_parts (p ∷ ps) (some (node (delete_parts (p ∷ ps) es))) ≡ none
  delete_parts_same p [] es =
      ap (get_parts []) (get-remove p p es ∙ ap (λ b. if b then none else get p es) (eq_refl p))
  delete_parts_same p (q ∷ ps) es =
      descend-get_parts p es (get p es) (delete_parts (q ∷ ps)) q ps (λ o. none) refl refl
        (λ a. refl) (λ sub. delete_parts_same q ps sub)

  delete_parts_other :
      {ps qs : List String} (d : Diverges ps qs) (es : Entries A)
      → get_parts qs (some (node (delete_parts ps es))) ≡ get_parts qs (some (node es))
  delete_parts_other (here p q [] qs h) es =
      ap (get_parts qs) (get-remove p q es ∙ ap (λ b. if b then none else get q es) h)
  delete_parts_other (here p q (r ∷ ps) qs h) es =
      ap (get_parts qs) (descend-get p q es (get p es) (delete_parts (r ∷ ps)) h)
  delete_parts_other (there p (here q r ps qs h)) es =
      descend-get_parts p es (get p es) (delete_parts (q ∷ ps)) r qs (get_parts (r ∷ qs)) refl refl
        (λ a. refl) (λ sub. delete_parts_other (here q r ps qs h) sub)
  delete_parts_other (there p (there q {ps = ps} {qs = qs} d)) es =
      descend-get_parts p es (get p es) (delete_parts (q ∷ ps)) q qs (get_parts (q ∷ qs)) refl refl
        (λ a. refl) (λ sub. delete_parts_other (there q d) sub)

  -- `DeepGet` reads back what `SetByPath` has written at a path that is not empty, and reads at
  -- every path that parts from it what was there before.
  pub set_by_path-deep_get :
      (cfg : Entries A) (path : String) (v : Value A)
      → str_eq path "" ≡ false
      → (deep_get (set_by_path cfg path v) path ≡ some v)
        × ((other : String)
            → Diverges (split_dots path) (split_dots other)
            → deep_get (set_by_path cfg path v) other ≡ deep_get cfg other)
  unfolding deep_get set_by_path
  set_by_path-deep_get cfg path v named =
      let (p, ps, parts) = split_dots_cons path in
      (
        rw (named, parts) (set_parts_same p ps v cfg),
        λ other d.
            rw named (ap (λ r. if str_eq other "" then none else r) (set_parts_other d v cfg)),
      )

  -- After `DeleteByPath` at a path that is not empty, `DeepGet` finds nothing there, and reads at
  -- every path that parts from it what was there before.
  pub delete_by_path-deep_get :
      (cfg : Entries A) (path : String)
      → str_eq path "" ≡ false
      → (deep_get (delete_by_path cfg path) path ≡ none)
        × ((other : String)
            → Diverges (split_dots path) (split_dots other)
            → deep_get (delete_by_path cfg path) other ≡ deep_get cfg other)
  unfolding deep_get delete_by_path
  delete_by_path-deep_get cfg path named =
      let (p, ps, parts) = split_dots_cons path in
      (
        rw (named, parts) (delete_parts_same p ps cfg),
        λ other d.
            rw named (ap (λ r. if str_eq other "" then none else r) (delete_parts_other d cfg)),
      )
