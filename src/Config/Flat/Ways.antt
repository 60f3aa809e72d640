-- ===== src/Config/Flat/Ways.antt =====
-- Keys as ways down nested maps: the parts between the dots.
use picoaide.Prelude.{
  String, false, Option, none, some, List, [], ◌∷◌, ◌++◌, if◌then◌else◌, str_eq, eq_iff, eq_refl,
  ◌≡◌, refl, sym, ap, ap₂, ◌∙◌, inl, inr, arith, Bool-cases, split_dots, join_dots, join-split_dots,
}

-- What follows the parts `P` in the other parts.
abbrev pub strip : List String → List String → Option (List String)
strip [] qs = some qs
strip (p ∷ ps) [] = none
strip (p ∷ ps) (q ∷ qs) = let rest = strip ps qs in if str_eq p q then rest else none

abbrev pub next : String → Option (List String) → Option (List String)
next k none = none
next k (some []) = none
next k (some (q ∷ qs)) = if str_eq k q then some qs else none

pub strip-append :
    (k : String) (ps qs : List String) → strip (ps ++ k ∷ []) qs ≡ next k (strip ps qs)
strip-append k [] [] = refl
strip-append k [] (q ∷ qs) = refl
strip-append k (p ∷ ps) [] = refl
strip-append k (p ∷ ps) (q ∷ qs) = elim (Bool-cases (str_eq p q)) [
  | inl same ↦ rw same (strip-append k ps qs)
  | inr other ↦ rw other refl
]

abbrev pub at_end : {A : Type 0} → Option A → Option (List String) → Option A
at_end m none = none
at_end m (some []) = m
at_end m (some (q ∷ qs)) = none

strip_same : (ps : List String) → strip ps ps ≡ some []
strip_same [] = refl
strip_same (p ∷ ps) = rw (eq_refl p) (strip_same ps)

strip_end : (ps qs : List String) → strip ps qs ≡ some [] → ps ≡ qs
strip_end [] qs e = ground (arith, e)
strip_end (p ∷ ps) [] e = absurd (ground (arith, e))
strip_end (p ∷ ps) (q ∷ qs) e = elim (Bool-cases (str_eq p q)) [
  | inl same ↦
      ap₂ (λ x xs. x ∷ xs) ((eq_iff p q).0 same)
        (strip_end ps qs (sym (ap (λ b. if b then strip ps qs else none) same) ∙ e))
  | inr other ↦ absurd (ground (arith, e, other))
]

-- A key stands at the end of its own way, and no other does.
pub at_end-strip :
    {A : Type 0} (m : Option A) (j k : String)
    → at_end m (strip (split_dots j) (split_dots k)) ≡ (if str_eq j k then m else none)
at_end-strip m j k = elim (Bool-cases (str_eq j k)) [
  | inl same ↦ rw same (
      ap (at_end m) (
        ap (λ i. strip (split_dots j) (split_dots i)) (sym ((eq_iff j k).0 same))
        ∙ strip_same (split_dots j)))
  | inr other ↦ rw other (by_rest (strip (split_dots j) (split_dots k)) refl other)
]
  where
    by_rest :
        (o : Option (List String))
        → strip (split_dots j) (split_dots k) ≡ o
        → str_eq j k ≡ false
        → at_end m o ≡ none
    by_rest none e other = refl
    by_rest (some []) e other =
        let same : j ≡ k =
          sym (join-split_dots j)
          ∙ ap join_dots (strip_end (split_dots j) (split_dots k) e)
          ∙ join-split_dots k in
        absurd (ground (arith, other, (eq_iff j k).1 same))
    by_rest (some (q ∷ qs)) e other = refl
