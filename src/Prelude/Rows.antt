-- ===== src/Prelude/Rows.antt =====
-- Rows of a table: a property of all, and a column without duplicates.
use mathlib.Core.Path.{◌≡◌, refl, ◌∙◌}
use mathlib.Core.Logic.{inl, inr}
use mathlib.Core.Bool.{Bool, true, false}
use mathlib.Core.List.{List, [], ◌∷◌, ◌++◌, map}
use native.Mathlib.Omega.{arith}
use picoaide.Prelude.Tests.{if◌then◌else◌, Bool-cases}
use picoaide.Prelude.Lists.{keep, any}

abbrev pub All : {A : Type 0} → (A → Type 0) → List A → Type 0
All P [] = Unit
All P (x ∷ xs) = P x × All P xs

-- No two entries are the same as far as the test tells.
abbrev pub Unique : {A : Type 0} → (A → A → Bool) → List A → Type 0
Unique same [] = Unit
Unique same (x ∷ xs) = (any (same x) xs ≡ false) × Unique same xs

module _ {A : Type 0} where
  pub any-append :
      (p : A → Bool) (xs ys : List A) → any p (xs ++ ys) ≡ (if any p xs then true else any p ys)
  any-append p [] ys = refl
  any-append p (x ∷ xs) ys = ground (arith, any-append p xs ys)

  pub All-weaken : {P Q : A → Type 0} (xs : List A) → ((a : A) → P a → Q a) → All P xs → All Q xs
  All-weaken [] f h = tt
  All-weaken (x ∷ xs) f h = (f x h.0, All-weaken xs f h.1)

  pub All-of : {P : A → Type 0} (xs : List A) → ((a : A) → P a) → All P xs
  All-of [] f = tt
  All-of (x ∷ xs) f = (f x, All-of xs f)

  pub All-zip :
      {P Q R : A → Type 0} (xs : List A)
      → ((a : A) → P a → Q a → R a)
      → All P xs
      → All Q xs
      → All R xs
  All-zip [] f h k = tt
  All-zip (x ∷ xs) f h k = (f x h.0 k.0, All-zip xs f h.1 k.1)

  pub All-append : (P : A → Type 0) (xs : List A) (y : A) → All P xs → P y → All P (xs ++ y ∷ [])
  All-append P [] y h k = (k, tt)
  All-append P (x ∷ xs) y h k = (h.0, All-append P xs y h.1 k)

  pub All-keep : (P : A → Type 0) (p : A → Bool) (xs : List A) → All P xs → All P (keep p xs)
  All-keep P p [] h = tt
  All-keep P p (x ∷ xs) h = elim (Bool-cases (p x)) [
    | inl e ↦ rw e (h.0, All-keep P p xs h.1)
    | inr e ↦ rw e (All-keep P p xs h.1)
  ]

  -- An entry that the test picks has what all have, and was picked.
  pub All-keep_picked :
      {P Q : A → Type 0} (p : A → Bool) (xs : List A)
      → ((a : A) → p a ≡ true → P a → Q a)
      → All P xs
      → All Q (keep p xs)
  All-keep_picked p [] f h = tt
  All-keep_picked p (x ∷ xs) f h = elim (Bool-cases (p x)) [
    | inl e ↦ rw e (f x e h.0, All-keep_picked p xs f h.1)
    | inr e ↦ rw e (All-keep_picked p xs f h.1)
  ]

  pub any-keep-false : (p q : A → Bool) (xs : List A) → any p xs ≡ false → any p (keep q xs) ≡ false
  any-keep-false p q [] h = refl
  any-keep-false p q (x ∷ xs) h = ground (arith, any-keep-false p q xs)

  -- Keeping entries that the test asks for loses none of them.
  pub any-keep-true :
      (p q : A → Bool) (xs : List A)
      → ((a : A) → p a ≡ true → q a ≡ true)
      → any p (keep q xs) ≡ any p xs
  any-keep-true p q [] f = refl
  any-keep-true p q (x ∷ xs) f = ground (arith, f x, any-keep-true p q xs f)

  pub Unique-keep :
      (same : A → A → Bool) (p : A → Bool) (xs : List A) → Unique same xs → Unique same (keep p xs)
  Unique-keep same p [] h = tt
  Unique-keep same p (x ∷ xs) h = elim (Bool-cases (p x)) [
    | inl e ↦ rw e (any-keep-false (same x) p xs h.0, Unique-keep same p xs h.1)
    | inr e ↦ rw e (Unique-keep same p xs h.1)
  ]

  pub Unique-append :
      (same : A → A → Bool) (xs : List A) (y : A)
      → Unique same xs
      → All (λ x. same x y ≡ false) xs
      → Unique same (xs ++ y ∷ [])
  Unique-append same [] y h k = (refl, tt)
  Unique-append same (x ∷ xs) y h k =
      (ground (arith, any-append (same x) xs (y ∷ [])), Unique-append same xs y h.1 k.1)

  pub any-false-All :
      {P : A → Type 0} (p : A → Bool) (xs : List A)
      → any p xs ≡ false
      → ((a : A) → p a ≡ false → P a)
      → All P xs
  any-false-All p [] h f = tt
  any-false-All p (x ∷ xs) h f = (f x (ground arith), any-false-All p xs (ground arith) f)

-- A change of the entries that keeps what the test reads.
module _ {A : Type 0} (f : A → A) where
  pub any-map :
      (p : A → Bool) (xs : List A) → ((a : A) → p (f a) ≡ p a) → any p (map f xs) ≡ any p xs
  any-map p [] h = refl
  any-map p (x ∷ xs) h = ground (arith, h x, any-map p xs h)

  any-map_shift :
      (p q : A → Bool) (xs : List A) → ((a : A) → p (f a) ≡ q a) → any p (map f xs) ≡ any q xs
  any-map_shift p q [] h = refl
  any-map_shift p q (x ∷ xs) h = ground (arith, h x, any-map_shift p q xs h)

  pub Unique-map :
      (same : A → A → Bool) (xs : List A)
      → ((a b : A) → same (f a) (f b) ≡ same a b)
      → Unique same xs
      → Unique same (map f xs)
  Unique-map same [] h u = tt
  Unique-map same (x ∷ xs) h u =
      (any-map_shift (same (f x)) (same x) xs (h x) ∙ u.0, Unique-map same xs h u.1)

  pub All-map :
      (P Q : A → Type 0) (xs : List A) → ((a : A) → P a → Q (f a)) → All P xs → All Q (map f xs)
  All-map P Q [] k h = tt
  All-map P Q (x ∷ xs) k h = (k x h.0, All-map P Q xs k h.1)
