-- ===== src/Prelude/Dots.antt =====
-- `split_dots` on texts that are joined with dots.
use Prim.Native.Char.{Char, code}
use Prim.Native.String.{String, [], ◌∷◌}
use mathlib.Core.Bool.{Bool, true, false, not, ◌&&◌}
use mathlib.Core.List.{List, [] as nil, ◌∷◌ as ◌▹◌, ◌++◌}
use mathlib.Core.Path.{◌≡◌, refl, sym, ap, ap₂, ◌∙◌}
use mathlib.Core.Logic.{inl, inr}
use native.Mathlib.Omega.{arith}
use text.Mathlib.Text.{◌==◌ as str_eq}
use text.Mathlib.TextEquality.{Char-path, eq_iff}
use text.Mathlib.TextLemmas.{nil-append, cons-append}
use picoaide.Prelude.Decimals.{◌+++◌}
use picoaide.Prelude.Tests.{Bool-cases, ◌==◌}
use picoaide.Prelude.Scan.{split_dots, split_dots_cons, onto_first}

abbrev pub dot_free : String → Bool
dot_free [] = true
dot_free (c ∷ s) = not (code c == 46) && dot_free s

abbrev dot : Char
dot = "."

dot_append : (k : String) → "." +++ k ≡ dot ∷ k
dot_append k = cons-append dot [] k ∙ ap (λ t. dot ∷ t) (nil-append k)

is_dot : (c : Char) → (code c == 46) ≡ true → c ≡ dot
is_dot c e = Char-path c dot (ground (arith, e))

pub split_dots_single : (s : String) → dot_free s ≡ true → split_dots s ≡ s ▹ nil
split_dots_single [] h = refl
split_dots_single (c ∷ s) h =
    let rest : split_dots s ≡ s ▹ nil = split_dots_single s (ground (arith, h)) in
    let here : (code c == 46) ≡ false = ground (arith, h) in rw here (ap (onto_first c) rest)

onto_first-append :
    (c : Char) (s k : String)
    → onto_first c (split_dots s ++ (k ▹ nil)) ≡ onto_first c (split_dots s) ++ (k ▹ nil)
onto_first-append c s k = let (p, ps, e) = split_dots_cons s in rw e refl

pub split_dots-append :
    (s k : String) → dot_free k ≡ true → split_dots (s +++ ("." +++ k)) ≡ split_dots s ++ (k ▹ nil)
split_dots-append [] k h =
    ap split_dots (nil-append ("." +++ k) ∙ dot_append k)
    ∙ ap (λ parts. [] ▹ parts) (split_dots_single k h)
split_dots-append (c ∷ s) k h =
    ap split_dots (cons-append c s ("." +++ k)) ∙ elim (Bool-cases (code c == 46)) [
      | inl here ↦ rw here (ap (λ parts. [] ▹ parts) (split_dots-append s k h))
      | inr more ↦ rw more (ap (onto_first c) (split_dots-append s k h) ∙ onto_first-append c s k)
    ]

-- strings.Join(parts, ".")
abbrev pub join_dots : List String → String
join_dots nil = []
join_dots (p ▹ nil) = p
join_dots (p ▹ q ▹ ps) = p +++ ("." +++ join_dots (q ▹ ps))

join-onto_first :
    (c : Char) (s : String) → join_dots (onto_first c (split_dots s)) ≡ c ∷ join_dots (split_dots s)
join-onto_first c s = let (p, ps, e) = split_dots_cons s in rw e (by_rest p ps)
  where
    by_rest : (p : String) (ps : List String) → join_dots ((c ∷ p) ▹ ps) ≡ c ∷ join_dots (p ▹ ps)
    by_rest p nil = refl
    by_rest p (q ▹ ps) = cons-append c p _

pub join-split_dots : (s : String) → join_dots (split_dots s) ≡ s
join-split_dots [] = refl
join-split_dots (c ∷ s) = elim (Bool-cases (code c == 46)) [
  | inl here ↦ rw here (
      let (p, ps, e) = split_dots_cons s in
      ap join_dots (ap (λ parts. [] ▹ parts) e)
      ∙ nil-append ("." +++ join_dots (p ▹ ps))
      ∙ dot_append (join_dots (p ▹ ps))
      ∙ ap₂ (λ d t. d ∷ t) (sym (is_dot c here)) (ap join_dots (sym e) ∙ join-split_dots s))
  | inr more ↦ rw more (join-onto_first c s ∙ ap (λ t. c ∷ t) (join-split_dots s))
]

abbrev is_nil : String → Bool
is_nil [] = true
is_nil (c ∷ s) = false

pub nonempty-append : (s t : String) → str_eq s "" ≡ false → str_eq (s +++ t) "" ≡ false
nonempty-append [] t h = absurd (ground (arith, h))
nonempty-append (c ∷ s) t h = elim (Bool-cases (str_eq ((c ∷ s) +++ t) "")) [
  | inl nil_ ↦
      let e = ap is_nil (sym (cons-append c s t) ∙ (eq_iff ((c ∷ s) +++ t) "").0 nil_) in
      absurd (ground (arith, e))
  | inr other ↦ other
]

abbrev pub are_dot_free : List String → Bool
are_dot_free nil = true
are_dot_free (p ▹ ps) = dot_free p && are_dot_free ps

pub split_dots-dot_free : (s : String) → are_dot_free (split_dots s) ≡ true
split_dots-dot_free [] = refl
split_dots-dot_free (c ∷ s) = elim (Bool-cases (code c == 46)) [
  | inl here ↦ rw here (split_dots-dot_free s)
  | inr more ↦
      let (p, ps, e) = split_dots_cons s in
      let rest : are_dot_free (p ▹ ps) ≡ true = ap are_dot_free (sym e) ∙ split_dots-dot_free s in
      rw more (ap (λ parts. are_dot_free (onto_first c parts)) e ∙ ground (arith, more, rest))
]
