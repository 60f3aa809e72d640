-- ===== src/Prelude/Decimals.antt =====
-- `%d` of Go's fmt, for numbers that are not negative.
use Prim.Native.Nat.{ℕ, zero, suc, ◌+◌, ◌-◌, ◌*◌, ◌/◌, ◌%◌, ◌<◌}
use Prim.Native.Char.{code}
use Prim.Native.String.{String, [], ◌∷◌, ◌++◌}
use mathlib.Core.Path.{◌≡◌, sym, ap, ◌∙◌}
use mathlib.Core.Logic.{inl, inr}
use mathlib.Core.Bool.{Bool, ◌&&◌}
use mathlib.Core.Option.{Option, none, some}
use native.Mathlib.Omega.{arith}
use text.Mathlib.TextLemmas.{nil-append, cons-append, append-eq-nil_iff}
use picoaide.Prelude.Tests.{if◌then◌else◌, ltb, leb, ◌==◌, Bool-cases, eq_of_some, of_if}

abbrev pub digit : ℕ → String
digit n =
    if n == 0
    then "0"
    else if n == 1
    then "1"
    else if n == 2
    then "2"
    else if n == 3
    then "3"
    else if n == 4
    then "4"
    else if n == 5
    then "5"
    else if n == 6
    then "6"
    else if n == 7
    then "7"
    else if n == 8
    then "8"
    else "9"

-- A number has fewer digits than the number after it.
abbrev pub decimal_upto : ℕ → ℕ → String
decimal_upto zero n = ""
decimal_upto (suc fuel) n =
    let high = decimal_upto fuel (n / 10) in if ltb n 10 then digit n else high ++ digit (n % 10)

unfoldable pub decimal : ℕ → String
decimal n = decimal_upto (suc n) n

infixr 65 ◌+++◌
abbrev pub ◌+++◌ : String → String → String
s +++ t = s ++ t

abbrev is_digit : ℕ → Bool
is_digit c = leb 48 c && leb c 57

-- The number that the digits go on to spell; `none` at anything else.
abbrev pub digits_value : ℕ → String → Option ℕ
digits_value n [] = some n
digits_value n (c ∷ s) =
    let rest = digits_value (n * 10 + (code c - 48)) s in if is_digit (code c) then rest else none

digits_value-append :
    (s t : String) (n m : ℕ)
    → digits_value n s ≡ some m
    → digits_value n (s +++ t) ≡ digits_value m t
digits_value-append [] t n m e =
    ap (digits_value n) (nil-append t) ∙ ap (λ k. digits_value k t) (eq_of_some e)
digits_value-append (c ∷ s) t n m e =
    ap (digits_value n) (cons-append c s t) ∙ elim (Bool-cases (is_digit (code c))) [
      | inl yes_ ↦ ground (arith, yes_, e, digits_value-append s t (n * 10 + (code c - 48)) m)
      | inr no_ ↦ absurd (ground (arith, e, no_))
    ]

digits_value-digit : (n d : ℕ) → d < 10 → digits_value n (digit d) ≡ some (n * 10 + d)
digits_value-digit n d h =
    let spells = λ (s : String). digits_value n s ≡ some (n * 10 + d) in
    of_if spells (d == 0) (λ e. ap some (ground (arith, e)))
      λ n0.
        of_if spells (d == 1) (λ e. ap some (ground (arith, e)))
          λ n1.
            of_if spells (d == 2) (λ e. ap some (ground (arith, e)))
              λ n2.
                of_if spells (d == 3) (λ e. ap some (ground (arith, e)))
                  λ n3.
                    of_if spells (d == 4) (λ e. ap some (ground (arith, e)))
                      λ n4.
                        of_if spells (d == 5) (λ e. ap some (ground (arith, e)))
                          λ n5.
                            of_if spells (d == 6) (λ e. ap some (ground (arith, e)))
                              λ n6.
                                of_if spells (d == 7) (λ e. ap some (ground (arith, e)))
                                  λ n7.
                                    of_if spells (d == 8) (λ e. ap some (ground (arith, e)))
                                      λ n8.
                                        ap some
                                          (ground (arith, h, n0, n1, n2, n3, n4, n5, n6, n7, n8))

digits_value-decimal_upto : (fuel n : ℕ) → n < fuel → digits_value 0 (decimal_upto fuel n) ≡ some n
digits_value-decimal_upto zero n h = absurd (omega (arith, h))
digits_value-decimal_upto (suc fuel) n h =
    of_if (λ s. digits_value 0 s ≡ some n) (ltb n 10)
      (λ short. digits_value-digit 0 n (ground (arith, short)) ∙ ap some (omega arith))
      λ long.
        digits_value-append (decimal_upto fuel (n / 10)) (digit (n % 10)) 0 (n / 10)
          (digits_value-decimal_upto fuel (n / 10) (ground (arith, h, long)))
        ∙ digits_value-digit (n / 10) (n % 10) (omega arith)
        ∙ ap some (omega arith)

-- What is printed spells the number.
pub digits_value-decimal : (n : ℕ) → digits_value 0 (decimal n) ≡ some n
unfolding decimal
digits_value-decimal n = digits_value-decimal_upto (suc n) n (omega arith)

digit_not_empty : (d : ℕ) → d < 10 → digit d ≡ [] → ⊥
digit_not_empty d h e =
    let ten : some 1 ≡ some (1 * 10 + d) = ap (digits_value 1) (sym e) ∙ digits_value-digit 1 d h in
    absurd (omega (arith, eq_of_some ten))

decimal_upto_not_empty : (fuel n : ℕ) → n < fuel → decimal_upto fuel n ≡ [] → ⊥
decimal_upto_not_empty zero n h e = absurd (omega (arith, h))
decimal_upto_not_empty (suc fuel) n h e =
    of_if (λ s. s ≡ [] → ⊥) (ltb n 10) (λ short. digit_not_empty n (ground (arith, short)))
      (λ long e'.
        digit_not_empty (n % 10) (omega arith)
          ((append-eq-nil_iff {p = decimal_upto fuel (n / 10)} {q = digit (n % 10)}).0 e').1)
      e

pub decimal_not_empty : (n : ℕ) → decimal n ≡ [] → ⊥
unfolding decimal
decimal_not_empty n e = decimal_upto_not_empty (suc n) n (omega arith) e
