-- ===== src/Prelude/Scan.antt =====
-- Texts read as Go reads them: `strings.SplitN(s, " ", 2)` and `fmt.Sscanf(s, "%d", &n)` into an int64.
use Prim.Native.Nat.{ℕ, zero, suc, ◌+◌, ◌-◌, ◌*◌, ◌^◌}
use Prim.Native.Char.{Char, code}
use Prim.Native.String.{String, [], ◌∷◌}
use mathlib.Core.Bool.{Bool, ◌&&◌, ◌||◌}
use mathlib.Core.Option.{Option, none, some}
use mathlib.Core.List.{List, [] as nil, ◌∷◌ as ◌▹◌}
use mathlib.Core.Path.{◌≡◌, refl}
use mathlib.Core.Logic.{inl, inr}
use text.Mathlib.Text.{◌==◌ as str_eq}
use picoaide.Prelude.Decimals.{digits_value}
use picoaide.Prelude.Tests.{Bool-cases, if◌then◌else◌, ltb, leb, ◌==◌}

pub data ℤ : Type 0 where
  pos negsuc : ℕ → ℤ

abbrev with_first : Char → Option (String × String) → Option (String × String)
with_first c none = none
with_first c (some (s, t)) = some (c ∷ s, t)

-- The text before the first space and the text after it; `none` where there is no space.
abbrev pub split_space : String → Option (String × String)
split_space [] = none
split_space (c ∷ s) =
    let rest = split_space s in if code c == 32 then some ([], s) else with_first c rest

abbrev is_space : ℕ → Bool
is_space c =
    c == 32
    || (leb 9 c && leb c 13)
    || c == 133
    || c == 160
    || c == 5760
    || (leb 8192 c && leb c 8202)
    || c == 8232
    || c == 8233
    || c == 8239
    || c == 8287
    || c == 12288

-- The spaces before a number; a line feed ends the scan without a number.
abbrev skip_spaces : String → Option String
skip_spaces [] = some []
skip_spaces (c ∷ s) =
    let rest = skip_spaces s in
    if code c == 10 then none else if is_space (code c) then rest else some (c ∷ s)

abbrev is_digit : ℕ → Bool
is_digit c = leb 48 c && leb c 57

-- The digits at the start of the text, on from the number that was read.
abbrev read_digits : ℕ → String → ℕ
read_digits n [] = n
read_digits n (c ∷ s) =
    let more = read_digits (n * 10 + (code c - 48)) s in if is_digit (code c) then more else n

abbrev unsigned : String → Option ℕ
unsigned [] = none
unsigned (c ∷ s) = if is_digit (code c) then some (read_digits 0 (c ∷ s)) else none

abbrev pub in_int64 : Option ℕ → Option ℤ
in_int64 none = none
in_int64 (some n) = if ltb n (2 ^ 63) then some (pos n) else none

abbrev pub negative_int64 : Option ℕ → Option ℤ
negative_int64 none = none
negative_int64 (some zero) = some (pos 0)
negative_int64 (some (suc n)) = if ltb n (2 ^ 63) then some (negsuc n) else none

abbrev signed : String → Option ℤ
signed [] = none
signed (c ∷ s) =
    if code c == 45
    then negative_int64 (unsigned s)
    else if code c == 43
    then in_int64 (unsigned s)
    else in_int64 (unsigned (c ∷ s))

abbrev signed_after : Option String → Option ℤ
signed_after none = none
signed_after (some s) = signed s

-- `none` is the error: no number, or one that is out of range.
unfoldable pub scan_int : String → Option ℤ
scan_int s = signed_after (skip_spaces s)

abbrev pub onto_first : Char → List String → List String
onto_first c nil = (c ∷ []) ▹ nil
onto_first c (s ▹ parts) = (c ∷ s) ▹ parts

-- `strings.Split(s, ".")`
abbrev pub split_dots : String → List String
split_dots [] = [] ▹ nil
split_dots (c ∷ s) =
    let parts = split_dots s in if code c == 46 then [] ▹ parts else onto_first c parts

first_part :
    (c : Char) (parts : List String)
    → (p : String) × (ps : List String) × (onto_first c parts ≡ p ▹ ps)
first_part c nil = (c ∷ [], nil, refl)
first_part c (s ▹ parts) = (c ∷ s, parts, refl)

-- There is one part at least.
pub split_dots_cons : (s : String) → (p : String) × (ps : List String) × (split_dots s ≡ p ▹ ps)
split_dots_cons [] = ([], nil, refl)
split_dots_cons (c ∷ s) = elim (Bool-cases (code c == 46)) [
  | inl dot ↦ ([], split_dots s, rw dot refl)
  | inr more ↦ let (p, ps, e) = first_part c (split_dots s) in (p, ps, rw more e)
]

-- The digits at the start of the text, and the text behind them.
abbrev number_then : ℕ → String → ℕ × String
number_then n [] = (n, [])
number_then n (c ∷ s) =
    let more = number_then (n * 10 + (code c - 48)) s in
    if is_digit (code c) then more else (n, c ∷ s)

-- `%d` of `fmt.Sscanf` for a number without a sign.
abbrev pub scan_number : String → Option (ℕ × String)
scan_number [] = none
scan_number (c ∷ s) = if is_digit (code c) then some (number_then 0 (c ∷ s)) else none

-- The text after a text that it begins with.
abbrev pub scan_text : String → String → Option String
scan_text [] s = some s
scan_text (c ∷ p) [] = none
scan_text (c ∷ p) (d ∷ s) = let rest = scan_text p s in if code c == code d then rest else none

abbrev whole_number : String → Option ℕ
whole_number [] = none
whole_number (c ∷ s) = digits_value 0 (c ∷ s)

-- `strconv.ParseInt(s, 10, 64)`
unfoldable pub parse_int64 : String → Option ℤ
parse_int64 [] = none
parse_int64 (c ∷ s) =
    if code c == 45
    then negative_int64 (whole_number s)
    else if code c == 43
    then in_int64 (whole_number s)
    else in_int64 (whole_number (c ∷ s))

-- `strings.HasSuffix`
abbrev pub has_suffix : String → String → Bool
has_suffix [] end = str_eq [] end
has_suffix (c ∷ s) end = str_eq (c ∷ s) end || has_suffix s end
