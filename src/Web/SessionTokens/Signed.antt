-- ===== src/Web/SessionTokens/Signed.antt =====
-- What `parseSessionToken` of internal/web/server.go accepts.
use Prim.Native.Char.{Char, code}
use Prim.Native.String.{String, [], ◌∷◌}
use picoaide.Prelude.{
  ℕ, ◌+◌, ◌-◌, ◌*◌, ◌^◌, ◌<◌, ◌≤◌, ◌≡◌, refl, sym, ap, ◌∙◌, inl, inr, Option, none, some, arith,
  if◌then◌else◌, ltb, leb, ◌==◌, eq_refl, decimal, digits_value, digits_value-decimal,
  decimal_not_empty, ◌+++◌, Bool-cases,
}
use text.Mathlib.TextLemmas.{nil-append, cons-append}
use picoaide.Web.SessionTokens.{
  session_max_age, with_first, split_colon, in_range, parse_int, create_session_token, fresh,
  verified, split_token, parse_session_token,
}

with_first-none : (c : Char) (o : Option (String × String)) → with_first c o ≡ none → o ≡ none
with_first-none c none e = refl
with_first-none c (some (s, t)) e = absurd (ground (arith, e))

-- A text without a colon is the text before the first colon.
split_colon-append :
    (s t : String) → split_colon s ≡ none → split_colon (s +++ (":" +++ t)) ≡ some (s, t)
split_colon-append [] t h =
    ap split_colon
      (nil-append (":" +++ t) ∙ cons-append ":" [] t ∙ ap (λ u. ":" ∷ u) (nil-append t))
split_colon-append (c ∷ s) t h = elim (Bool-cases (code c == 58)) [
  | inl colon ↦ absurd (ground (arith, h, colon))
  | inr other ↦
      ap split_colon (cons-append c s (":" +++ t))
      ∙ rw other (
          ap (with_first c)
            (split_colon-append s t (with_first-none c (split_colon s) (sym (rw other refl) ∙ h))))
]

-- Digits hold no colon.
split_colon-digits : (s : String) (n m : ℕ) → digits_value n s ≡ some m → split_colon s ≡ none
split_colon-digits [] n m e = refl
split_colon-digits (c ∷ s) n m e = elim (Bool-cases (leb (code c) 57)) [
  | inl low ↦ elim (Bool-cases (leb 48 (code c))) [
    | inl digit_ ↦
        let rest =
          split_colon-digits s (n * 10 + (code c - 48)) m (ground (arith, e, low, digit_)) in
        ground (arith, low, ap (with_first c) rest)
    | inr less ↦ absurd (ground (arith, e, less))
  ]
  | inr high ↦ absurd (ground (arith, e, high))
]

parse_int-digits :
    (s : String) (n : ℕ)
    → (s ≡ [] → ⊥)
    → digits_value 0 s ≡ some n
    → parse_int s ≡ in_range (some n)
parse_int-digits [] n full e = absurd (full refl)
parse_int-digits (c ∷ s) n full e = ap in_range e

in_range_small : (n : ℕ) → n < 2 ^ 63 → in_range (some n) ≡ some n
in_range_small n h = ground (arith, h)

module _ (sign : String → String) where
  -- A token that the server made for a name without a colon is accepted, for that name, until it is
  -- older than the maximum age.
  pub parse_session_token-create_session_token :
      (username : String) (made now : ℕ)
      → split_colon username ≡ none
      → made < 2 ^ 63
      → parse_session_token sign (create_session_token sign username made) now
        ≡ (if ltb session_max_age (now - made) then none else some username)
  unfolding parse_session_token create_session_token
  parse_session_token-create_session_token username made now plain small =
      let sig = sign (username +++ (":" +++ decimal made)) in
      let spelled = digits_value-decimal made in
      ap (split_token sign now) (split_colon-append username (decimal made +++ (":" +++ sig)) plain)
      ∙ ap (verified sign username now)
          (split_colon-append (decimal made) sig (split_colon-digits (decimal made) 0 made spelled))
      ∙ ap (λ b. if b then fresh username now (parse_int (decimal made)) else none) (eq_refl sig)
      ∙ ap (fresh username now) (
          parse_int-digits (decimal made) made (decimal_not_empty made) spelled
          ∙ in_range_small made small)

  -- What the token must be for the name to be accepted: the name, a moment not older than the
  -- maximum age, and the signature of the two.
  abbrev pub IsSigned : String → String → ℕ → Type 0
  IsSigned token username now =
      (rest : String) × (ts : String) × (made : ℕ) × (split_colon token ≡ some (username, rest))
      × (split_colon rest ≡ some (ts, sign (username +++ (":" +++ ts))))
      × (parse_int ts ≡ some made)
      × (now - made ≤ session_max_age)
