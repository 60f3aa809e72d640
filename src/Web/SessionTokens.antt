-- ===== src/Web/SessionTokens.antt =====
-- The session tokens of internal/web/server.go: `createSessionToken` and `parseSessionToken`. The
-- signature, the hex digest of HMAC-SHA256 under the server's secret, is a parameter. Moments are
-- seconds since 1970.
pub mod Signed
use Prim.Native.Char.{Char, code}
use Prim.Native.String.{String, [], ◌∷◌}
use picoaide.Prelude.{
  ℕ, ◌+◌, ◌-◌, ◌^◌, Bool, true, false, Option, none, some, if◌then◌else◌, ltb, ◌==◌, str_eq,
  decimal, digits_value, ◌+++◌,
}

-- 24 hours
abbrev pub session_max_age : ℕ
session_max_age = 86400

abbrev pub with_first : Char → Option (String × String) → Option (String × String)
with_first c none = none
with_first c (some (s, t)) = some (c ∷ s, t)

-- The text before the first colon and the text behind it.
abbrev pub split_colon : String → Option (String × String)
split_colon [] = none
split_colon (c ∷ s) =
    let rest = split_colon s in if code c == 58 then some ([], s) else with_first c rest

abbrev pub in_range : Option ℕ → Option ℕ
in_range none = none
in_range (some n) = if ltb n (2 ^ 63) then some n else none

-- `strconv.ParseInt(s, 10, 64)` where the text has no sign, which it has in the tokens that are signed.
abbrev pub parse_int : String → Option ℕ
parse_int [] = none
parse_int (c ∷ s) = in_range (digits_value 0 (c ∷ s))

abbrev pub fresh : String → ℕ → Option ℕ → Option String
fresh username now none = none
fresh username now (some ts) = if ltb session_max_age (now - ts) then none else some username

module _ (sign : String → String) where
  unfoldable pub create_session_token : String → ℕ → String
  create_session_token username now =
      username +++ (":" +++ (decimal now +++ (":" +++ sign (username +++ (":" +++ decimal now)))))

  abbrev pub verified : String → ℕ → Option (String × String) → Option String
  verified username now none = none
  verified username now (some (ts, sig)) =
      if str_eq sig (sign (username +++ (":" +++ ts)))
      then fresh username now (parse_int ts)
      else none

  abbrev pub split_token : ℕ → Option (String × String) → Option String
  split_token now none = none
  split_token now (some (username, rest)) = verified username now (split_colon rest)

  -- The username of a token that is signed and not too old.
  unfoldable pub parse_session_token : String → ℕ → Option String
  parse_session_token token now = split_token now (split_colon token)
