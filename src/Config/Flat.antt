-- ===== src/Config/Flat.antt =====
-- internal/config/flatten.go: nested maps as texts under keys with dots, and back. A map that a call
-- changes in place is its result; the entries of a map stand in the order that `range` takes.
pub mod Ways
pub mod Flattened
pub mod Top
pub mod Texts
pub mod Nested
pub mod Built
pub mod Formed
pub mod Rebuilt
use picoaide.Prelude.{
  ◌+◌, ℤ, pos, negsuc, String, Bool, ◌||◌, ◌&&◌, Option, none, some, List, [], ◌∷◌, if◌then◌else◌,
  str_eq, Map, insert, decimal, ◌+++◌, split_dots, parse_int64, has_suffix,
}
use picoaide.Util.Tree.{Value, leaf, node, Entries, empty, entry, get, put}
use picoaide.Config.Values.{format_bool, parse_bool}

-- An `interface{}` that is not a map: F is float64, A the slices.
pub data Scalar (F A : Type 0) : Type 0 where
  null : Scalar F A
  str : String → Scalar F A
  integer : ℤ → Scalar F A
  float : F → Scalar F A
  boolean : Bool → Scalar F A
  slice : A → Scalar F A

abbrev pub Nested : Type 0 → Type 0 → Type 0
Nested F A = Entries (Scalar F A)

-- encoding/json, and fmt's `%v` of a float64; `none` is the error.
pub record RawJson (F A : Type 0) : Type 0 where
  pub marshal : Value (Scalar F A) → Option String
  pub unmarshal : String → Option (Value (Scalar F A))
  pub format_float : F → String

-- `strconv.FormatInt(n, 10)`
abbrev pub format_int : ℤ → String
format_int (pos n) = decimal n
format_int (negsuc n) = "-" +++ decimal (n + 1)

abbrev pub is_blob_key : String → Bool
is_blob_key key = str_eq key "security" || str_eq key "skills"

module _ {F A : Type 0} (json : RawJson F A) where
  -- The entry that a value of no map makes: none for a slice that cannot be written.
  abbrev pub scalar_text : Scalar F A → Option String
  scalar_text null = some ""
  scalar_text (str s) = some s
  scalar_text (integer n) = some (format_int n)
  scalar_text (float x) = some (json.format_float x)
  scalar_text (boolean b) = some (format_bool b)
  scalar_text (slice a) = json.marshal (leaf (slice a))

  -- if err == nil { result[key] = string(b) }
  abbrev pub put_text : String → Option String → Map String → Map String
  put_text key none result = result
  put_text key (some s) result = insert key s result

  abbrev pub full_key : String → String → String
  full_key prefix key = if str_eq prefix "" then key else prefix +++ ("." +++ key)

  unfoldable mutual
    pub flatten_recursive : Nested F A → String → Map String → Map String
    flatten_recursive empty prefix result = result
    flatten_recursive (entry key val data_) prefix result =
        let blob = put_text key (json.marshal val) result in
        let nested = flatten_value val (full_key prefix key) result in
        flatten_recursive data_ prefix
          (if str_eq prefix "" && is_blob_key key then blob else nested)

    pub flatten_value : Value (Scalar F A) → String → Map String → Map String
    flatten_value (leaf v) key result = put_text key (scalar_text v) result
    flatten_value (node es) key result = flatten_recursive es key result

  unfoldable pub flatten_config : Nested F A → Map String
  flatten_config data_ = flatten_recursive data_ "" []

abbrev pub is_bool_key : String → Bool
is_bool_key key =
    str_eq key "web.ldap_enabled"
    || str_eq key "web.tls.enabled"
    || str_eq key "web.debug_mode"
    || str_eq key "ldap.whitelist_enabled"
    || str_eq key "oidc.whitelist_enabled"

abbrev pub is_canonical : String → Option ℤ → Option ℤ
is_canonical value none = none
is_canonical value (some n) = if str_eq (format_int n) value then some n else none

module _ {F A : Type 0} where
  abbrev pub bool_or_text : String → Option Bool → Scalar F A
  bool_or_text value none = str value
  bool_or_text value (some b) = boolean b

  abbrev pub int_or_else : Option ℤ → Scalar F A → Scalar F A
  int_or_else none other = other
  int_or_else (some n) other = integer n

  -- `typedVal`
  abbrev pub typed_value : String → String → Scalar F A
  typed_value key value =
      if is_bool_key key
      then bool_or_text value (parse_bool value)
      else int_or_else (is_canonical value (parse_int64 value))
          (if has_suffix key ".enabled" then bool_or_text value (parse_bool value) else str value)

  -- One step down: a value that is no map is passed over, and the map above it goes on.
  abbrev pub put_below :
      String → Nested F A → (Nested F A → Nested F A) → Option (Value (Scalar F A)) → Nested F A
  put_below p es f none = put p (node (f empty)) es
  put_below p es f (some (leaf a)) = f es
  put_below p es f (some (node sub)) = put p (node (f sub)) es

  -- The way down to the last part.
  abbrev pub put_nested : List String → Value (Scalar F A) → Nested F A → Nested F A
  put_nested [] v es = es
  put_nested (p ∷ []) v es = put p v es
  put_nested (p ∷ q ∷ ps) v es = put_below p es (put_nested (q ∷ ps) v) (get p es)

  abbrev pub put_parsed : String → Option (Value (Scalar F A)) → Nested F A → Nested F A
  put_parsed key none es = es
  put_parsed key (some v) es = put key v es

  abbrev pub put_value : RawJson F A → String → String → Nested F A → Nested F A
  put_value json key value result =
      if is_blob_key key
      then put_parsed key (json.unmarshal value) result
      else put_nested (split_dots key) (leaf (typed_value key value)) result

  -- The loop over the flat map.
  unfoldable pub build_onto : RawJson F A → Map String → Nested F A → Nested F A
  build_onto json [] result = result
  build_onto json ((key, value) ∷ flat) result =
      build_onto json flat (put_value json key value result)

  unfoldable pub build_nested : RawJson F A → Map String → Nested F A
  build_nested json flat = build_onto json flat empty
