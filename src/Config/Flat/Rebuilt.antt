-- ===== src/Config/Flat/Rebuilt.antt =====
-- `flattenConfig` after `buildNested`, internal/config/flatten.go.
use picoaide.Prelude.{String, Option, if◌then◌else◌}
use picoaide.Config.Flat.{Nested, RawJson, is_blob_key, scalar_text, typed_value}
use picoaide.Config.Flat.Top.{blob_text}

module _ {F A : Type 0} (json : RawJson F A) where
  -- The text that the two make of a value.
  abbrev pub retext : String → String → Option String
  retext key value =
      if is_blob_key key
      then blob_text json (json.unmarshal value)
      else scalar_text json (typed_value key value)
