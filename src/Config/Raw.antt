-- ===== src/Config/Raw.antt =====
-- `LoadRawFromDB` and `SaveRawToDB` of internal/config/dbconfig.go: the settings as nested maps.
pub mod Saved
use picoaide.Prelude.{String, [], ◌∷◌, if◌then◌else◌, Map}
use picoaide.Store.Action.{Action, ◌>>=◌, ◌>>◌, pure, query, exec, touch, transaction}
use picoaide.Util.Tree.{get, remove, descend}
use picoaide.Config.Values.{is_hidden}
use picoaide.Config.Settings.{MapOrder, save_value, without_web_password, visible}
use picoaide.Config.Flat.{Nested, RawJson, flatten_config, build_nested}

unfoldable pub load_raw_from_db : {F A : Type 0} → RawJson F A → MapOrder → Action (Nested F A)
load_raw_from_db json order = do
  touch
  settings ← query (λ db. db.settings)
  pure (build_nested json (order.range (visible is_hidden settings)))

abbrev pub remove_fixed_config_fields : {F A : Type 0} → Nested F A → Nested F A
remove_fixed_config_fields data_ =
    let rest = remove "internal" data_ in descend "web" rest (get "web" rest) (remove "password")

-- The loop over the values: hidden keys are skipped.
unfoldable pub save_shown : String → Map String → Action (Unit {0})
save_shown changed_by [] = pure tt
save_shown changed_by ((key, value) ∷ flat) =
    let rest = save_shown changed_by flat in
    if is_hidden key then rest else do save_value key value changed_by; rest

unfoldable pub save_raw_to_db :
    {F A : Type 0} → RawJson F A → MapOrder → Nested F A → String → Action (Unit {0})
save_raw_to_db json order data_ changed_by = do
  touch
  transaction (do
    save_shown changed_by (order.range (flatten_config json (remove_fixed_config_fields data_)))
    exec without_web_password)
