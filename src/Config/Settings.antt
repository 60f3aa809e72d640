-- ===== src/Config/Settings.antt =====
-- The table of settings: `SaveToDB` and `LoadFromDB` of internal/config/dbconfig.go, and
-- `InitDBDefaults` of defaults.go.
pub mod Saved
pub mod Success
pub mod Written
pub mod Reloaded
pub mod Defaults
use picoaide.Prelude.{
  String, Bool, Option, none, some, [], ◌∷◌, ◌++◌, if◌then◌else◌, str_eq, ◌≡◌, Map, lookup, insert,
  delete, Distinct,
}
use picoaide.Store.Db.{Db}
use picoaide.Store.Action.{Action, ◌>>=◌, ◌>>◌, pure, query, exec, touch, given, transaction}
use picoaide.Config.Types.{GlobalConfig, default_global_config}
use picoaide.Config.Values.{Json, config_to_kv, config_of, is_hidden}

-- The order in which `range` takes a map's entries.
pub record MapOrder : Type 0 where
  pub range : Map String → Map String
  pub range_lookup : (m : Map String) (k : String) → lookup k (range m) ≡ lookup k m
  pub range_distinct : (m : Map String) → Distinct m → Distinct (range m)

-- INSERT INTO settings_history
abbrev pub add_history : String → String → String → String → Db → Db
add_history key old new changed_by db = record db {
  settings_history =
      db.settings_history
      ++ record { key = key; old_value = old; new_value = new; changed_by = changed_by } ∷ [];
}

-- INSERT OR REPLACE INTO settings
abbrev pub put_setting : String → String → Db → Db
put_setting key value db = record db { settings = insert key value db.settings }

abbrev pub save_over : String → String → String → Option String → Action (Unit {0})
save_over key value changed_by none = exec (put_setting key value)
save_over key value changed_by (some old) =
    if str_eq old value
    then pure tt
    else do exec (add_history key old value changed_by); exec (put_setting key value)

abbrev pub save_value : String → String → String → Action (Unit {0})
save_value key value changed_by = do
  existing ← query (λ db. lookup key db.settings)
  save_over key value changed_by existing

-- The loop over the values.
unfoldable pub save_values : String → Map String → Action (Unit {0})
save_values changed_by [] = pure tt
save_values changed_by ((key, value) ∷ kv) = do
  save_value key value changed_by
  save_values changed_by kv

-- DELETE FROM settings WHERE key = 'web.password'
abbrev pub without_web_password : Db → Db
without_web_password db = record db { settings = delete "web.password" db.settings }

unfoldable pub save_to_db :
    {S : Type 0} → Json S → MapOrder → GlobalConfig S → String → Action (Unit {0})
save_to_db json order cfg changed_by = do
  touch
  kv ← given (config_to_kv json cfg)
  transaction (do save_values changed_by (order.range kv); exec without_web_password)

-- INSERT OR IGNORE INTO settings
abbrev pub put_if_missing : String → String → Db → Db
put_if_missing key value db = elim (lookup key db.settings) [
  | none ↦ put_setting key value db
  | some old ↦ db
]

unfoldable pub insert_missing : Map String → Action (Unit {0})
insert_missing [] = pure tt
insert_missing ((key, value) ∷ kv) = do exec (put_if_missing key value); insert_missing kv

unfoldable pub init_db_defaults : {S : Type 0} → Json S → MapOrder → S → Action (Unit {0})
init_db_defaults json order security = do
  touch
  transaction (do
    kv ← given (config_to_kv json (default_global_config security))
    insert_missing (order.range kv))

-- The rows whose keys are not hidden, as a map; the keys of the table are distinct.
abbrev pub visible : (String → Bool) → Map String → Map String
visible hidden [] = []
visible hidden ((key, value) ∷ settings) =
    let rest = visible hidden settings in if hidden key then rest else insert key value rest

unfoldable pub load_from_db : {S : Type 0} → Json S → Action (GlobalConfig S)
load_from_db json = do
  touch
  settings ← query (λ db. db.settings)
  pure (config_of json (λ key. lookup key (visible is_hidden settings)))
