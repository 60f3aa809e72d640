-- ===== src/Config/Settings/Success.antt =====
-- Where every statement succeeds, so do `SaveToDB` and `InitDBDefaults` of internal/config.
use picoaide.Prelude.{
  String, Option, none, some, [], ◌∷◌, str_eq, ◌≡◌, inl, inr, Bool-cases, Map, lookup,
}
use picoaide.Store.Action.Calm.{
  Succeeds, Succeeds-bind, Succeeds-pure, Succeeds-query, Succeeds-given, Succeeds-exec,
  Succeeds-touch, Succeeds-transaction,
}
use picoaide.Config.Types.{GlobalConfig, default_global_config}
use picoaide.Config.Values.{Json, config_to_kv}
use picoaide.Config.Settings.{
  MapOrder, add_history, put_setting, save_over, save_value, save_values, without_web_password,
  save_to_db, put_if_missing, insert_missing, init_db_defaults,
}

save_over-Succeeds :
    (key value changed_by : String) (o : Option String)
    → Succeeds (save_over key value changed_by o)
save_over-Succeeds key value changed_by none = Succeeds-exec (put_setting key value)
save_over-Succeeds key value changed_by (some old) = elim (Bool-cases (str_eq old value)) [
  | inl same ↦ rw same (Succeeds-pure tt)
  | inr other ↦ rw other (
      Succeeds-bind (Succeeds-exec (add_history key old value changed_by))
        λ _. Succeeds-exec (put_setting key value))
]

save_value-Succeeds : (key value changed_by : String) → Succeeds (save_value key value changed_by)
save_value-Succeeds key value changed_by =
    Succeeds-bind (Succeeds-query (λ db. lookup key db.settings))
      λ o. save_over-Succeeds key value changed_by o

pub save_values-Succeeds :
    (changed_by : String) (kv : Map String) → Succeeds (save_values changed_by kv)
unfolding save_values
save_values-Succeeds changed_by [] = Succeeds-pure tt
save_values-Succeeds changed_by ((key, value) ∷ kv) =
    Succeeds-bind (save_value-Succeeds key value changed_by) λ _. save_values-Succeeds changed_by kv

insert_missing-Succeeds : (kv : Map String) → Succeeds (insert_missing kv)
unfolding insert_missing
insert_missing-Succeeds [] = Succeeds-pure tt
insert_missing-Succeeds ((key, value) ∷ kv) =
    Succeeds-bind (Succeeds-exec (put_if_missing key value)) λ _. insert_missing-Succeeds kv

module _ {S : Type 0} (json : Json S) (order : MapOrder) where
  pub save_to_db-Succeeds :
      (cfg : GlobalConfig S) (changed_by : String) (kv : Map String)
      → config_to_kv json cfg ≡ some kv
      → Succeeds (save_to_db json order cfg changed_by)
  unfolding save_to_db
  save_to_db-Succeeds cfg changed_by kv written = Succeeds-bind Succeeds-touch λ _.
      Succeeds-bind (Succeeds-given (config_to_kv json cfg) kv written) λ kv'.
        Succeeds-transaction (
          Succeeds-bind (save_values-Succeeds changed_by (order.range kv'))
            λ _. Succeeds-exec without_web_password)

  pub init_db_defaults-Succeeds :
      (security : S) (kv : Map String)
      → config_to_kv json (default_global_config security) ≡ some kv
      → Succeeds (init_db_defaults json order security)
  unfolding init_db_defaults
  init_db_defaults-Succeeds security kv written = Succeeds-bind Succeeds-touch λ _.
      Succeeds-transaction (
        Succeeds-bind
          (Succeeds-given (config_to_kv json (default_global_config security)) kv written)
          λ kv'. insert_missing-Succeeds (order.range kv'))
