-- ===== src/Config/Raw/Saved.antt =====
-- `SaveRawToDB` of internal/config/dbconfig.go: the settings after nested maps were saved.
use picoaide.Prelude.{
  String, Bool, true, false, ◌&&◌, Option, none, some, [], ◌∷◌, ◌++◌, if◌then◌else◌, str_eq, eq_iff,
  ◌≡◌, refl, ap, ◌∙◌, inl, inr, arith, Bool-cases, Map, lookup, delete, Distinct, insert-Distinct,
  lookup-delete,
}
use picoaide.Store.Action.{ok, ◌>>◌, Store, calm}
use picoaide.Store.Action.Outcomes.{
  EndsAtomic, ends-bind, ends-exec, ends-weaken, touch-EndsAtomic, transaction-EndsAtomic,
}
use picoaide.Store.Action.Calm.{
  Succeeds, Succeeds-bind, Succeeds-exec, Succeeds-touch, Succeeds-transaction, Succeeds-calm,
}
use picoaide.Config.Settings.Success.{save_values-Succeeds}
use picoaide.Util.Tree.{Value, leaf, node, empty, entry}
use picoaide.Config.Values.{is_internal_setting_key, is_hidden}
use picoaide.Config.Settings.{MapOrder, save_value, save_values, without_web_password}
use picoaide.Config.Settings.Saved.{or_else, agree, changes, save_values-Ends}
use picoaide.Config.Flat.{
  Scalar, Nested, RawJson, is_blob_key, scalar_text, put_text, full_key, flatten_recursive,
  flatten_value, flatten_config,
}
use picoaide.Config.Flat.Flattened.{KeyedTop}
use picoaide.Config.Flat.Texts.{text_at, flatten_config-deep_get}
use picoaide.Config.Raw.{remove_fixed_config_fields, save_shown, save_raw_to_db}

-- The entries that are not skipped.
abbrev pub shown : Map String → Map String
shown [] = []
shown ((k, v) ∷ kv) = let rest = shown kv in if is_hidden k then rest else (k, v) ∷ rest

lookup-shown :
    (k : String) (kv : Map String)
    → lookup k (shown kv) ≡ (if is_hidden k then none else lookup k kv)
lookup-shown k [] = ground arith
lookup-shown k ((j, v) ∷ kv) = ground (arith, agree is_hidden j k, lookup-shown k kv)

shown-Distinct : (kv : Map String) → Distinct kv → Distinct (shown kv)
shown-Distinct [] d = tt
shown-Distinct ((k, v) ∷ kv) (new, d) = elim (Bool-cases (is_hidden k)) [
  | inl hidden ↦ rw hidden (shown-Distinct kv d)
  | inr plain ↦ rw plain (
    lookup-shown k kv ∙ ap (λ b. if b then none else lookup k kv) plain ∙ new,
    shown-Distinct kv d,
  )
]

save_shown-save_values :
    (changed_by : String) (kv : Map String)
    → save_shown changed_by kv ≡ save_values changed_by (shown kv)
unfolding save_shown save_values
save_shown-save_values changed_by [] = refl
save_shown-save_values changed_by ((k, v) ∷ kv) = elim (Bool-cases (is_hidden k)) [
  | inl hidden ↦ rw hidden (save_shown-save_values changed_by kv)
  | inr plain ↦
      rw plain
        (ap (λ rest. save_value k v changed_by >> rest) (save_shown-save_values changed_by kv))
]

if-Distinct :
    (b : Bool) (kv kv' : Map String) → Distinct kv → Distinct kv' → Distinct (if b then kv else kv')
if-Distinct true kv kv' d d' = d
if-Distinct false kv kv' d d' = d'

-- The texts of `flat` over those of the table, as a key sees them.
shown_over :
    (key : String) (flat order before after : Map String) (text : Option String)
    → lookup key order ≡ lookup key flat
    → lookup key flat ≡ text
    → lookup key after ≡ or_else (lookup key (shown order)) (lookup key before)
    → lookup key (delete "web.password" after) ≡ (
        if str_eq "web.password" key
        then none
        else if is_internal_setting_key key
        then lookup key before
        else or_else text (lookup key before))
shown_over key flat order before after text same flat_ saved = ground (
  arith,
  same,
  flat_,
  saved,
  lookup-shown key order,
  lookup-delete "web.password" key after,
  eq_iff "web.password" key,
  eq_iff key "web.password",
)

module _ {F A : Type 0} (json : RawJson F A) where
  put_text-Distinct :
      (k : String) (o : Option String) (kv : Map String)
      → Distinct kv
      → Distinct (put_text json k o kv)
  put_text-Distinct k none kv d = d
  put_text-Distinct k (some s) kv d = insert-Distinct k s kv d

  mutual
    unfolding flatten_recursive flatten_value

    flatten_recursive-Distinct :
        (es : Nested F A) (prefix : String) (kv : Map String)
        → Distinct kv
        → Distinct (flatten_recursive json es prefix kv)
    flatten_recursive-Distinct empty prefix kv d = d
    flatten_recursive-Distinct (entry k v es) prefix kv d = flatten_recursive-Distinct es prefix _ (
        if-Distinct (str_eq prefix "" && is_blob_key k) _ _
          (put_text-Distinct k (json.marshal v) kv d)
          (flatten_value-Distinct v (full_key json prefix k) kv d))

    flatten_value-Distinct :
        (v : Value (Scalar F A)) (key : String) (kv : Map String)
        → Distinct kv
        → Distinct (flatten_value json v key kv)
    flatten_value-Distinct (leaf a) key kv d = put_text-Distinct key (scalar_text json a) kv d
    flatten_value-Distinct (node es) key kv d = flatten_recursive-Distinct es key kv d

  save_raw_to_db-EndsAtomic :
      (order : MapOrder) (data_ : Nested F A) (changed_by : String) (s : Store)
      → KeyedTop (remove_fixed_config_fields data_)
      → EndsAtomic (save_raw_to_db json order data_ changed_by) s (λ _ db'.
        ((key : String)
          → lookup key db'.settings ≡ (
              if str_eq "web.password" key
              then none
              else if is_internal_setting_key key
              then lookup key s.db.settings
              else or_else
                  (text_at json (remove_fixed_config_fields data_) key)
                  (lookup key s.db.settings)))
        × (db'.settings_history
            ≡ s.db.settings_history
              ++ changes changed_by
                  (shown (order.range (flatten_config json (remove_fixed_config_fields data_))))
                  s.db.settings)
        × (db' ≡ record s.db { settings = db'.settings; settings_history = db'.settings_history }))
  unfolding save_raw_to_db flatten_config
  save_raw_to_db-EndsAtomic order data_ changed_by s h = touch-EndsAtomic _ λ n.
      transaction-EndsAtomic λ m. ends-bind (
        rw (save_shown-save_values changed_by (order.range flat)) (
          ends-weaken
            (λ _ t saved. ends-exec without_web_password λ i. (
              λ key.
                  shown_over key flat (order.range flat) s.db.settings t.db.settings _
                    (order.range_lookup flat key)
                    (flatten_config-deep_get json (remove_fixed_config_fields data_) key h)
                    (saved.0 key),
              saved.1,
              ap without_web_password saved.2,
            ))
            (save_values-Ends changed_by (shown (order.range flat)) _ (
              shown-Distinct (order.range flat) (
                order.range_distinct flat
                  (flatten_recursive-Distinct (remove_fixed_config_fields data_) "" [] tt))))))
    where
      flat : Map String
      flat = flatten_config json (remove_fixed_config_fields data_)

  save_raw_to_db-Succeeds :
      (order : MapOrder) (data_ : Nested F A) (changed_by : String)
      → Succeeds (save_raw_to_db json order data_ changed_by)
  unfolding save_raw_to_db
  save_raw_to_db-Succeeds order data_ changed_by =
      let flat = order.range (flatten_config json (remove_fixed_config_fields data_)) in
      Succeeds-bind Succeeds-touch λ _. Succeeds-transaction (
        rw (save_shown-save_values changed_by flat) (
          Succeeds-bind (save_values-Succeeds changed_by (shown flat))
            λ _. Succeeds-exec without_web_password))

  -- When the keys of the maps outside of the two that are stored as JSON are distinct, not empty and
  -- without dots: SaveRawToDB succeeds where every statement does, and wherever it fails leaves the tables
  -- as they were. When it succeeds, it leaves under each key what the nested maps, without their fixed
  -- fields, have there, and what stood there where they have nothing; the internal keys keep what they
  -- had, and the obsolete password is gone. The history has one new entry for each text that replaced
  -- another, and no other table changes.
  pub save_raw_to_db_lem :
      (order : MapOrder) (data_ : Nested F A) (changed_by : String) (s : Store)
      → KeyedTop (remove_fixed_config_fields data_)
      → ((save_raw_to_db json order data_ changed_by (calm s.db)).0 ≡ ok tt)
        × EndsAtomic (save_raw_to_db json order data_ changed_by) s (λ _ db'.
          ((key : String)
            → lookup key db'.settings ≡ (
                if str_eq "web.password" key
                then none
                else if is_internal_setting_key key
                then lookup key s.db.settings
                else or_else
                    (text_at json (remove_fixed_config_fields data_) key)
                    (lookup key s.db.settings)))
          × (db'.settings_history
              ≡ s.db.settings_history
                ++ changes changed_by
                    (shown (order.range (flatten_config json (remove_fixed_config_fields data_))))
                    s.db.settings)
          × (db'
              ≡ record s.db { settings = db'.settings; settings_history = db'.settings_history }))
  save_raw_to_db_lem order data_ changed_by s h = (
    Succeeds-calm (save_raw_to_db-Succeeds order data_ changed_by) s.db,
    save_raw_to_db-EndsAtomic order data_ changed_by s h,
  )
