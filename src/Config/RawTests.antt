-- ===== src/Config/RawTests.antt =====
-- Runs on nested settings.
use picoaide.Prelude.{
  pos, String, true, none, some, [], ◌∷◌, ◌++◌, if◌then◌else◌, str_eq, ◌≡◌, refl, Map, lookup,
  decimal, parse_int64,
}
use picoaide.Store.Db.{Db, empty_db}
use picoaide.Store.Action.{ok, calm}
use picoaide.Store.Action.Outcomes.{EndsAtomic}
use picoaide.Util.Tree.{deep_get, leaf, node, empty, entry}
use picoaide.Config.Values.{is_internal_setting_key}
use picoaide.Config.Settings.{MapOrder}
use picoaide.Config.Settings.Saved.{or_else, changes}
use picoaide.Config.Flat.{
  null, str, integer, float, boolean, Nested, RawJson, flatten_config, build_onto, build_nested,
}
use picoaide.Config.Flat.Flattened.{Keyed, KeyedTop}
use picoaide.Config.Flat.Texts.{text_at}
use picoaide.Config.Raw.{remove_fixed_config_fields, save_raw_to_db}
use picoaide.Config.Raw.Saved.{shown, save_raw_to_db_lem}

-- A float64 is printed with an exponent.
abbrev toy : RawJson (Unit {0}) (Unit {0})
toy = record {
  marshal = λ _. some "{}";
  unmarshal = λ s. some (leaf (str s));
  format_float = λ _. "1e+06";
}

abbrev in_order : MapOrder
in_order = record { range = λ m. m; range_lookup = λ m k. refl; range_distinct = λ m d. d }

abbrev flat : Map String
flat =
    ("web.listen", ":80")
    ∷ ("web.debug_mode", "1")
    ∷ ("ldap.bind_password", "1000000")
    ∷ ("security", "{ }")
    ∷ []

built :
    build_nested toy flat
    ≡ entry "web"
        (node (entry "listen" (leaf (str ":80")) (entry "debug_mode" (leaf (boolean true)) empty)))
        (entry "ldap"
          (node (entry "bind_password" (leaf (integer (pos 1000000))) empty))
          (entry "security" (leaf (str "{ }")) empty))
unfolding build_nested build_onto decimal parse_int64
built = refl

-- What a browser sends back: every number has become a float64.
abbrev sent : Nested (Unit {0}) (Unit {0})
sent = entry "web" (node (entry "listen" (leaf (str ":80")) (entry "password" (leaf null) empty))) (
    entry "ldap" (node (entry "bind_password" (leaf (float tt)) empty))
      (entry "internal" (leaf null) empty))

abbrev used : Db
used = record empty_db {
  settings = ("ldap.bind_password", "1000000") ∷ ("internal.key", "k") ∷ ("web.password", "x") ∷ [];
}

sent-KeyedTop : KeyedTop (remove_fixed_config_fields sent)
unfolding KeyedTop Keyed
sent-KeyedTop = (
  refl,
  refl,
  refl,
  (refl, refl, refl, tt, tt),
  (refl, refl, refl, (refl, refl, refl, tt, tt), tt),
)

save_raw_to_db_lem_example :
    ((save_raw_to_db toy in_order sent "root" (calm used)).0 ≡ ok tt)
    × EndsAtomic (save_raw_to_db toy in_order sent "root") (calm used) (λ _ db'.
      ((key : String)
        → lookup key db'.settings ≡ (
            if str_eq "web.password" key
            then none
            else if is_internal_setting_key key
            then lookup key used.settings
            else or_else
                (text_at toy (remove_fixed_config_fields sent) key)
                (lookup key used.settings)))
      × (db'.settings_history
          ≡ []
            ++ changes "root"
                (shown (flatten_config toy (remove_fixed_config_fields sent)))
                used.settings)
      × (db' ≡ record used { settings = db'.settings; settings_history = db'.settings_history }))
save_raw_to_db_lem_example = save_raw_to_db_lem toy in_order sent "root" (calm used) sent-KeyedTop

-- A password of digits comes back as another text once a float64 has been printed.
password_changed : text_at toy (remove_fixed_config_fields sent) "ldap.bind_password" ≡ some "1e+06"
unfolding deep_get
password_changed = refl
