-- ===== src/Config/Tests.antt =====
-- Runs on concrete settings.
use picoaide.Prelude.{
  false, Option, none, some, [], ◌∷◌, String, Map, str_eq, ◌≡◌, refl, sym, ap, eq_of_some, arith,
}
use picoaide.Store.Db.{Db, empty_db}
use picoaide.Store.Action.{ok, ◌>>=◌, pure, exec, query, touch, given, transaction, calm}
use picoaide.Store.Action.Outcomes.{EndsAtomic}
use picoaide.Config.Types.{GlobalConfig, default_skills, default_global_config}
use picoaide.Config.Values.{Json, config_to_kv, config_of}
use picoaide.Config.Settings.{MapOrder, save_values, save_to_db, init_db_defaults, load_from_db}
use picoaide.Config.Settings.Saved.{or_else}
use picoaide.Config.Settings.Written.{IsRead, reloaded}
use picoaide.Config.Settings.Reloaded.{IsReloaded, loaded, save_to_db_lem}
use picoaide.Config.Settings.Defaults.{init_db_defaults_lem, init_db_defaults-fresh}
use picoaide.Prelude.{lookup}

abbrev toy : Json (Unit {0})
toy = record {
  marshal = λ _. some "{}";
  unmarshal = λ _. some tt;
  marshal_skills = λ _. some "skills";
  unmarshal_skills = λ _. some default_skills;
}

abbrev in_order : MapOrder
in_order = record { range = λ m. m; range_lookup = λ m k. refl; range_distinct = λ m d. d }

-- The default without LDAP and without a model list.
abbrev bare : GlobalConfig (Unit {0})
bare = record (default_global_config tt) { security = none }

abbrev used : Db
used = record empty_db {
  settings =
      ("web.ldap_enabled", "false")
      ∷ ("security", "{}")
      ∷ ("users_root", "/home")
      ∷ ("web.password", "x")
      ∷ [];
}

toy-IsRead : IsRead toy bare
toy-IsRead = record {
  security = record {
    text = λ _ m. ap (λ t. str_eq t "") (sym (eq_of_some m));
    read = λ e _. absurd (ground (arith, e));
  };
  skills = record { text = λ m. ap (λ t. str_eq t "") (sym (eq_of_some m)); read = λ _. refl };
}

toy-IsRead_default : IsRead toy (default_global_config tt)
toy-IsRead_default = record {
  security = record {
    text = λ _ m. ap (λ t. str_eq t "") (sym (eq_of_some m));
    read = λ _ _. refl;
  };
  skills = record { text = λ m. ap (λ t. str_eq t "") (sym (eq_of_some m)); read = λ _. refl };
}

abbrev kv_of : Option (Map String) → Map String
kv_of none = []
kv_of (some kv) = kv

save_to_db_lem_example :
    ((save_to_db toy in_order bare "root" (calm used)).0 ≡ ok tt)
    × EndsAtomic (save_to_db toy in_order bare "root") (calm used) (λ _ db'.
      IsReloaded toy in_order bare
        (loaded toy used)
        (kv_of (config_to_kv toy bare))
        "root"
        used
        db')
unfolding config_to_kv load_from_db ◌>>=◌ touch exec query pure
save_to_db_lem_example =
    save_to_db_lem toy in_order bare (loaded toy used) (kv_of (config_to_kv toy bare)) "root"
      (calm used) toy-IsRead refl refl

init_db_defaults_lem_example :
    ((init_db_defaults toy in_order tt (calm used)).0 ≡ ok tt)
    × EndsAtomic (init_db_defaults toy in_order tt) (calm used) (λ _ db'.
      ((key : String)
        → lookup key db'.settings
          ≡ or_else
              (lookup key used.settings)
              (lookup key (kv_of (config_to_kv toy (default_global_config tt)))))
      × (db' ≡ record used { settings = db'.settings }))
unfolding config_to_kv
init_db_defaults_lem_example =
    init_db_defaults_lem toy in_order tt (calm used)
      (kv_of (config_to_kv toy (default_global_config tt))) refl

init_db_defaults-fresh_example :
    ((init_db_defaults toy in_order tt (calm empty_db)).0 ≡ ok tt)
    × EndsAtomic
        (init_db_defaults toy in_order tt)
        (calm empty_db)
        (λ _ db'. (load_from_db toy (calm db')).0 ≡ ok (default_global_config tt))
unfolding config_to_kv
init_db_defaults-fresh_example =
    init_db_defaults-fresh toy in_order tt (calm empty_db)
      (kv_of (config_to_kv toy (default_global_config tt))) refl toy-IsRead_default refl

-- What a saving that succeeds leaves behind: nil brings back what stood in the table, and the text of
-- the obsolete password is gone.
saves :
    (save_to_db toy in_order bare "root" (calm used)).1.db.settings_history
    ≡ record { key = "users_root"; old_value = "/home"; new_value = "./users"; changed_by = "root" }
      ∷ []
unfolding save_to_db save_values config_to_kv transaction given ◌>>=◌ touch exec query pure
saves = refl

nil_comes_back : (reloaded bare (loaded toy used)).web.ldap_enabled ≡ some false
unfolding config_of
nil_comes_back = refl
