-- ===== src/Config/Settings/Defaults.antt =====
-- `InitDBDefaults` of internal/config/defaults.go: the first start and the later ones.
use picoaide.Prelude.{
  String, Option, none, some, [], ◌∷◌, if◌then◌else◌, str_eq, eq_iff, eq_of_some, ◌≡◌, refl, sym,
  ap, fun_ext, ◌∙◌, arith, Map, lookup, lookup-insert,
}
use picoaide.Store.Db.{Db}
use picoaide.Store.Action.{ok, Store, calm}
use picoaide.Store.Action.Outcomes.{
  Ends, EndsAtomic, ends-pure, ends-weaken, exec_then, given_then, touch-EndsAtomic,
  transaction-EndsAtomic,
}
use picoaide.Config.Types.{default_global_config}
use picoaide.Config.Values.{Json, config_to_kv, config_of, is_hidden}
use picoaide.Config.Settings.{
  MapOrder, put_if_missing, insert_missing, init_db_defaults, visible, load_from_db,
}
use picoaide.Store.Action.Calm.{Succeeds-calm}
use picoaide.Config.Settings.Success.{init_db_defaults-Succeeds}
use picoaide.Config.Settings.Saved.{or_else, lookup-visible}
use picoaide.Config.Settings.Written.{IsRead, over}
use picoaide.Config.Settings.Reloaded.{config_to_kv-reloaded, load_from_db-calm}

-- Values that stand in the table stay, and no other table changes.
abbrev AreFilled : Map String → Db → Db → Type 0
AreFilled kv db db' =
    ((k : String) → lookup k db'.settings ≡ or_else (lookup k db.settings) (lookup k kv))
    × (db' ≡ record db { settings = db'.settings })

put_if_missing-lookup :
    (key value k : String) (db : Db)
    → lookup k (put_if_missing key value db).settings
      ≡ or_else (lookup k db.settings) (if str_eq key k then some value else none)
put_if_missing-lookup key value k db =
    ground (arith, lookup-insert key k value db.settings, eq_iff key k)

put_if_missing-rest :
    (key value : String) (db : Db)
    → put_if_missing key value db ≡ record db { settings = (put_if_missing key value db).settings }
put_if_missing-rest key value db = by_old (lookup key db.settings) refl
  where
    by_old :
        (o : Option String)
        → lookup key db.settings ≡ o
        → put_if_missing key value db
          ≡ record db { settings = (put_if_missing key value db).settings }
    by_old none e = rw (e, put_if_missing) refl
    by_old (some v) e = rw (e, put_if_missing) refl

fill :
    (key value k : String) (kv : Map String) (old : Option String)
    → or_else (or_else old (if str_eq key k then some value else none)) (lookup k kv)
      ≡ or_else old (lookup k ((key, value) ∷ kv))
fill key value k kv old = ground arith

insert_missing-Ends :
    (kv : Map String) (s : Store) → Ends (insert_missing kv) s (λ _ s'. AreFilled kv s.db s'.db)
unfolding insert_missing
insert_missing-Ends [] s = ends-pure tt (λ k. nothing_more (lookup k s.db.settings), refl)
  where
    nothing_more : (o : Option String) → o ≡ or_else o none
    nothing_more none = refl
    nothing_more (some v) = refl
insert_missing-Ends ((key, value) ∷ kv) s = exec_then (put_if_missing key value) λ n.
    ends-weaken
      (λ _ t (filled, rest). (
        λ k.
            filled k
            ∙ ap (λ o. or_else o (lookup k kv)) (put_if_missing-lookup key value k s.db)
            ∙ fill key value k kv (lookup k s.db.settings),
        rest
            ∙ ap {A = Db} (λ db. record db { settings = t.db.settings })
                (put_if_missing-rest key value s.db),
      ))
      (insert_missing-Ends kv _)

-- An empty table is filled with the values.
visible-filled :
    (kv order : Map String) (db db' : Db)
    → ((k : String) → lookup k order ≡ lookup k kv)
    → ((k : String) → lookup k db'.settings ≡ or_else (lookup k db.settings) (lookup k order))
    → db.settings ≡ []
    → (k : String) → lookup k (visible is_hidden db'.settings) ≡ over kv (λ k. none) k
visible-filled kv order db db' same filled empty k =
    ground (arith, same k, filled k, ap (lookup k) empty, lookup-visible is_hidden k db'.settings)

module _ {S : Type 0} (json : Json S) (order : MapOrder) (security : S) (s : Store) where
  filled-EndsAtomic :
      (kv : Map String)
      → config_to_kv json (default_global_config security) ≡ some kv
      → EndsAtomic (init_db_defaults json order security) s (λ _ db'.
        ((key : String)
          → lookup key db'.settings ≡ or_else (lookup key s.db.settings) (lookup key kv))
        × (db' ≡ record s.db { settings = db'.settings }))
  unfolding init_db_defaults
  filled-EndsAtomic kv written = touch-EndsAtomic _ λ n. transaction-EndsAtomic λ m.
      given_then (config_to_kv json (default_global_config security)) _ λ kv' written'.
        ends-weaken
          (λ _ t (filled, rest). (
            λ key.
                filled key
                ∙ ap (or_else (lookup key s.db.settings)) (
                    order.range_lookup kv' key
                    ∙ ap (lookup key) (eq_of_some (sym written' ∙ written))),
            rest,
          ))
          (insert_missing-Ends (order.range kv') _)

  fresh-EndsAtomic :
      IsRead json (default_global_config security)
      → s.db.settings ≡ []
      → EndsAtomic
          (init_db_defaults json order security)
          s
          (λ _ db'. (load_from_db json (calm db')).0 ≡ ok (default_global_config security))
  unfolding init_db_defaults config_of
  fresh-EndsAtomic is empty = touch-EndsAtomic _ λ n. transaction-EndsAtomic λ m.
      given_then (config_to_kv json (default_global_config security)) _ λ kv written.
        ends-weaken
          (λ _ t (filled, _).
            load_from_db-calm json t.db
            ∙ ap ok (
                ap (config_of json) (
                  fun_ext (
                    visible-filled kv (order.range kv) s.db t.db (order.range_lookup kv) filled
                      empty))
                ∙ config_to_kv-reloaded json (default_global_config security) is kv written
                    (λ k. none)))
          (insert_missing-Ends (order.range kv) _)

  -- When encoding/json writes the default configuration as `kv`: InitDBDefaults succeeds where every
  -- statement does, and wherever it fails leaves the tables as they were. When it succeeds, it leaves
  -- under each key what stood there, and the value of `kv` where nothing stood; no other table changes.
  pub init_db_defaults_lem :
      (kv : Map String)
      → config_to_kv json (default_global_config security) ≡ some kv
      → ((init_db_defaults json order security (calm s.db)).0 ≡ ok tt)
        × EndsAtomic (init_db_defaults json order security) s (λ _ db'.
          ((key : String)
            → lookup key db'.settings ≡ or_else (lookup key s.db.settings) (lookup key kv))
          × (db' ≡ record s.db { settings = db'.settings }))
  init_db_defaults_lem kv written = (
    Succeeds-calm (init_db_defaults-Succeeds json order security kv written) s.db,
    filled-EndsAtomic kv written,
  )

  -- When encoding/json writes the default configuration as `kv` and reads back what it writes, and the
  -- table of settings is empty: InitDBDefaults succeeds where every statement does, and wherever it
  -- fails leaves the tables as they were. When it succeeds, LoadFromDB then gives the default
  -- configuration.
  pub init_db_defaults-fresh :
      (kv : Map String)
      → config_to_kv json (default_global_config security) ≡ some kv
      → IsRead json (default_global_config security)
      → s.db.settings ≡ []
      → ((init_db_defaults json order security (calm s.db)).0 ≡ ok tt)
        × EndsAtomic
            (init_db_defaults json order security)
            s
            (λ _ db'. (load_from_db json (calm db')).0 ≡ ok (default_global_config security))
  init_db_defaults-fresh kv written is empty = (
    Succeeds-calm (init_db_defaults-Succeeds json order security kv written) s.db,
    fresh-EndsAtomic is empty,
  )
