-- ===== src/Config/Settings/Reloaded.antt =====
-- `LoadFromDB` after `SaveToDB`, internal/config/dbconfig.go.
use picoaide.Prelude.{
  String, Bool, true, false, Option, some, ◌++◌, ◌≡◌, refl, sym, ap, fun_ext, ◌∙◌, eq_of_some,
  arith, Map, lookup, delete, lookup-delete, eq_iff,
}
use picoaide.Config.Types.{GlobalConfig}
use picoaide.Config.Values.{
  Json, format_bool, parse_bool, or_false, plain_values, config_to_kv, parsed_unless_empty,
  config_of, is_hidden,
}
use picoaide.Store.Db.{Db}
use picoaide.Store.Action.{err, ok, Store, ◌>>=◌, pure, exec, query, touch, calm}
use picoaide.Store.Action.Outcomes.{
  EndsAtomic, ends-bind, ends-exec, ends-weaken, given-EndsAtomic, touch-EndsAtomic,
  transaction-EndsAtomic,
}
use picoaide.Config.Settings.{MapOrder, without_web_password, save_to_db, visible, load_from_db}
use picoaide.Config.Settings.Written.{
  IsRead, written_skills, reloaded, over, tail_of, at_ldap_enabled, at_skills, config_to_kv-Written,
  config_to_kv-Distinct,
}
use picoaide.Store.Action.Calm.{Succeeds-calm}
use picoaide.Config.Settings.Success.{save_to_db-Succeeds}
use picoaide.Config.Settings.Saved.{or_else, lookup-visible, changes, save_values-Ends}

reads_bool : (b : Bool) → or_false (parse_bool (format_bool b)) ≡ b
reads_bool true = refl
reads_bool false = refl

plain_Reloaded :
    {S : Type 0} (json : Json S) (cfg : GlobalConfig S) (old : String → Option String)
    (security : Option String) (skills : String)
    → parsed_unless_empty json.unmarshal
        (over (tail_of cfg.web.ldap_enabled security skills) old "security")
      ≡ or_else cfg.security (parsed_unless_empty json.unmarshal (old "security"))
    → parsed_unless_empty json.unmarshal_skills
        (over (tail_of cfg.web.ldap_enabled security skills) old "skills")
      ≡ some (written_skills cfg.skills)
    → config_of json (over (plain_values cfg ++ tail_of cfg.web.ldap_enabled security skills) old)
      ≡ reloaded cfg (config_of json old)
unfolding config_of
plain_Reloaded json cfg old security skills e e' =
    rw (at_ldap_enabled cfg.web.ldap_enabled security skills (old "web.ldap_enabled")) (
      rw e (
        rw e' (
          rw (reads_bool cfg.ldap.whitelist_enabled) (
            rw (reads_bool cfg.oidc.whitelist_enabled)
              (rw (reads_bool cfg.web.debug_mode) (rw (reads_bool cfg.web.tls.enabled) refl))))))

pub config_to_kv-reloaded :
    {S : Type 0} (json : Json S) (cfg : GlobalConfig S) (is : IsRead json cfg) (kv : Map String)
    → config_to_kv json cfg ≡ some kv
    → (old : String → Option String)
    → config_of json (over kv old) ≡ reloaded cfg (config_of json old)
config_to_kv-reloaded json cfg is kv e old =
    let w = config_to_kv-Written json cfg is kv e in
    ap (λ values. config_of json (over values old)) w.values
    ∙ plain_Reloaded json cfg old w.security w.skills (w.security_read old) (
        at_skills json cfg.skills is.skills w.skills old cfg.web.ldap_enabled w.security
          w.skills_written)

-- What loading finds in a table in which `kv` has been saved over `settings`.
visible-saved :
    (kv order : Map String) (db db' : Db)
    → ((k : String) → lookup k order ≡ lookup k kv)
    → ((k : String) → lookup k db'.settings ≡ or_else (lookup k order) (lookup k db.settings))
    → (k : String)
    → lookup k (visible is_hidden (delete "web.password" db'.settings))
      ≡ over kv (λ k. lookup k (visible is_hidden db.settings)) k
visible-saved kv order db db' same saved k = ground (
  arith,
  same k,
  saved k,
  lookup-visible is_hidden k (delete "web.password" db'.settings),
  lookup-visible is_hidden k db.settings,
  lookup-delete "web.password" k db'.settings,
  eq_iff "web.password" k,
)

eq_of_ok : {A : Type 0} {a b : A} → ok a ≡ ok b → a ≡ b
eq_of_ok {a = a} e = ap (λ r. elim r [ ok x ↦ x | err _ ↦ a ]) e

abbrev pub loaded : {S : Type 0} → Json S → Db → GlobalConfig S
loaded json db = config_of json (λ k. lookup k (visible is_hidden db.settings))

pub load_from_db-calm :
    {S : Type 0} (json : Json S) (db : Db) → (load_from_db json (calm db)).0 ≡ ok (loaded json db)
unfolding load_from_db ◌>>=◌ touch exec query pure
load_from_db-calm json db = refl

-- What a saving leaves behind: what loading then gives, the history, and no other table.
abbrev pub IsReloaded :
    {S : Type 0}
    → Json S
    → MapOrder
    → GlobalConfig S
    → GlobalConfig S
    → Map String
    → String
    → Db
    → Db
    → Type 0
IsReloaded json order cfg before kv changed_by db db' =
    ((load_from_db json (calm db')).0 ≡ ok (reloaded cfg before))
    × (db'.settings_history
        ≡ db.settings_history ++ changes changed_by (order.range kv) db.settings)
    × (db' ≡ record db { settings = db'.settings; settings_history = db'.settings_history })

save_to_db-EndsAtomic :
    {S : Type 0} (json : Json S) (order : MapOrder) (cfg before : GlobalConfig S) (kv : Map String)
    (changed_by : String) (s : Store)
    → IsRead json cfg
    → config_to_kv json cfg ≡ some kv
    → (load_from_db json (calm s.db)).0 ≡ ok before
    → EndsAtomic
        (save_to_db json order cfg changed_by)
        s
        (λ _ db'. IsReloaded json order cfg before kv changed_by s.db db')
unfolding save_to_db
save_to_db-EndsAtomic json order cfg before kv changed_by s is written e = touch-EndsAtomic _ λ n.
    given-EndsAtomic (config_to_kv json cfg) _ λ kv' written'. transaction-EndsAtomic λ m.
      ends-bind (
        ends-weaken
          (λ _ t saved. ends-exec without_web_password λ i. (
            load_from_db-calm json (without_web_password t.db)
                ∙ ap ok (
                    ap (config_of json) (
                      fun_ext (
                        visible-saved kv' (order.range kv') s.db t.db (order.range_lookup kv')
                          saved.0))
                    ∙ config_to_kv-reloaded json cfg is kv' written' _
                    ∙ ap (reloaded cfg) (eq_of_ok (sym (load_from_db-calm json s.db) ∙ e))),
            saved.1
                ∙ ap
                    (λ m. s.db.settings_history ++ changes changed_by (order.range m) s.db.settings)
                    (eq_of_some (sym written' ∙ written)),
            ap without_web_password saved.2,
          ))
          (save_values-Ends changed_by (order.range kv') _
            (order.range_distinct kv' (config_to_kv-Distinct json cfg is kv' written'))))

-- When encoding/json writes `cfg` as `kv` and reads back what it writes for it: SaveToDB succeeds where
-- every statement does, and wherever it fails leaves the tables as they were. When it succeeds, LoadFromDB
-- then gives `cfg` with the time-out of cron jobs cleared, with the value from before where LDAPEnabled or
-- Security is nil, and with the default sources where there are none; the history has one new entry for
-- each value that replaced another, in the order in which the values were ranged over, and no other table
-- changes.
pub save_to_db_lem :
    {S : Type 0} (json : Json S) (order : MapOrder) (cfg before : GlobalConfig S) (kv : Map String)
    (changed_by : String) (s : Store)
    → IsRead json cfg
    → config_to_kv json cfg ≡ some kv
    → (load_from_db json (calm s.db)).0 ≡ ok before
    → ((save_to_db json order cfg changed_by (calm s.db)).0 ≡ ok tt)
      × EndsAtomic
          (save_to_db json order cfg changed_by)
          s
          (λ _ db'. IsReloaded json order cfg before kv changed_by s.db db')
save_to_db_lem json order cfg before kv changed_by s is written e = (
  Succeeds-calm (save_to_db-Succeeds json order cfg changed_by kv written) s.db,
  save_to_db-EndsAtomic json order cfg before kv changed_by s is written e,
)
