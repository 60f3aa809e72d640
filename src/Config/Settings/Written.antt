-- ===== src/Config/Settings/Written.antt =====
-- What `configToKV` of internal/config/dbconfig.go writes, and how it reads back.
use picoaide.Prelude.{
  String, Bool, true, false, Option, none, some, [], ◌∷◌, ◌++◌, map, if◌then◌else◌, str_eq, ◌≡◌,
  refl, sym, ap, ◌∙◌, eq_of_some, arith, ◌&&◌, Distinct, Map, lookup,
}
use picoaide.Config.Types.{RegistrySource, SkillsSourceWrapper, SkillsConfig, GlobalConfig}
use picoaide.Config.Values.{
  Json, parse_bool, plain_values, ldap_enabled_value, value_under, security_value, with_values,
  config_to_kv, parsed_unless_empty, with_default_sources, is_hidden,
}
use picoaide.Config.Settings.Saved.{or_else}

-- The fields that the tag `json:"-"` keeps out of the text.
abbrev pub without_auth_header : RegistrySource → RegistrySource
without_auth_header r = record r { auth_header = "" }

abbrev pub written_source : SkillsSourceWrapper → SkillsSourceWrapper
written_source w = record w {
  reg = elim w.reg [ none ↦ none | some r ↦ some (without_auth_header r) ];
}

abbrev pub written_skills : SkillsConfig → SkillsConfig
written_skills skills = record { repos = []; sources = map written_source skills.sources }

-- encoding/json reads back what it has written, which is never the empty text.
pub record IsSecurityRead {S : Type 0} (json : Json S) (x : Option S) : Type 0 where
  pub text : {y : S} {t : String} → x ≡ some y → json.marshal y ≡ some t → str_eq t "" ≡ false
  pub read : {y : S} {t : String} → x ≡ some y → json.marshal y ≡ some t → json.unmarshal t ≡ some y

pub record IsSkillsRead {S : Type 0} (json : Json S) (x : SkillsConfig) : Type 0 where
  pub text : {t : String} → json.marshal_skills x ≡ some t → str_eq t "" ≡ false
  pub read :
      {t : String}
      → json.marshal_skills x ≡ some t
      → json.unmarshal_skills t ≡ some (written_skills x)

-- What it does with the two fields of `cfg` that are stored as its text.
pub record IsRead {S : Type 0} (json : Json S) (cfg : GlobalConfig S) : Type 0 where
  pub security : IsSecurityRead json cfg.security
  pub skills : IsSkillsRead json cfg.skills

-- What saving `cfg` makes of the configuration `before`.
abbrev pub reloaded : {S : Type 0} → GlobalConfig S → GlobalConfig S → GlobalConfig S
reloaded cfg before = record cfg {
  web = record cfg.web { ldap_enabled = or_else cfg.web.ldap_enabled before.web.ldap_enabled };
  security = or_else cfg.security before.security;
  skills = with_default_sources (written_skills cfg.skills);
  timeout = record { cron_job = "" };
}

-- The values `kv` laid over the values `old`, as loading sees them.
abbrev pub over : Map String → (String → Option String) → String → Option String
over kv old key = if is_hidden key then none else or_else (lookup key kv) (old key)

abbrev pub security_entry : Option String → Map String
security_entry none = []
security_entry (some text) = ("security", text) ∷ []

-- The entries after the plain values.
abbrev pub tail_of : Option Bool → Option String → String → Map String
tail_of l security skills =
    ldap_enabled_value l ++ (security_entry security ++ (("skills", skills) ∷ []))

pub at_ldap_enabled :
    (l : Option Bool) (security : Option String) (skills : String) (old : Option String)
    → parsed_unless_empty parse_bool
        (or_else (lookup "web.ldap_enabled" (tail_of l security skills)) old)
      ≡ or_else l (parsed_unless_empty parse_bool old)
at_ldap_enabled none none skills old = refl
at_ldap_enabled none (some t) skills old = refl
at_ldap_enabled (some true) security skills old = refl
at_ldap_enabled (some false) security skills old = refl

-- What loading reads under "security" after nil or a text has been written there.
abbrev pub SecurityRead :
    {S : Type 0} → Json S → Option Bool → Option S → String → Option String → Type 0
SecurityRead {S} json l x skills text =
    (old : String → Option String)
    → parsed_unless_empty json.unmarshal (over (tail_of l text skills) old "security")
      ≡ or_else x (parsed_unless_empty json.unmarshal (old "security"))

at_security :
    {S : Type 0} (json : Json S) (l : Option Bool) (x : Option S) (is : IsSecurityRead json x)
    (skills : String) (security : Map String)
    → security_value json x ≡ some security
    → (text : Option String) × (security ≡ security_entry text) × SecurityRead json l x skills text
at_security json l none is skills security e = (none, sym (eq_of_some e), at_nil l)
  where
    at_nil : (l : Option Bool) → SecurityRead json l none skills none
    at_nil none old = refl
    at_nil (some b) old = refl
at_security json l (some x) is skills security e = with_text (json.marshal x) refl e
  where
    at_text :
        (l : Option Bool) (text : String)
        → json.marshal x ≡ some text
        → SecurityRead json l (some x) skills (some text)
    at_text none text m old = rw (is.text refl m) (is.read refl m)
    at_text (some b) text m old = rw (is.text refl m) (is.read refl m)

    with_text :
        (o : Option String)
        → json.marshal x ≡ o
        → value_under "security" o ≡ some security
        → (text : Option String) × (security ≡ security_entry text)
          × SecurityRead json l (some x) skills text
    with_text none m e = absurd (ground (arith, e))
    with_text (some text) m e = (some text, sym (eq_of_some e), at_text l text m)

pub at_skills :
    {S : Type 0} (json : Json S) (x : SkillsConfig) (is : IsSkillsRead json x) (skills : String)
    (old : String → Option String) (l : Option Bool) (security : Option String)
    → json.marshal_skills x ≡ some skills
    → parsed_unless_empty json.unmarshal_skills (over (tail_of l security skills) old "skills")
      ≡ some (written_skills x)
at_skills json x is skills old none none m = rw (is.text m) (is.read m)
at_skills json x is skills old none (some t) m = rw (is.text m) (is.read m)
at_skills json x is skills old (some b) none m = rw (is.text m) (is.read m)
at_skills json x is skills old (some b) (some t) m = rw (is.text m) (is.read m)

-- The entries of `config_to_kv`.
pub record Written {S : Type 0} (json : Json S) (cfg : GlobalConfig S) (kv : Map String)
    : Type 0 where
  pub security : Option String
  pub skills : String
  pub values : kv ≡ plain_values cfg ++ tail_of cfg.web.ldap_enabled security skills
  pub security_read : SecurityRead json cfg.web.ldap_enabled cfg.security skills security
  pub skills_written : json.marshal_skills cfg.skills ≡ some skills

pub config_to_kv-Written :
    {S : Type 0} (json : Json S) (cfg : GlobalConfig S) (is : IsRead json cfg) (kv : Map String)
    → config_to_kv json cfg ≡ some kv
    → Written json cfg kv
unfolding config_to_kv
config_to_kv-Written json cfg is kv e =
    by_values (security_value json cfg.security) (json.marshal_skills cfg.skills) refl refl e
  where
    by_values :
        (security : Option (Map String)) (skills : Option String)
        → security_value json cfg.security ≡ security
        → json.marshal_skills cfg.skills ≡ skills
        → with_values
            (plain_values cfg)
            (ldap_enabled_value cfg.web.ldap_enabled)
            security
            (value_under "skills" skills)
          ≡ some kv
        → Written json cfg kv
    by_values none skills e e' e'' = absurd (ground (arith, e''))
    by_values (some security) none e e' e'' = absurd (ground (arith, e''))
    by_values (some security) (some skills) e e' e'' =
        let (text, same, read) =
          at_security json cfg.web.ldap_enabled cfg.security is.security skills security e in
        record {
          security = text;
          skills = skills;
          values =
              sym (eq_of_some e'')
              ∙ ap
                  (λ m.
                    plain_values cfg
                    ++ (ldap_enabled_value cfg.web.ldap_enabled
                        ++ (m ++ (("skills", skills) ∷ []))))
                  same;
          security_read = read;
          skills_written = e';
        }

-- The test for distinct keys.
abbrev is_absent : Option String → Bool
is_absent none = true
is_absent (some v) = false

abbrev are_distinct : Map String → Bool
are_distinct [] = true
are_distinct ((k, v) ∷ m) = is_absent (lookup k m) && are_distinct m

absent : (o : Option String) → is_absent o ≡ true → o ≡ none
absent none e = refl
absent (some v) e = absurd (ground (arith, e))

are_distinct-Distinct : (m : Map String) → are_distinct m ≡ true → Distinct m
are_distinct-Distinct [] e = tt
are_distinct-Distinct ((k, v) ∷ m) e =
    (absent (lookup k m) (ground (arith, e)), are_distinct-Distinct m (ground (arith, e)))

values-Distinct :
    {S : Type 0} (cfg : GlobalConfig S) (l : Option Bool) (security : Option String)
    (skills : String)
    → are_distinct (plain_values cfg ++ tail_of l security skills) ≡ true
values-Distinct cfg none none skills = refl
values-Distinct cfg none (some t) skills = refl
values-Distinct cfg (some b) none skills = refl
values-Distinct cfg (some b) (some t) skills = refl

pub config_to_kv-Distinct :
    {S : Type 0} (json : Json S) (cfg : GlobalConfig S) (is : IsRead json cfg) (kv : Map String)
    → config_to_kv json cfg ≡ some kv
    → Distinct kv
config_to_kv-Distinct json cfg is kv e =
    let w = config_to_kv-Written json cfg is kv e in
    are_distinct-Distinct kv
      (ap are_distinct w.values ∙ values-Distinct cfg cfg.web.ldap_enabled w.security w.skills)
