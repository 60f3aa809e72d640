-- ===== src/Config/Values.antt =====
-- `configToKV` and the reading of `LoadFromDB`, internal/config/dbconfig.go. encoding/json is a
-- parameter.
use text.Mathlib.Text.{starts_with}
use picoaide.Prelude.{
  String, Bool, true, false, ◌||◌, Option, none, some, [], ◌∷◌, ◌++◌, if◌then◌else◌, str_eq, Map,
}
use picoaide.Config.Types.{SkillsConfig, GlobalConfig, default_skills}

-- `json.Marshal` and `json.Unmarshal`; `none` is the error.
pub record Json (S : Type 0) : Type 0 where
  pub marshal : S → Option String
  pub unmarshal : String → Option S
  pub marshal_skills : SkillsConfig → Option String
  pub unmarshal_skills : String → Option SkillsConfig

-- `strconv.FormatBool`
abbrev pub format_bool : Bool → String
format_bool true = "true"
format_bool false = "false"

-- `strconv.ParseBool`
abbrev pub parse_bool : String → Option Bool
parse_bool s =
    if str_eq s "1"
      || str_eq s "t"
      || str_eq s "T"
      || str_eq s "TRUE"
      || str_eq s "true"
      || str_eq s "True"
    then some true
    else if str_eq s "0"
        || str_eq s "f"
        || str_eq s "F"
        || str_eq s "FALSE"
        || str_eq s "false"
        || str_eq s "False"
    then some false
    else none

abbrev pub or_empty : Option String → String
or_empty none = ""
or_empty (some s) = s

-- `b, _ = strconv.ParseBool(kv[key])`
abbrev pub or_false : Option Bool → Bool
or_false none = false
or_false (some b) = b

abbrev pub plain_values : {S : Type 0} → GlobalConfig S → Map String
plain_values cfg =
    ("ldap.host", cfg.ldap.host)
    ∷ ("ldap.bind_dn", cfg.ldap.bind_dn)
    ∷ ("ldap.bind_password", cfg.ldap.bind_password)
    ∷ ("ldap.base_dn", cfg.ldap.base_dn)
    ∷ ("ldap.filter", cfg.ldap.filter)
    ∷ ("ldap.username_attribute", cfg.ldap.username_attribute)
    ∷ ("ldap.group_search_mode", cfg.ldap.group_search_mode)
    ∷ ("ldap.group_base_dn", cfg.ldap.group_base_dn)
    ∷ ("ldap.group_filter", cfg.ldap.group_filter)
    ∷ ("ldap.group_member_attribute", cfg.ldap.group_member_attribute)
    ∷ ("ldap.whitelist_enabled", format_bool cfg.ldap.whitelist_enabled)
    ∷ ("ldap.sync_interval", cfg.ldap.sync_interval)
    ∷ ("oidc.issuer_url", cfg.oidc.issuer_url)
    ∷ ("oidc.client_id", cfg.oidc.client_id)
    ∷ ("oidc.client_secret", cfg.oidc.client_secret)
    ∷ ("oidc.redirect_url", cfg.oidc.redirect_url)
    ∷ ("oidc.scopes", cfg.oidc.scopes)
    ∷ ("oidc.username_claim", cfg.oidc.username_claim)
    ∷ ("oidc.groups_claim", cfg.oidc.groups_claim)
    ∷ ("oidc.whitelist_enabled", format_bool cfg.oidc.whitelist_enabled)
    ∷ ("oidc.sync_interval", cfg.oidc.sync_interval)
    ∷ ("users_root", cfg.users_root)
    ∷ ("archive_root", cfg.archive_root)
    ∷ ("web.listen", cfg.web.listen)
    ∷ ("web.auth_mode", cfg.web.auth_mode)
    ∷ ("web.log_retention", cfg.web.log_retention)
    ∷ ("web.log_level", cfg.web.log_level)
    ∷ ("web.debug_mode", format_bool cfg.web.debug_mode)
    ∷ ("web.tls.enabled", format_bool cfg.web.tls.enabled)
    ∷ ("web.tls.cert_pem", cfg.web.tls.cert_pem)
    ∷ ("web.tls.key_pem", cfg.web.tls.key_pem)
    ∷ []

abbrev pub ldap_enabled_value : Option Bool → Map String
ldap_enabled_value none = []
ldap_enabled_value (some b) = ("web.ldap_enabled", format_bool b) ∷ []

abbrev pub value_under : String → Option String → Option (Map String)
value_under key none = none
value_under key (some text) = some ((key, text) ∷ [])

-- nil is not written.
abbrev pub security_value : {S : Type 0} → Json S → Option S → Option (Map String)
security_value json none = some []
security_value json (some security) = value_under "security" (json.marshal security)

abbrev pub with_values :
    Map String → Map String → Option (Map String) → Option (Map String) → Option (Map String)
with_values plain ldap none skills = none
with_values plain ldap (some security) none = none
with_values plain ldap (some security) (some skills) =
    some (plain ++ (ldap ++ (security ++ skills)))

-- `configToKV`; `none` is the error. The keys are distinct, so their order does not matter.
unfoldable pub config_to_kv : {S : Type 0} → Json S → GlobalConfig S → Option (Map String)
config_to_kv json cfg =
    with_values (plain_values cfg) (ldap_enabled_value cfg.web.ldap_enabled)
      (security_value json cfg.security) (value_under "skills" (json.marshal_skills cfg.skills))

abbrev pub parsed_unless_empty : {A : Type 0} → (String → Option A) → Option String → Option A
parsed_unless_empty parse none = none
parsed_unless_empty parse (some text) = if str_eq text "" then none else parse text

abbrev pub or_no_skills : Option SkillsConfig → SkillsConfig
or_no_skills none = record { repos = []; sources = [] }
or_no_skills (some skills) = skills

abbrev pub with_default_sources : SkillsConfig → SkillsConfig
with_default_sources skills = elim skills.sources [
  | [] ↦ record skills { sources = default_skills.sources }
  | s ∷ ss ↦ skills
]

-- What `LoadFromDB` makes of the values under their keys.
unfoldable pub config_of : {S : Type 0} → Json S → (String → Option String) → GlobalConfig S
config_of json kv = record {
  ldap = record {
    host = or_empty (kv "ldap.host");
    bind_dn = or_empty (kv "ldap.bind_dn");
    bind_password = or_empty (kv "ldap.bind_password");
    base_dn = or_empty (kv "ldap.base_dn");
    filter = or_empty (kv "ldap.filter");
    username_attribute = or_empty (kv "ldap.username_attribute");
    group_search_mode = or_empty (kv "ldap.group_search_mode");
    group_base_dn = or_empty (kv "ldap.group_base_dn");
    group_filter = or_empty (kv "ldap.group_filter");
    group_member_attribute = or_empty (kv "ldap.group_member_attribute");
    whitelist_enabled = or_false (parse_bool (or_empty (kv "ldap.whitelist_enabled")));
    sync_interval = or_empty (kv "ldap.sync_interval");
  };
  oidc = record {
    issuer_url = or_empty (kv "oidc.issuer_url");
    client_id = or_empty (kv "oidc.client_id");
    client_secret = or_empty (kv "oidc.client_secret");
    redirect_url = or_empty (kv "oidc.redirect_url");
    scopes = or_empty (kv "oidc.scopes");
    username_claim = or_empty (kv "oidc.username_claim");
    groups_claim = or_empty (kv "oidc.groups_claim");
    whitelist_enabled = or_false (parse_bool (or_empty (kv "oidc.whitelist_enabled")));
    sync_interval = or_empty (kv "oidc.sync_interval");
  };
  users_root = or_empty (kv "users_root");
  archive_root = or_empty (kv "archive_root");
  web = record {
    listen = or_empty (kv "web.listen");
    ldap_enabled = parsed_unless_empty parse_bool (kv "web.ldap_enabled");
    auth_mode = or_empty (kv "web.auth_mode");
    log_retention = or_empty (kv "web.log_retention");
    log_level = or_empty (kv "web.log_level");
    debug_mode = or_false (parse_bool (or_empty (kv "web.debug_mode")));
    tls = record {
      enabled = or_false (parse_bool (or_empty (kv "web.tls.enabled")));
      cert_pem = or_empty (kv "web.tls.cert_pem");
      key_pem = or_empty (kv "web.tls.key_pem");
    };
  };
  security = parsed_unless_empty json.unmarshal (kv "security");
  skills =
      with_default_sources (or_no_skills (parsed_unless_empty json.unmarshal_skills (kv "skills")));
  timeout = record { cron_job = "" };
}

abbrev pub is_internal_setting_key : String → Bool
is_internal_setting_key key = str_eq key "internal" || starts_with key "internal."

-- The keys that loading passes over.
abbrev pub is_hidden : String → Bool
is_hidden key = is_internal_setting_key key || str_eq key "web.password"
