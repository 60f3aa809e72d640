-- ===== src/Config/Types.antt =====
-- The structs of internal/config/types.go and the configuration of defaults.go.
use picoaide.Prelude.{
  String, Bool, true, false, Option, none, some, List, [], ◌∷◌, if◌then◌else◌, str_eq,
}

pub record LdapConfig : Type 0 where
  pub host : String
  pub bind_dn : String
  pub bind_password : String
  pub base_dn : String
  pub filter : String
  pub username_attribute : String
  pub group_search_mode : String
  pub group_base_dn : String
  pub group_filter : String
  pub group_member_attribute : String
  pub whitelist_enabled : Bool
  pub sync_interval : String

pub record OidcConfig : Type 0 where
  pub issuer_url : String
  pub client_id : String
  pub client_secret : String
  pub redirect_url : String
  pub scopes : String
  pub username_claim : String
  pub groups_claim : String
  pub whitelist_enabled : Bool
  pub sync_interval : String

pub record TlsConfig : Type 0 where
  pub enabled : Bool
  pub cert_pem : String
  pub key_pem : String

-- `ldap_enabled` is a pointer.
pub record WebConfig : Type 0 where
  pub listen : String
  pub ldap_enabled : Option Bool
  pub auth_mode : String
  pub log_retention : String
  pub log_level : String
  pub debug_mode : Bool
  pub tls : TlsConfig

pub record SkillRepoCredential : Type 0 where
  pub name : String
  pub provider : String
  pub mode : String
  pub username : String
  pub secret : String

pub record SkillRepo : Type 0 where
  pub name : String
  pub url : String
  pub ref : String
  pub ref_type : String
  pub is_public : Bool
  pub credentials : List SkillRepoCredential
  pub last_pull : String

pub record RegistrySource : Type 0 where
  pub name : String
  pub display_name : String
  pub index_url : String
  pub search_url : String
  pub download_url_template : String
  pub primary_download_url : String
  pub auth_header : String
  pub enabled : Bool
  pub last_refresh : String

pub record GitSource : Type 0 where
  pub name : String
  pub url : String
  pub ref : String
  pub ref_type : String
  pub credentials : List SkillRepoCredential
  pub enabled : Bool
  pub last_pull : String

pub record SkillsSourceWrapper : Type 0 where
  pub kind : String
  pub name : String
  pub git : Option GitSource
  pub reg : Option RegistrySource

pub record SkillsConfig : Type 0 where
  pub repos : List SkillRepo
  pub sources : List SkillsSourceWrapper

pub record TimeoutConfig : Type 0 where
  pub cron_job : String

-- `security` is an `interface{}`: nil, or a value of the type S.
pub record GlobalConfig (S : Type 0) : Type 0 where
  pub ldap : LdapConfig
  pub oidc : OidcConfig
  pub users_root : String
  pub archive_root : String
  pub web : WebConfig
  pub security : Option S
  pub skills : SkillsConfig
  pub timeout : TimeoutConfig

abbrev pub skillhub : RegistrySource
skillhub = record {
  name = "skillhub.cn";
  display_name = "SkillHub 中文技能市场";
  index_url = "https://skillhub-1388575217.cos.ap-guangzhou.myqcloud.com/skills.json";
  search_url = "https://lightmake.site/api/v1/search";
  primary_download_url = "https://lightmake.site/api/v1/download?slug={slug}";
  download_url_template =
      "https://skillhub-1388575217.cos.ap-guangzhou.myqcloud.com/skills/{slug}.zip";
  auth_header = "";
  enabled = true;
  last_refresh = "";
}

abbrev pub default_skills : SkillsConfig
default_skills = record {
  repos = [];
  sources =
      record { kind = "registry"; name = "skillhub.cn"; git = none; reg = some skillhub } ∷ [];
}

-- The value of `security` is a literal of nested maps.
abbrev pub default_global_config : {S : Type 0} → S → GlobalConfig S
default_global_config security = record {
  ldap = record {
    host = "ldap://ldap.example.com:389";
    bind_dn = "cn=admin,dc=example,dc=com";
    bind_password = "your-password-here";
    base_dn = "ou=users,dc=example,dc=com";
    filter = "(objectClass=inetOrgPerson)";
    username_attribute = "uid";
    group_search_mode = "";
    group_base_dn = "";
    group_filter = "";
    group_member_attribute = "";
    whitelist_enabled = false;
    sync_interval = "24h";
  };
  oidc = record {
    issuer_url = "";
    client_id = "";
    client_secret = "";
    redirect_url = "";
    scopes = "openid profile email";
    username_claim = "preferred_username";
    groups_claim = "groups";
    whitelist_enabled = false;
    sync_interval = "0";
  };
  users_root = "./users";
  archive_root = "./archive";
  web = record {
    listen = ":80";
    ldap_enabled = none;
    auth_mode = "";
    log_retention = "6m";
    log_level = "";
    debug_mode = false;
    tls = record { enabled = false; cert_pem = ""; key_pem = "" };
  };
  security = some security;
  skills = default_skills;
  timeout = record { cron_job = "" };
}

module _ {S : Type 0} (cfg : GlobalConfig S) where
  -- `LDAPEnabled`: enabled unless it is set to false.
  abbrev pub ldap_enabled : Bool
  ldap_enabled = elim cfg.web.ldap_enabled [ none ↦ true | some b ↦ b ]

  unfoldable pub auth_mode : String
  auth_mode =
      if str_eq cfg.web.auth_mode ""
      then if ldap_enabled then "ldap" else "local"
      else cfg.web.auth_mode

  unfoldable pub unified_auth_enabled : Bool
  unified_auth_enabled =
      if str_eq cfg.web.auth_mode ""
      then ldap_enabled
      else if str_eq cfg.web.auth_mode "local"
      then false
      else true

  abbrev pub whitelist_enabled_for_provider : String → Bool
  whitelist_enabled_for_provider provider =
      if str_eq provider "ldap"
      then cfg.ldap.whitelist_enabled
      else if str_eq provider "oidc"
      then cfg.oidc.whitelist_enabled
      else false

  unfoldable pub whitelist_enabled : Bool
  unfolding auth_mode
  whitelist_enabled = whitelist_enabled_for_provider auth_mode
