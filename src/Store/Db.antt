-- ===== src/Store/Db.antt =====
-- The tables of internal/store/store.go and the rows of internal/store/models.go. Columns that no
-- modelled function reads (`created_at`, `updated_at`) are left out.
use picoaide.Prelude.{ℕ, String, Bool, Option, List, [], Map}

pub record LocalUser : Type 0 where
  pub id : ℕ
  pub username : String
  pub password_hash : String
  pub role : String
  pub source : String
  pub ip : String

pub record Group : Type 0 where
  pub id : ℕ
  pub name : String
  pub parent_id : Option ℕ
  pub source : String
  pub description : String

pub record UserGroup : Type 0 where
  pub username : String
  pub group_id : ℕ

pub record UserSkill : Type 0 where
  pub username : String
  pub skill_name : String
  pub source : String

pub record UserChannel : Type 0 where
  pub username : String
  pub channel : String
  pub allowed : Bool
  pub enabled : Bool
  pub configured : Bool
  pub config_version : ℕ
  pub credentials : String

pub record UserCookie : Type 0 where
  pub username : String
  pub domain : String
  pub cookies : String

-- a row of mcp_tokens
pub record McpToken : Type 0 where
  pub username : String
  pub token : String

pub record SharedFolderMount : Type 0 where
  pub folder_id : ℕ
  pub username : String
  pub mounted : Bool

-- a row of mcp_server_grants: `grant_type` is 'user' or 'group'
pub record McpServerGrant : Type 0 where
  pub grant_type : String
  pub grant_value : String

pub record SettingsHistory : Type 0 where
  pub key : String
  pub old_value : String
  pub new_value : String
  pub changed_by : String

-- Each table lists its rows in the order of their ids. The counters are SQLite's AUTOINCREMENT. The table of
-- settings has their keys as primary key.
pub record Db : Type 0 where
  pub users : List LocalUser
  pub next_user_id : ℕ
  pub groups : List Group
  pub next_group_id : ℕ
  pub user_groups : List UserGroup
  pub user_skills : List UserSkill
  pub user_channels : List UserChannel
  pub user_cookies : List UserCookie
  pub mcp_tokens : List McpToken
  pub shared_folder_mounts : List SharedFolderMount
  pub mcp_server_grants : List McpServerGrant
  pub settings : Map String
  pub settings_history : List SettingsHistory

abbrev pub empty_db : Db
empty_db = record {
  users = [];
  next_user_id = 1;
  groups = [];
  next_group_id = 1;
  user_groups = [];
  user_skills = [];
  user_channels = [];
  user_cookies = [];
  mcp_tokens = [];
  shared_folder_mounts = [];
  mcp_server_grants = [];
  settings = [];
  settings_history = [];
}
