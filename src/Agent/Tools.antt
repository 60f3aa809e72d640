-- ===== src/Agent/Tools.antt =====
-- `ToolRegistry` of internal/agent/tool_registry.go. The executors are behind an interface, and their
-- runs are what they answer.
pub mod Listing
use picoaide.Prelude.{
  String, Bool, true, false, not, ◌&&◌, Option, none, some, List, [], ◌∷◌, ◌++◌, map, if◌then◌else◌,
  keep, any, str_eq, ◌+++◌, Map, lookup, insert,
}

pub record ToolResult : Type 0 where
  pub success : Bool
  pub text : String

-- How a call of an executor ends: with a panic, or with a result and an error, either of which
-- may be nil.
pub data Ending : Type 0 where
  panics : String → Ending
  returns : Option ToolResult → Option String → Ending

pub record ToolExecutor : Type 0 where
  pub name : String
  pub description : String
  pub schema : String
  pub execute : String → Ending

pub record ToolEntry : Type 0 where
  pub executor : ToolExecutor
  pub server_name : String

pub record ToolDef : Type 0 where
  pub name : String
  pub description : String
  pub input_schema : String

abbrev pub ToolRegistry : Type 0
ToolRegistry = Map ToolEntry

abbrev pub new_tool_registry : ToolRegistry
new_tool_registry = []

unfoldable pub register : ToolExecutor → ToolRegistry → ToolRegistry
register e r = insert e.name (record { executor = e; server_name = "" }) r

abbrev pub set_found : Option ToolEntry → String → String → ToolRegistry → ToolRegistry
set_found none tool server r = r
set_found (some e) tool server r = insert tool (record e { server_name = server }) r

unfoldable pub set_server : String → String → ToolRegistry → ToolRegistry
set_server tool server r = set_found (lookup tool r) tool server r

abbrev pub tool_def : ToolEntry → ToolDef
tool_def e = record {
  name = e.executor.name;
  description = e.executor.description;
  input_schema = e.executor.schema;
}

abbrev pub entries_of : ToolRegistry → List ToolEntry
entries_of [] = []
entries_of ((k, e) ∷ r) = e ∷ entries_of r

unfoldable pub resolve : ToolRegistry → List ToolDef
resolve r = map tool_def (entries_of r)

abbrev pub failure : String → Option ToolResult
failure text = some (record { success = false; text = text })

-- The result and the error of `Execute`.
abbrev pub Answer : Type 0
Answer = Option ToolResult × Option String

abbrev pub answered : String → Ending → Answer
answered name (panics reason) = (failure ("工具执行异常: " +++ reason), none)
answered name (returns none none) = (failure ("工具 " +++ name +++ " 执行返回空结果（可能发生 panic 已被捕获）"), none)
answered name (returns none (some e)) = (none, some e)
answered name (returns (some t) e) = (some t, e)

abbrev pub execute_entry : Option ToolEntry → String → String → Answer
execute_entry none name args = (none, some ("工具未找到: " +++ name))
execute_entry (some e) name args = answered name (e.executor.execute args)

unfoldable pub execute : ToolRegistry → String → String → Answer
execute r name args = execute_entry (lookup name r) name args

abbrev first_tool : List ToolEntry → Option ToolExecutor
first_tool [] = none
first_tool (e ∷ es) = some e.executor

abbrev pub is_served : String → String → ToolEntry → Bool
is_served server tool e = str_eq e.server_name server && str_eq e.executor.name tool

unfoldable pub lookup_by_server : String → String → ToolRegistry → Option ToolExecutor
lookup_by_server server tool r = first_tool (keep (is_served server tool) (entries_of r))

unfoldable pub list_by_server : String → ToolRegistry → List ToolDef
list_by_server server r = map tool_def (keep (λ e. str_eq e.server_name server) (entries_of r))

unfoldable pub list_basic : ToolRegistry → List ToolDef
list_basic r = map tool_def (keep (λ e. str_eq e.server_name "") (entries_of r))

-- The loop of `ListServers`: `servers` is both its set and its list.
abbrev pub servers_from : List ToolEntry → List String → List String
servers_from [] servers = servers
servers_from (e ∷ es) servers = servers_from es (
    if not (str_eq e.server_name "") && not (any (λ s. str_eq s e.server_name) servers)
    then servers ++ e.server_name ∷ []
    else servers)

unfoldable pub list_servers : ToolRegistry → List String
list_servers r = servers_from (entries_of r) []
