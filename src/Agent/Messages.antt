-- ===== src/Agent/Messages.antt =====
-- The messages of internal/agent/session.go.
use picoaide.Prelude.{String, Bool, true, false, List, []}

-- A role that is none of the constants is `other`.
pub data MessageRole : Type 0 where
  user assistant tool system : MessageRole
  other : String → MessageRole

pub record Attachment : Type 0 where
  pub kind : String
  pub ref : String
  pub url : String
  pub filename : String
  pub content_type : String

pub record ToolFunction : Type 0 where
  pub name : String
  pub arguments : String

pub record ToolCall : Type 0 where
  pub id : String
  pub kind : String
  pub function : ToolFunction

pub record Message : Type 0 where
  pub role : MessageRole
  pub content : String
  pub media : List String
  pub attachments : List Attachment
  pub reasoning_content : String
  pub tool_calls : List ToolCall
  pub tool_call_id : String

-- `&Message{Role: role, Content: content}`
abbrev pub new_message : MessageRole → String → Message
new_message role content = record {
  role = role;
  content = content;
  media = [];
  attachments = [];
  reasoning_content = "";
  tool_calls = [];
  tool_call_id = "";
}

abbrev pub is_user : MessageRole → Bool
is_user user = true
is_user assistant = false
is_user tool = false
is_user system = false
is_user (other r) = false

abbrev pub is_assistant : MessageRole → Bool
is_assistant user = false
is_assistant assistant = true
is_assistant tool = false
is_assistant system = false
is_assistant (other r) = false

abbrev role_text : MessageRole → String
role_text user = "user"
role_text assistant = "assistant"
role_text tool = "tool"
role_text system = "system"
role_text (other r) = r

pub record LlmMessage : Type 0 where
  pub role : String
  pub content : String
  pub reasoning_content : String
  pub tool_call_id : String
  pub tool_calls : List ToolCall

unfoldable pub to_llm_message : Message → LlmMessage
to_llm_message m = record {
  role = role_text m.role;
  content = m.content;
  reasoning_content = m.reasoning_content;
  tool_call_id = m.tool_call_id;
  tool_calls = m.tool_calls;
}
