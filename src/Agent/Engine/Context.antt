-- ===== src/Agent/Engine/Context.antt =====
-- The estimates of tokens and the compaction by tokens of internal/agent/engine.go.
pub mod Kept
pub mod Cut
use Prim.Native.Char.{code}
use Prim.Native.String
use Prim.Native.String.{len}
use mathlib.Core.List.{reverse}
use picoaide.Prelude.{
  ℕ, zero, suc, ◌+◌, ◌-◌, ◌*◌, ◌/◌, String, Bool, true, false, ◌||◌, List, [], ◌∷◌, map,
  if◌then◌else◌, length, take, drop, ltb, leb, ◌==◌, str_eq, ◌+++◌, ℤ, pos, negsuc,
}
use picoaide.Agent.Messages.{
  MessageRole, user, assistant, tool, system, other, Message, LlmMessage, ToolCall,
}
use picoaide.Agent.Compactor.{Compactor, generate_summary}

-- The code points above U+007F.
wide_count : String → ℕ
wide_count String.[] = 0
wide_count (String.◌∷◌ c s) = let rest = wide_count s in if ltb 127 (code c) then rest + 1 else rest

-- `len` counts bytes, so a code point of n bytes leaves n - 1 of them to the other count.
unfoldable pub estimate_string_tokens : String → ℕ
unfolding wide_count
estimate_string_tokens s = (len s - wide_count s) / 4 + wide_count s * 2 / 3 + 1

abbrev pub message_tokens : List LlmMessage → ℕ
message_tokens [] = 0
message_tokens (m ∷ ms) = estimate_string_tokens m.content + message_tokens ms

unfoldable pub estimate_tokens : String → List LlmMessage → ℕ
estimate_tokens sys_prompt msgs = estimate_string_tokens sys_prompt + message_tokens msgs

-- `MessageRole(m.Role)`
abbrev pub role_of : String → MessageRole
role_of s =
    if str_eq s "user"
    then user
    else if str_eq s "assistant"
    then assistant
    else if str_eq s "tool"
    then tool
    else if str_eq s "system"
    then system
    else other s

-- The message as it is written back; its reasoning is left out.
abbrev pub persisted : LlmMessage → Message
persisted m = record {
  role = role_of m.role;
  content = m.content;
  media = [];
  attachments = [];
  reasoning_content = "";
  tool_calls = m.tool_calls;
  tool_call_id = m.tool_call_id;
}

-- How many of the last messages are kept; the newest comes first here.
abbrev pub kept : ℕ → ℕ → List LlmMessage → ℕ
kept tail_budget tail_tokens [] = 0
kept tail_budget tail_tokens (m ∷ older) =
    let tokens = tail_tokens + estimate_string_tokens m.content in
    let more = kept tail_budget tokens older in
    if ltb tail_budget tokens then if ltb 0 tail_tokens then 0 else more + 1 else more + 1

abbrev pub llm_message : String → String → LlmMessage
llm_message role content = record {
  role = role;
  content = content;
  reasoning_content = "";
  tool_call_id = "";
  tool_calls = [];
}

abbrev pub llm_summary : Compactor → List LlmMessage → LlmMessage
llm_summary c head = llm_message "assistant" ("[历史摘要] " +++ generate_summary c (map persisted head))

abbrev pub cut_at : ℕ → Compactor → List LlmMessage → List LlmMessage
cut_at n c msgs = if n == 0 then msgs else llm_summary c (take n msgs) ∷ drop n msgs

abbrev pub within_budget : Compactor → List LlmMessage → ℕ → List LlmMessage
within_budget c msgs budget =
    if leb (length msgs) 2 || leb budget 0
    then msgs
    else cut_at (length msgs - kept (budget * 4 / 5) 0 (reverse msgs)) c msgs

-- `generateSummary` returns no error, so neither does this.
unfoldable pub compact_llm_messages : Compactor → List LlmMessage → ℤ → List LlmMessage
compact_llm_messages c msgs (negsuc n) = msgs
compact_llm_messages c msgs (pos budget) = within_budget c msgs budget

abbrev pub at_budget : ℕ → ℤ → Bool
at_budget tokens (pos n) = leb n tokens
at_budget tokens (negsuc n) = true

-- The passes that are left; the source makes at most ten.
abbrev pub compact_passes : Compactor → String → ℤ → ℕ → List LlmMessage → List LlmMessage
compact_passes c sys_prompt usable zero msgs = msgs
compact_passes c sys_prompt usable (suc passes) msgs =
    let compacted = compact_llm_messages c msgs usable in
    let again = compact_passes c sys_prompt usable passes compacted in
    if at_budget (estimate_tokens sys_prompt compacted) usable then again else compacted
