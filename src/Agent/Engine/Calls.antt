-- ===== src/Agent/Engine/Calls.antt =====
-- The calls of the model in one iteration of `Process` of internal/agent/engine.go, with their
-- retries. The compactor and the store are not nil.
pub mod Within
use Prim.Native.Char.{code}
use Prim.Native.String
use Prim.Native.String.{len}
use picoaide.Prelude.{
  ℕ, zero, suc, ◌+◌, ◌-◌, ◌/◌, ◌%◌, String, Bool, true, false, not, ◌&&◌, ◌||◌, Option, none, some,
  List, [], ◌∷◌, ◌++◌, map, if◌then◌else◌, ltb, ◌==◌, str_eq, ◌+++◌, ℤ, pos, negsuc,
}
use picoaide.Agent.Messages.{Message, LlmMessage, ToolCall, to_llm_message}
use picoaide.Agent.Compactor.{Compactor, minus}
use picoaide.Agent.Tools.{
  ToolResult, ToolDef, ToolRegistry, Answer, execute, list_basic, list_by_server,
}
use picoaide.Agent.Engine.Context.{
  estimate_tokens, llm_message, persisted, compact_passes, at_budget,
}
use picoaide.Agent.Engine.Events.{
  ToolCallData, Chunk, Reply, ChatRequest, StreamEvent, World, Engine, Run, max_overflow_retries,
  max_llm_retries, or_default, prepare_max_iter, prepare_context_window, usable,
  is_context_overflow, text_of, calls_of, shown, report, text, call, bad_text, bad_call, finish,
  error, reasoning, unknown, streamed, compressing, progress, llm_retry, tool_progress, tool_result,
  failure, finished, task_done,
}

abbrev pub of_servers : ToolRegistry → List String → List ToolDef
of_servers registry [] = []
of_servers registry (server ∷ servers) =
    list_by_server server registry ++ of_servers registry servers

abbrev pub tool_defs : ToolRegistry → List String → List ToolDef
tool_defs registry servers = list_basic registry ++ of_servers registry servers

abbrev pub write_back : Run → Run
write_back r = record r { saved = r.saved ++ map persisted r.messages ∷ [] }

abbrev pub is_empty : {A : Type 0} → List A → Bool
is_empty [] = true
is_empty (x ∷ xs) = false

abbrev pub passes : World → Engine → Run → Run
passes w e r = record r {
  messages = compact_passes w.compactor e.sys_prompt (usable e) 10 r.messages;
}

abbrev pub write_back_named : Engine → Run → Run
write_back_named e r =
    if not (str_eq e.session_key "") && not (is_empty r.messages) then write_back r else r

-- The compaction before the model is called, where the messages fill the window.
abbrev pub compact_first : World → Engine → Run → Run
compact_first w e r =
    if at_budget (estimate_tokens e.sys_prompt r.messages) (usable e)
    then report (compressing "done")
        (write_back_named e (passes w e (report (compressing "start") r)))
    else r

abbrev pub request : Engine → List ToolDef → Run → ChatRequest
request e defs r = record {
  system = e.sys_prompt;
  messages = map (llm_message "system") e.pending_additions ++ r.messages;
  tools = defs;
}

-- How the calls of one iteration end.
pub data LlmEnd : Type 0 where
  answered : String → List ToolCallData → LlmEnd
  gave_up : String → LlmEnd

abbrev pub streamed_from : Reply → Run → Run
streamed_from reply r = record r { calls = r.calls + 1; events = r.events ++ shown reply.chunks }

abbrev pub ask : World → Engine → List ToolDef → Run → Reply
ask w e defs r = w.provider r.calls (request e defs r)

-- The next try, where one is left.
abbrev pub Retry : Type 0
Retry = Option (Run → Run × LlmEnd)

abbrev pub after_failure : World → Engine → Retry → ℕ → Retry → String → Run → Run × LlmEnd
after_failure w e over tries (some again) message r = again (report (llm_retry tries 5) r)
after_failure w e over tries none message r = (r, gave_up message)

abbrev pub after_error : World → Engine → Retry → ℕ → Retry → String → Run → Run × LlmEnd
after_error w e none tries other message r = after_failure w e none tries other message r
after_error w e (some smaller) tries other message r =
    if is_context_overflow message
    then smaller (passes w e r)
    else after_failure w e (some smaller) tries other message r

abbrev pub after_reply :
    World → Engine → Retry → ℕ → Retry → Option String → Reply → Run → Run × LlmEnd
after_reply w e over tries other none reply r =
    (r, answered (text_of reply.chunks) (calls_of reply.chunks))
after_reply w e over tries other (some message) reply r = after_error w e over tries other message r

abbrev pub step_call : World → Engine → List ToolDef → Retry → ℕ → Retry → Run → Run × LlmEnd
step_call w e defs over tries other r =
    let reply = ask w e defs r in
    after_reply w e over tries other reply.error reply (streamed_from reply r)

-- The calls of one iteration, with the retries that are left of each kind.
abbrev pub llm_calls : World → Engine → List ToolDef → ℕ → ℕ → Run → Run × LlmEnd
llm_calls w e defs zero zero r = step_call w e defs none 0 none r
llm_calls w e defs zero (suc l) r =
    step_call w e defs none (max_llm_retries - l) (some (llm_calls w e defs zero l)) r
llm_calls w e defs (suc o) zero r = step_call w e defs (some (llm_calls w e defs o zero)) 0 none r
llm_calls w e defs (suc o) (suc l) r =
    step_call w e defs (some (llm_calls w e defs o (suc l))) (max_llm_retries - l)
      (some (llm_calls w e defs (suc o) l)) r
