-- ===== src/Agent/Engine/Loop.antt =====
-- `Process` of internal/agent/engine.go, from the first iteration on: the model is called, its tools
-- run, and their results go back to it. The prompt is the one that is built and cut before the loop.
pub mod Ends
pub mod Turns
use Prim.Native.Char.{code}
use Prim.Native.String
use Prim.Native.String.{len}
use picoaide.Prelude.{
  ℕ, zero, suc, ◌+◌, ◌-◌, ◌/◌, ◌%◌, String, Bool, true, false, not, ◌&&◌, ◌||◌, Option, none, some,
  List, [], ◌∷◌, ◌++◌, map, if◌then◌else◌, ltb, ◌==◌, str_eq, ◌+++◌, ℤ, pos, negsuc,
}
use picoaide.Agent.Messages.{Message, LlmMessage, ToolCall, to_llm_message}
use picoaide.Agent.Compactor.{Compactor, minus}
use picoaide.Agent.Tools.{
  ToolResult, ToolDef, ToolRegistry, Answer, execute, list_basic, list_by_server,
}
use picoaide.Agent.Engine.Context.{
  estimate_tokens, llm_message, persisted, compact_passes, at_budget,
}
use picoaide.Agent.Engine.Events.{
  ToolCallData, Chunk, Reply, ChatRequest, StreamEvent, World, Engine, Run, max_overflow_retries,
  max_llm_retries, or_default, prepare_max_iter, prepare_context_window, usable,
  is_context_overflow, text_of, calls_of, shown, report, text, call, bad_text, bad_call, finish,
  error, reasoning, unknown, streamed, compressing, progress, llm_retry, tool_progress, tool_result,
  failure, finished, task_done,
}
use picoaide.Agent.Engine.Calls.{
  of_servers, tool_defs, write_back, is_empty, passes, write_back_named, compact_first, request,
  LlmEnd, streamed_from, ask, Retry, after_failure, after_error, after_reply, step_call, llm_calls,
  answered, gave_up,
}

-- `Execute` never answers nil for both.
abbrev pub shown_result : Answer → String
shown_result (result, some message) = "工具执行失败: " +++ message
shown_result (some result, none) = result.text
shown_result (none, none) = ""

abbrev pub tool_message : ToolCallData → String → LlmMessage
tool_message tc content = record {
  role = "tool";
  content = content;
  reasoning_content = "";
  tool_call_id = tc.id;
  tool_calls = [];
}

unfoldable pub run_tool : World → ToolCallData → Run → Run
run_tool w tc r =
    let content = shown_result (execute (w.tools r.tools_run) tc.name tc.input) in
    record r {
      messages = r.messages ++ tool_message tc content ∷ [];
      events = (r.events ++ tool_progress tc.name ∷ []) ++ tool_result tc.id tc.name content ∷ [];
      tools_run = r.tools_run + 1;
    }

abbrev pub run_tools : World → List ToolCallData → Run → Run
run_tools w [] r = r
run_tools w (tc ∷ tcs) r = run_tools w tcs (run_tool w tc r)

abbrev pub tool_call : ToolCallData → ToolCall
tool_call tc = record {
  id = tc.id;
  kind = "function";
  function = record { name = tc.name; arguments = tc.input };
}

abbrev pub assistant_message : String → List ToolCallData → LlmMessage
assistant_message content tcs = record {
  role = "assistant";
  content = content;
  reasoning_content = "";
  tool_call_id = "";
  tool_calls = map tool_call tcs;
}

-- The model's message, and the tools' after it.
unfoldable pub take_turn : World → String → List ToolCallData → Run → Run
take_turn w content tcs r =
    run_tools w tcs (record r { messages = r.messages ++ assistant_message content tcs ∷ [] })

abbrev pub below_half : ℕ → ℤ → Bool
below_half tokens (pos n) = ltb tokens (n / 2)
below_half tokens (negsuc n) = false

abbrev pub post_turn_compaction : World → Engine → Run → Run
post_turn_compaction w e r =
    if below_half (estimate_tokens e.sys_prompt r.messages) (usable e)
    then r
    else report (compressing "done") (passes w e (report (compressing "start") r))

abbrev pub fsync_session : Engine → Run → Run
fsync_session e r = if str_eq e.session_key "" || is_empty r.messages then r else write_back r

abbrev pub count_turn : Engine → Run → Run
count_turn e r =
    let counted = record r { iter_count = r.iter_count + 1 } in
    if ltb 0 e.fsync_interval && counted.iter_count % e.fsync_interval == 0
    then fsync_session e counted
    else counted

pub record Turn : Type 0 where
  pub run : Run
  pub empty_resp_retries : ℕ
  pub tool_calls_executed : Bool

-- How the loop ends: `replied` carries the answer, which is empty where there is none.
pub data LoopEnd : Type 0 where
  failed replied : String → LoopEnd

pub data Step : Type 0 where
  next : Turn → Step
  done : Turn → LoopEnd → Step

abbrev pub no_tools : String → Turn → Step
no_tools content t =
    if str_eq content ""
    then if ltb t.empty_resp_retries 3
      then next (record t { empty_resp_retries = t.empty_resp_retries + 1 })
      else done t (replied "")
    else done t (replied content)

abbrev pub after_llm : World → Engine → Turn → Run × LlmEnd → Step
after_llm w e t (r, gave_up message) =
    let text = "LLM 调用失败: " +++ message in
    done (record t { run = report (failure text) r }) (failed text)
after_llm w e t (r, answered content []) = no_tools content (record t { run = r })
after_llm w e t (r, answered content (tc ∷ tcs)) = next (record t {
  run = count_turn e (post_turn_compaction w e (take_turn w content (tc ∷ tcs) r));
  tool_calls_executed = true;
})

abbrev pub report_progress : Engine → ℕ → Run → Run
report_progress e iter r =
    report (progress (estimate_tokens e.sys_prompt r.messages) e.context_window e.max_iter iter) r

abbrev pub before_llm : World → Engine → ℕ → Run → Run
before_llm w e iter r = report_progress e iter (compact_first w e r)

abbrev pub iteration : World → Engine → ℕ → Turn → Step
iteration w e iter t =
    let r = before_llm w e iter t.run in
    after_llm w e t (
      llm_calls w e (tool_defs (w.tools r.tools_run) e.preloaded_servers) max_overflow_retries
        max_llm_retries r)

abbrev pub continue_with : (Turn → Turn × LoopEnd) → Step → Turn × LoopEnd
continue_with rest (next t) = rest t
continue_with rest (done t end) = (t, end)

-- The iterations that are left, and the number of the next one.
abbrev pub main_loop : World → Engine → ℕ → ℕ → Turn → Turn × LoopEnd
main_loop w e zero iter t = (t, replied "")
main_loop w e (suc left) iter t =
    continue_with (main_loop w e left (iter + 1)) (iteration w e iter t)

abbrev pub fallback_response : String
fallback_response = "AI 助手已执行操作，但未生成文字回复。"

-- The run, and the error of `Process`.
abbrev pub Processed : Type 0
Processed = Run × Option String

abbrev pub no_response : Turn → Processed
no_response t =
    if t.tool_calls_executed
    then (report (task_done "completed" 0) (report (finished fallback_response) t.run), none)
    else (report (task_done "error" 0) (report (failure "LLM 返回空响应，请重试") t.run), some "LLM 返回空响应")

abbrev pub conclude : Turn × LoopEnd → Processed
conclude (t, failed message) = (report (task_done "error" 0) t.run, some message)
conclude (t, replied response) =
    if str_eq response ""
    then no_response t
    else (report (task_done "completed" (len response)) (report (finished response) t.run), none)

abbrev pub first_turn : List Message → Message → ℕ → Turn
first_turn history msg iter_count = record {
  run = record {
    messages = map to_llm_message history ++ to_llm_message msg ∷ [];
    events = [];
    calls = 0;
    tools_run = 0;
    iter_count = iter_count;
    saved = [];
  };
  empty_resp_retries = 0;
  tool_calls_executed = false;
}

unfoldable pub process : World → Engine → List Message → Message → ℕ → Processed
process w e history msg iter_count =
    conclude (main_loop w e e.max_iter 0 (first_turn history msg iter_count))
