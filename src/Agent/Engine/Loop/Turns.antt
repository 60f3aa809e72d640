-- ===== src/Agent/Engine/Loop/Turns.antt =====
-- Tool calls and their results in the messages of internal/agent/engine.go.
use picoaide.Prelude.{
  ℕ, ◌+◌, ◌*◌, ◌/◌, ◌≤◌, ◌<◌, ◌≡◌, refl, sym, ap, ◌∙◌, String, Bool, true, false, ◌&&◌, List, [],
  ◌∷◌, ◌++◌, map, if◌then◌else◌, length, str_eq, eq_refl, arith, append-nil, append_assoc, pos,
}
use picoaide.Agent.Messages.{ToolCall, LlmMessage}
use picoaide.Agent.Compactor.{Compactor}
use picoaide.Agent.Tools.{execute}
use picoaide.Agent.Engine.Context.{estimate_string_tokens, message_tokens, compact_llm_messages}
use picoaide.Agent.Engine.Context.Cut.{compact_llm_messages_cut}
use picoaide.Agent.Engine.Events.{ToolCallData, World, Run}
use picoaide.Agent.Engine.Loop.{
  shown_result, tool_message, run_tool, run_tools, tool_call, assistant_message, take_turn,
}

abbrev pub ids_of : List ToolCall → List String
ids_of [] = []
ids_of (c ∷ cs) = c.id ∷ ids_of cs

-- Each message that calls tools is followed by one result for each call, in their order, and a
-- result stands nowhere else. The first argument lists the calls that are not answered yet.
abbrev pub paired : List String → List LlmMessage → Bool
paired [] [] = true
paired (id ∷ ids) [] = false
paired [] (m ∷ ms) =
    let rest = paired (ids_of m.tool_calls) ms in if str_eq m.role "tool" then false else rest
paired (id ∷ ids) (m ∷ ms) =
    let rest = paired ids ms in
    if str_eq m.role "tool" then str_eq m.tool_call_id id && rest else false

paired-append :
    (ids : List String) (xs ys : List LlmMessage)
    → paired ids xs ≡ true
    → paired ids (xs ++ ys) ≡ paired [] ys
paired-append [] [] ys h = refl
paired-append (id ∷ ids) [] ys h = cc
paired-append [] (m ∷ ms) ys h = ground (arith, h, paired-append (ids_of m.tool_calls) ms ys)
paired-append (id ∷ ids) (m ∷ ms) ys h = ground (arith, h, paired-append ids ms ys)

call_ids : List ToolCallData → List String
call_ids [] = []
call_ids (tc ∷ tcs) = tc.id ∷ call_ids tcs

-- The results of tools, the first of which is the k-th that runs.
abbrev pub Results : World → ℕ → List ToolCallData → List LlmMessage → Type 0
Results w k [] [] = Unit
Results w k [] (m ∷ ms) = ⊥
Results w k (tc ∷ tcs) [] = ⊥
Results w k (tc ∷ tcs) (m ∷ ms) =
    (m ≡ tool_message tc (shown_result (execute (w.tools k) tc.name tc.input)))
    × Results w (k + 1) tcs ms

run_tools_lem :
    (w : World) (tcs : List ToolCallData) (r : Run)
    → (results : List LlmMessage) × ((run_tools w tcs r).messages ≡ r.messages ++ results)
      × Results w r.tools_run tcs results
unfolding run_tool
run_tools_lem w [] r = ([], sym (append-nil r.messages), tt)
run_tools_lem w (tc ∷ tcs) r =
    let (results, e, h) = run_tools_lem w tcs (run_tool w tc r) in
    (_ ∷ results, e ∙ append_assoc r.messages _ results, (refl, h))

Results-paired :
    (w : World) (k : ℕ) (tcs : List ToolCallData) (ms : List LlmMessage)
    → Results w k tcs ms
    → paired (ids_of (map tool_call tcs)) ms ≡ true
Results-paired w k [] [] h = refl
Results-paired w k [] (m ∷ ms) h = absurd h
Results-paired w k (tc ∷ tcs) [] h = absurd h
Results-paired w k (tc ∷ tcs) (m ∷ ms) h =
    rw h.0 (rw (eq_refl tc.id) (Results-paired w (k + 1) tcs ms h.1))

-- A turn adds the model's message and then exactly one result for each of its calls, in their
-- order: what `Execute` answered when the tool's turn came. Messages whose calls were all answered
-- stay so.
pub take_turn_lem :
    (w : World) (content : String) (tcs : List ToolCallData) (r : Run)
    → (results : List LlmMessage) × ((take_turn w content tcs r).messages
        ≡ r.messages ++ assistant_message content tcs ∷ results)
      × Results w r.tools_run tcs results
      × (paired [] r.messages ≡ true → paired [] (take_turn w content tcs r).messages ≡ true)
unfolding take_turn
take_turn_lem w content tcs r =
    let asked = assistant_message content tcs in
    let (results, e, h) = run_tools_lem w tcs (record r { messages = r.messages ++ asked ∷ [] }) in
    let whole = e ∙ append_assoc r.messages (asked ∷ []) results in
    (
      results,
      whole,
      h,
      λ before.
          ap (paired []) whole
          ∙ paired-append [] r.messages (asked ∷ results) before
          ∙ Results-paired w r.tools_run tcs results h,
    )

-- The compaction does not look at the calls: where the messages that fit begin with a tool's result,
-- its call is summarised away, and what is left is not paired.
pub compact_llm_messages-unpaired :
    (c : Compactor) (older : List LlmMessage) (m result : LlmMessage) (rest : List LlmMessage)
    (budget : ℕ)
    → str_eq result.role "tool" ≡ true
    → 2 < length ((older ++ m ∷ []) ++ result ∷ rest)
    → message_tokens (result ∷ rest) ≤ budget * 4 / 5
    → budget * 4 / 5 < message_tokens (result ∷ rest) + estimate_string_tokens m.content
    → paired [] (compact_llm_messages c ((older ++ m ∷ []) ++ result ∷ rest) (pos budget)) ≡ false
compact_llm_messages-unpaired c older m result rest budget is_tool long fits full =
    rw (compact_llm_messages_cut c older m (result ∷ rest) budget (omega arith) long fits full)
      (rw is_tool refl)
