-- ===== src/Agent/Engine/Tests.antt =====
-- The properties of internal/agent/engine.go at concrete inputs.
use picoaide.Prelude.{
  ◌≡◌, refl, true, false, none, some, List, [], ◌∷◌, ◌++◌, pos, arith, if◌then◌else◌, ◌==◌,
}
use picoaide.Agent.Messages.{Message, user, new_message, LlmMessage, to_llm_message}
use picoaide.Agent.Compactor.{new_compactor, default_compaction_config, Compactor}
use picoaide.Agent.Tools.{returns, ToolExecutor, register, execute}
use picoaide.Agent.Engine.Context.{
  estimate_string_tokens, estimate_tokens, llm_message, compact_llm_messages,
}
use picoaide.Agent.Engine.Loop.Turns.{paired, Results, take_turn_lem, compact_llm_messages-unpaired}
use picoaide.Agent.Engine.Events.{ToolCallData, World, Engine, is_context_overflow, text, call}
use picoaide.Agent.Engine.Loop.{
  tool_message, run_tool, assistant_message, take_turn, first_turn, process,
}

abbrev clock : ToolExecutor
clock = record {
  name = "clock";
  description = "";
  schema = "{}";
  execute = λ args. returns (some (record { success = true; text = "noon" })) none;
}

abbrev ask_clock : ToolCallData
ask_clock = record { id = "c1"; name = "clock"; input = "{}" }

-- A model that asks for the time, and then tells it.
abbrev world : World
world = record {
  provider = λ n request.
      if n == 0
      then record { chunks = call ask_clock ∷ []; error = none }
      else record { chunks = text "it is " ∷ text "noon" ∷ []; error = none };
  tools = λ n. register clock [];
  compactor = new_compactor default_compaction_config;
}

abbrev engine : Engine
engine = record {
  session_key = "s";
  fsync_interval = 5;
  preloaded_servers = [];
  pending_additions = [];
  max_iter = 20;
  context_window = 200000;
  sys_prompt = "p";
}

abbrev question : Message
question = new_message user "time?"

process_answers : (process world engine [] question 0).1 ≡ none
unfolding process take_turn run_tool execute register estimate_tokens estimate_string_tokens
    to_llm_message
process_answers = refl

process_calls_twice : (process world engine [] question 0).0.calls ≡ 2
unfolding process take_turn run_tool execute register estimate_tokens estimate_string_tokens
    to_llm_message
process_calls_twice = refl

overflow_seen : is_context_overflow "Error: Maximum Context exceeded" ≡ true
unfolding is_context_overflow
overflow_seen = refl

take_turn_lem_example :
    (results : List LlmMessage) × ((take_turn world ""
        (ask_clock ∷ [])
        (first_turn [] question 0).run).messages
      ≡ (to_llm_message question ∷ []) ++ assistant_message "" (ask_clock ∷ []) ∷ results)
    × Results world 0 (ask_clock ∷ []) results
    × (paired [] (to_llm_message question ∷ []) ≡ true
        → paired [] (take_turn world "" (ask_clock ∷ []) (first_turn [] question 0).run).messages
          ≡ true)
take_turn_lem_example = take_turn_lem world "" (ask_clock ∷ []) (first_turn [] question 0).run

abbrev said : LlmMessage
said = llm_message "user" "a question of some length"

abbrev result : LlmMessage
result = tool_message ask_clock "noon"

abbrev plain : Compactor
plain = new_compactor default_compaction_config

said_tokens : estimate_string_tokens "a question of some length" ≡ 7
unfolding estimate_string_tokens
said_tokens = refl

result_tokens : estimate_string_tokens "noon" ≡ 2
unfolding estimate_string_tokens
result_tokens = refl

compact_llm_messages-unpaired_example :
    paired [] (compact_llm_messages plain (said ∷ said ∷ result ∷ []) (pos 5)) ≡ false
compact_llm_messages-unpaired_example =
    compact_llm_messages-unpaired plain (said ∷ []) said result [] 5 refl (omega arith)
      (omega (arith, result_tokens)) (omega (arith, said_tokens, result_tokens))
