-- ===== src/Agent/Tests.antt =====
-- The properties of internal/agent at concrete inputs.
use picoaide.Prelude.{
  true, ℕ, zero, suc, ◌≡◌, refl, ◌⊎◌, String, false, none, some, List, [], ◌∷◌, decimal, ◌+++◌, any,
  Unique, ◌↔◌, Bool,
}
use picoaide.Agent.Messages.{Message, user, assistant, new_message}
use picoaide.Agent.Tools.{
  Ending, panics, returns, ToolExecutor, ToolDef, ToolRegistry, register, set_server, resolve,
  execute, answered, list_basic, list_by_server, list_servers,
}
use picoaide.Agent.Tools.Listing.{Answers, same_text, has, execute-Answers, resolve-lists}
use picoaide.Agent.Compactor.{
  Compactor, new_compactor, default_compaction_config, compact, find_truncate_point,
  generate_summary,
}
use picoaide.Agent.Sessions.{
  Json, SessionDir, Io, append_message, load_live, load_archive, read_jsonl,
}
use picoaide.Agent.Sessions.Files.{ReadBack, append_message-load}

abbrev plain : Compactor
plain = new_compactor default_compaction_config

abbrev talk : List Message
talk =
    new_message user "a"
    ∷ new_message assistant "b"
    ∷ new_message user "c"
    ∷ new_message assistant "d"
    ∷ new_message user "e"
    ∷ new_message assistant "f"
    ∷ []

abbrev summarised : List Message
summarised =
    new_message assistant "[历史摘要] 共 1 轮对话（用户 1 条，助手 0 条）"
    ∷ new_message assistant "b"
    ∷ new_message user "c"
    ∷ new_message assistant "d"
    ∷ new_message user "e"
    ∷ new_message assistant "f"
    ∷ []

compacted_talk : compact plain talk ≡ summarised
unfolding compact find_truncate_point generate_summary decimal
compacted_talk = refl

abbrev hello : Message
hello = new_message user "hello"

-- A codec that knows one message.
abbrev one_message : Json
one_message = record { marshal = λ m. "{}"; unmarshal = λ l. some hello }

abbrev fresh_dir : SessionDir
fresh_dir = record { live = none; archives = []; legacy = none; meta = none }

abbrev working : Io
working = record { no_dir = false; no_archive = false; no_live = false }

abbrev after_hello : SessionDir
after_hello = (append_message one_message working "2026-01-01" hello fresh_dir).1

append_message-load_example : ReadBack one_message "2026-01-01" hello [] [] fresh_dir after_hello
unfolding append_message load_live load_archive read_jsonl
append_message-load_example =
    append_message-load one_message working "2026-01-01" hello fresh_dir [] []
      (record { unmarshal-marshal = refl; marshal_not_empty = refl }) refl refl refl refl

abbrev doubled : ℕ → String → String
doubled zero s = s
doubled (suc n) s = doubled n (s +++ s)

-- A codec whose lines have 2^20 bytes.
abbrev wordy : Json
wordy = record { marshal = λ m. doubled 20 "x"; unmarshal = λ l. some hello }

abbrev a_tool : String → Ending → ToolExecutor
a_tool name ending = record {
  name = name;
  description = "d";
  schema = "{}";
  execute = λ args. ending;
}

abbrev registry : ToolRegistry
registry =
    set_server "mail" "mcp" (
      register (a_tool "mail" (panics "nil map")) (register (a_tool "read" (returns none none)) []))

execute-Answers_example :
    Answers (execute registry "mail" "{}")
    × (execute (register (a_tool "read" (panics "x")) registry) "read" "{}"
        ≡ answered "read" (panics "x"))
execute-Answers_example = execute-Answers registry "mail" "{}" (a_tool "read" (panics "x"))

resolve-lists_example :
    Unique same_text (list_servers registry)
    × (has "" (list_servers registry) ≡ false)
    × ((p : ToolDef → Bool)
        → (any p (resolve registry) ≡ true) ↔ (
            (any p (list_basic registry) ≡ true)
            ⊎ ((s : String) × (has s (list_servers registry) ≡ true)
                × (any p (list_by_server s registry) ≡ true))))
resolve-lists_example = resolve-lists registry
