-- ===== src/Agent/Engine/Events.antt =====
-- What `Process` of internal/agent/engine.go reads and reports, and the state of its run.
-- `Provider.StreamChat` is a parameter, and time-outs are errors of it.
use Prim.Native.Char.{code}
use picoaide.Prelude.{
  ℕ, ◌+◌, String, Bool, true, false, ◌&&◌, ◌||◌, Option, List, [], ◌∷◌, ◌++◌, map, if◌then◌else◌,
  ltb, ◌==◌, ◌+++◌, ℤ,
}
use picoaide.Agent.Messages.{Message, LlmMessage}
use picoaide.Agent.Compactor.{Compactor, minus}
use picoaide.Agent.Tools.{ToolDef, ToolRegistry}

pub record ToolCallData : Type 0 where
  pub id : String
  pub name : String
  pub input : String

-- An event that `StreamChat` hands to the callback. The texts of `bad_text` and `bad_call` are not
-- JSON of their kind, and the loop does not look into those of the three after them.
pub data Chunk : Type 0 where
  text : String → Chunk
  call : ToolCallData → Chunk
  bad_text bad_call finish error reasoning : String → Chunk
  unknown : String → String → Chunk

-- What comes of one call of `StreamChat`.
pub record Reply : Type 0 where
  pub chunks : List Chunk
  pub error : Option String

pub record ChatRequest : Type 0 where
  pub system : String
  pub messages : List LlmMessage
  pub tools : List ToolDef

-- The events that `Process` reports.
pub data StreamEvent : Type 0 where
  streamed : Chunk → StreamEvent
  compressing : String → StreamEvent
  progress : ℕ → ℕ → ℕ → ℕ → StreamEvent
  llm_retry : ℕ → ℕ → StreamEvent
  tool_progress : String → StreamEvent
  tool_result : String → String → String → StreamEvent
  failure finished : String → StreamEvent
  task_done : String → ℕ → StreamEvent

-- The model at its n-th call, and the tools as they stand at the n-th run of one of them.
pub record World : Type 0 where
  pub provider : ℕ → ChatRequest → Reply
  pub tools : ℕ → ToolRegistry
  pub compactor : Compactor

pub record Engine : Type 0 where
  pub session_key : String
  pub fsync_interval : ℕ
  pub preloaded_servers : List String
  pub pending_additions : List String
  pub max_iter : ℕ
  pub context_window : ℕ
  pub sys_prompt : String

-- `saved` holds what `ReplaceLive` is asked to write; its error is passed over.
pub record Run : Type 0 where
  pub messages : List LlmMessage
  pub events : List StreamEvent
  pub calls : ℕ
  pub tools_run : ℕ
  pub iter_count : ℕ
  pub saved : List (List Message)

abbrev pub max_overflow_retries : ℕ
max_overflow_retries = 3

abbrev pub max_llm_retries : ℕ
max_llm_retries = 5

abbrev pub or_default : ℕ → ℕ → ℕ
or_default n given = if ltb 0 given then given else n

-- `prepareModelConfig`; a number that is not given is zero or less.
abbrev pub prepare_max_iter : ℕ → ℕ → ℕ
prepare_max_iter of_model of_config = or_default (or_default 20 of_config) of_model

abbrev pub prepare_context_window : ℕ → ℕ
prepare_context_window of_model = or_default 200000 of_model

abbrev pub usable : Engine → ℤ
usable e = minus e.context_window 20000

-- `strings.ToLower` as far as it gives a letter of ASCII: A to Z, the dotted I and the Kelvin sign.
lower_code : ℕ → ℕ
lower_code n =
    if ltb 64 n && ltb n 91 then n + 32 else if n == 304 then 105 else if n == 8490 then 107 else n

codes : String → List ℕ
codes String.[] = []
codes (String.◌∷◌ c s) = code c ∷ codes s

begins : List ℕ → List ℕ → Bool
begins [] s = true
begins (c ∷ p) [] = false
begins (c ∷ p) (d ∷ s) = c == d && begins p s

contains : List ℕ → List ℕ → Bool
contains p [] = begins p []
contains p (d ∷ s) = begins p (d ∷ s) || contains p s

unfoldable pub is_context_overflow : String → Bool
unfolding lower_code codes begins contains
is_context_overflow message =
    let msg = map lower_code (codes message) in
    contains (codes "context_length_exceeded") msg
    || contains (codes "context length") msg
    || contains (codes "maximum context") msg
    || contains (codes "token limit") msg
    || contains (codes "too many tokens") msg

abbrev pub text_of : List Chunk → String
text_of [] = ""
text_of (text s ∷ cs) = s +++ text_of cs
text_of (call tc ∷ cs) = text_of cs
text_of (bad_text s ∷ cs) = text_of cs
text_of (bad_call s ∷ cs) = text_of cs
text_of (finish s ∷ cs) = text_of cs
text_of (error s ∷ cs) = text_of cs
text_of (reasoning s ∷ cs) = text_of cs
text_of (unknown kind s ∷ cs) = text_of cs

abbrev pub calls_of : List Chunk → List ToolCallData
calls_of [] = []
calls_of (text s ∷ cs) = calls_of cs
calls_of (call tc ∷ cs) = tc ∷ calls_of cs
calls_of (bad_text s ∷ cs) = calls_of cs
calls_of (bad_call s ∷ cs) = calls_of cs
calls_of (finish s ∷ cs) = calls_of cs
calls_of (error s ∷ cs) = calls_of cs
calls_of (reasoning s ∷ cs) = calls_of cs
calls_of (unknown kind s ∷ cs) = calls_of cs

-- What the callback passes on: an event of another type is dropped.
abbrev pub shown : List Chunk → List StreamEvent
shown [] = []
shown (text s ∷ cs) = streamed (text s) ∷ shown cs
shown (call tc ∷ cs) = streamed (call tc) ∷ shown cs
shown (bad_text s ∷ cs) = streamed (bad_text s) ∷ shown cs
shown (bad_call s ∷ cs) = streamed (bad_call s) ∷ shown cs
shown (finish s ∷ cs) = streamed (finish s) ∷ shown cs
shown (error s ∷ cs) = streamed (error s) ∷ shown cs
shown (reasoning s ∷ cs) = streamed (reasoning s) ∷ shown cs
shown (unknown kind s ∷ cs) = shown cs

-- `cb(event)`
abbrev pub report : StreamEvent → Run → Run
report event r = record r { events = r.events ++ event ∷ [] }
