-- ===== src/Agent/Compactor.antt =====
-- The compaction of a session's messages, internal/agent/compactor.go.
pub mod Rounds
use picoaide.Prelude.{
  ℕ, zero, suc, ◌+◌, ◌-◌, ◌*◌, String, Bool, true, false, Option, none, some, List, [], ◌∷◌, ◌++◌,
  if◌then◌else◌, length, take, drop, ltb, leb, decimal, ◌+++◌, ℤ, pos, negsuc,
}
use picoaide.Agent.Messages.{
  MessageRole, user, assistant, tool, system, other, Message, new_message, is_user, is_assistant,
}

pub record CompactionConfig : Type 0 where
  pub auto : Bool
  pub reserved_tokens : ℕ
  pub preserve_recent_min : ℕ
  pub preserve_recent_max : ℕ
  pub prune_minimum : ℕ
  pub max_preserve_rounds : ℕ

abbrev pub default_compaction_config : CompactionConfig
default_compaction_config = record {
  auto = true;
  reserved_tokens = 20000;
  preserve_recent_min = 2000;
  preserve_recent_max = 8000;
  prune_minimum = 20000;
  max_preserve_rounds = 2;
}

-- The model that summarises answers a prompt with a text, or with an error.
abbrev pub Summarizer : Type 0
Summarizer = String → Option String

-- `llm` is nil until `SetSummarizer`.
pub record Compactor : Type 0 where
  pub cfg : CompactionConfig
  pub llm : Option Summarizer

abbrev pub new_compactor : CompactionConfig → Compactor
new_compactor cfg = record { cfg = cfg; llm = none }

abbrev pub set_summarizer : Summarizer → Compactor → Compactor
set_summarizer llm c = record c { llm = some llm }

pub summarize_text : Compactor → String → Option String
summarize_text c prompt = elim c.llm [ none ↦ none | some llm ↦ llm prompt ]

-- A window that is not given (zero or less) counts as 200000.
abbrev pub window_or_default : ℕ → ℕ
window_or_default context_window = if leb context_window 0 then 200000 else context_window

-- An int that may be negative.
abbrev pub minus : ℕ → ℕ → ℤ
minus a b = if leb b a then pos (a - b) else negsuc (b - a - 1)

unfoldable pub usable_tokens : Compactor → ℕ → ℤ
usable_tokens c context_window = minus (window_or_default context_window) c.cfg.reserved_tokens

abbrev pub at_least : ℕ → ℤ → Bool
at_least n (pos m) = leb m n
at_least n (negsuc m) = true

unfoldable pub is_overflow_with_limit : Compactor → ℕ → ℕ → Bool
is_overflow_with_limit c token_count context_window =
    if c.cfg.auto
    then at_least token_count (minus (window_or_default context_window) c.cfg.reserved_tokens)
    else false

pub is_overflow : Compactor → ℕ → Bool
is_overflow c token_count = is_overflow_with_limit c token_count 200000

abbrev pub reverse_onto : List Message → List Message → List Message
reverse_onto done [] = done
reverse_onto done (m ∷ ms) = reverse_onto (m ∷ done) ms

-- The loop from the last message down, `msgs[i]` with the older ones behind it.
abbrev pub truncate_from : List Message → ℕ → ℕ → ℕ
truncate_from [] preserve_rounds rounds = 0
truncate_from (m ∷ older) preserve_rounds rounds =
    let on = truncate_from older preserve_rounds rounds in
    let counted = truncate_from older preserve_rounds (rounds + 1) in
    if is_user m.role
    then if ltb preserve_rounds (rounds + 1) then length older + 1 else counted
    else on

unfoldable pub find_truncate_point : List Message → ℕ → ℕ
find_truncate_point msgs preserve_rounds = truncate_from (reverse_onto [] msgs) preserve_rounds 0

abbrev pub count_role : (MessageRole → Bool) → List Message → ℕ
count_role is [] = 0
count_role is (m ∷ ms) = let rest = count_role is ms in if is m.role then rest + 1 else rest

abbrev pub build_fallback_summary : List Message → String
build_fallback_summary msgs =
    let users = count_role is_user msgs in
    let assistants = count_role is_assistant msgs in
    "共 "
    +++ decimal users
    +++ " 轮对话（用户 "
    +++ decimal (users + assistants)
    +++ " 条，助手 "
    +++ decimal assistants
    +++ " 条）"

-- What the dialog says of a message; the tools' messages and the others are left out.
abbrev dialog_line : MessageRole → String → String
dialog_line user content = "用户: " +++ content +++ "\n\n"
dialog_line assistant content = "助手: " +++ content +++ "\n\n"
dialog_line tool content = ""
dialog_line system content = ""
dialog_line (other r) content = ""

abbrev pub dialog : List Message → String
dialog [] = ""
dialog (m ∷ ms) = dialog_line m.role m.content +++ dialog ms

abbrev concat : List String → String
concat [] = ""
concat (s ∷ ss) = s +++ concat ss

abbrev pub summary_prompt : String
summary_prompt = concat (
    "根据以上对话历史创建一个新的结构化摘要，保留关键信息和上下文。\n" ∷ "\n" ∷ "按以下 Markdown 格式输出，保留每个章节，即使内容为空也要保留标题：\n" ∷ "\n"
    ∷ "## 目标\n" ∷ "- [一句话总结用户的核心任务]\n" ∷ "\n" ∷ "## 约束与偏好\n" ∷ "- [用户的限制条件、偏好设定或\"(无)\"]\n" ∷ "\n"
    ∷ "## 进度\n" ∷ "### 已完成\n" ∷ "- [已完成的工作，或\"(无)\"]\n" ∷ "\n" ∷ "### 进行中\n"
    ∷ "- [正在进行的工作，或\"(无)\"]\n" ∷ "\n" ∷ "### 阻塞\n" ∷ "- [阻塞项，或\"(无)\"]\n" ∷ "\n" ∷ "## 关键决策\n"
    ∷ "- [重要决策及原因，或\"(无)\"]\n" ∷ "\n" ∷ "## 下一步\n" ∷ "- [后续行动，或\"(无)\"]\n" ∷ "\n" ∷ "## 关键上下文\n"
    ∷ "- [重要的技术事实、错误信息、未解决的问题，或\"(无)\"]\n" ∷ "\n" ∷ "## 相关文件\n" ∷ "- [文件路径：为什么重要，或\"(无)\"]\n" ∷ "\n"
    ∷ "规则：\n" ∷ "- 每个章节都必须保留，即使为空\n" ∷ "- 使用简洁的要点，不使用段落描述\n" ∷ "- 保留精确的文件路径、命令、错误信息和标识符\n"
    ∷ "- 不要提及摘要过程或上下文已被压缩\n" ∷ "\n" ∷ "对话历史：\n" ∷ [])

abbrev or_fallback : Option String → List Message → String
or_fallback none msgs = build_fallback_summary msgs
or_fallback (some summary) msgs = summary

-- Without a model, or where it fails, the summary is the count of the messages.
unfoldable pub generate_summary : Compactor → List Message → String
generate_summary c msgs = elim c.llm [
  | none ↦ build_fallback_summary msgs
  | some llm ↦ or_fallback (llm (summary_prompt +++ dialog msgs)) msgs
]

abbrev pub summary_message : Compactor → List Message → Message
summary_message c msgs = new_message assistant ("[历史摘要] " +++ generate_summary c msgs)

abbrev pub compact_at : ℕ → Compactor → List Message → List Message
compact_at n c msgs = if leb n 0 then msgs else summary_message c (take n msgs) ∷ drop n msgs

-- `Compact`, whose error is always nil.
unfoldable pub compact : Compactor → List Message → List Message
compact c msgs =
    if ltb (length msgs) (c.cfg.max_preserve_rounds * 2)
    then msgs
    else compact_at (find_truncate_point msgs c.cfg.max_preserve_rounds) c msgs
