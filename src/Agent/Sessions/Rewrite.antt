-- ===== src/Agent/Sessions/Rewrite.antt =====
-- `SaveMeta` of internal/agent/session_io.go, and `CompactAndRewrite` of internal/agent/compactor.go.
pub mod Kept
use picoaide.Prelude.{
  ℕ, zero, suc, ◌+◌, String, Bool, true, false, Option, none, some, List, [], ◌∷◌, if◌then◌else◌,
  length, ltb,
}
use Prim.Native.String.{len, slice}
use text.Mathlib.Text.{starts_with}
use picoaide.Agent.Messages.{Message}
use picoaide.Agent.Compactor.{Compactor, compact}
use picoaide.Agent.Sessions.{Json, SessionDir, Io, Outcome, load_live, replace_live}

abbrev pub save_meta : Bool → String → ℕ → SessionDir → SessionDir
save_meta refused summary count dir =
    if refused then dir else record dir { meta = some (summary, count) }

-- The first message that begins with the mark, without it.
abbrev pub extract_summary : List Message → String
extract_summary [] = ""
extract_summary (m ∷ ms) =
    let later = extract_summary ms in
    if starts_with m.content "[历史摘要]" then slice m.content (len "[历史摘要]") (len m.content) else later

-- `SaveMeta`'s error is passed over.
abbrev pub then_save_meta : Bool → List Message → Outcome → Outcome
then_save_meta refused msgs (ok, dir) =
    if ok then (true, save_meta refused (extract_summary msgs) (length msgs) dir) else (false, dir)

abbrev pub rewrite : Json → Io → Bool → Compactor → List Message → SessionDir → Outcome
rewrite json io no_meta c msgs dir =
    if ltb (length (compact c msgs)) (length msgs)
    then then_save_meta no_meta (compact c msgs) (replace_live json io (compact c msgs) dir)
    else (true, dir)

abbrev pub rewrite_loaded :
    Json → Io → Bool → Compactor → Option (List Message) → SessionDir → Outcome
rewrite_loaded json io no_meta c none dir = (false, dir)
rewrite_loaded json io no_meta c (some []) dir = (true, dir)
rewrite_loaded json io no_meta c (some (m ∷ ms)) dir = rewrite json io no_meta c (m ∷ ms) dir

unfoldable pub compact_and_rewrite : Json → Io → Bool → Compactor → SessionDir → Outcome
compact_and_rewrite json io no_meta c dir =
    rewrite_loaded json io no_meta c (load_live json dir) dir
