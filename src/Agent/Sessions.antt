-- ===== src/Agent/Sessions.antt =====
-- `SessionStore` of internal/agent/session_io.go: the files of one session's directory, and
-- `CompactAndRewrite` of internal/agent/compactor.go. encoding/json is a parameter. A write that
-- fails writes nothing.
pub mod Files
pub mod Rewrite
use picoaide.Prelude.{
  ℕ, zero, suc, ◌+◌, ◌≡◌, String, Bool, true, false, not, Option, none, some, List, [], ◌∷◌, ◌++◌,
  map, if◌then◌else◌, keep, length, ltb, leb, ◌==◌, str_eq, Map, lookup, insert,
}
use Prim.Native.String.{len}
use picoaide.Agent.Messages.{Message}
use picoaide.Agent.Compactor.{Compactor, compact}

-- `json.Marshal` and `json.Unmarshal` of a message; `none` is the error.
pub record Json : Type 0 where
  pub marshal : Message → String
  pub unmarshal : String → Option Message

-- A file is its lines; `none` is a file that is not there. The key of `archives` is the date.
pub record SessionDir : Type 0 where
  pub live : Option (List String)
  pub archives : Map (List String)
  pub legacy : Option (List String)
  pub meta : Option (String × ℕ)

-- What the file system refuses.
pub record Io : Type 0 where
  pub no_dir : Bool
  pub no_archive : Bool
  pub no_live : Bool

abbrev pub lines_of : Option (List String) → List String
lines_of none = []
lines_of (some ls) = ls

-- `appendFile`: O_APPEND and O_CREATE
abbrev pub append_line : String → Option (List String) → Option (List String)
append_line line file = some (lines_of file ++ line ∷ [])

-- An operation's error, and the directory after it.
abbrev pub Outcome : Type 0
Outcome = Bool × SessionDir

-- The archive of the day first, then live; `true` is success. What stands in the archive stays when
-- the second write fails.
unfoldable pub append_message : Json → Io → String → Message → SessionDir → Outcome
append_message json io today msg dir =
    let archived = record dir {
      archives =
          insert today (lines_of (lookup today dir.archives) ++ json.marshal msg ∷ []) dir.archives;
    } in
    if io.no_dir
    then (false, dir)
    else if io.no_archive
    then (false, dir)
    else if io.no_live
    then (false, archived)
    else (true, record archived { live = append_line (json.marshal msg) dir.live })

-- The buffer of the scanner has room for a line and its line feed.
abbrev pub scanner_buffer : ℕ
scanner_buffer = 524288

abbrev pub line_fits : String → Bool
line_fits line = leb (len line + 1) scanner_buffer

abbrev pub and_then : Option Message → Option (List Message) → Option (List Message)
and_then none rest = none
and_then (some m) none = none
and_then (some m) (some ms) = some (m ∷ ms)

-- `none` is an error: a line that is too long for the scanner, or that is not a message.
abbrev pub read_lines : Json → List String → Option (List Message)
read_lines json [] = some []
read_lines json (l ∷ ls) =
    let rest = read_lines json ls in
    if line_fits l then if str_eq l "" then rest else and_then (json.unmarshal l) rest else none

-- A file that is not there has no messages.
unfoldable pub read_jsonl : Json → Option (List String) → Option (List Message)
read_jsonl json file = read_lines json (lines_of file)

unfoldable pub load_live : Json → SessionDir → Option (List Message)
load_live json dir = read_jsonl json dir.live

-- `date` is none where the call gives no date. A file that is not there is no error of
-- `readJSONL`, so the branch for the old file is not taken.
unfoldable pub load_archive : Json → String → Option String → SessionDir → Option (List Message)
load_archive json today none dir = read_jsonl json (lookup today dir.archives)
load_archive json today (some date) dir =
    read_jsonl json (lookup (if str_eq date "" then today else date) dir.archives)

abbrev dates : Map (List String) → List String
dates [] = []
dates ((date, ls) ∷ m) = date ∷ dates m

abbrev with_legacy : Option (List String) → List String → List String
with_legacy none ds = ds
with_legacy (some ls) ds = ds ++ "legacy" ∷ []

pub list_archives : SessionDir → List String
list_archives dir = with_legacy dir.legacy (dates dir.archives)

-- The scanner stops at a line that is too long.
abbrev pub count_lines : List String → ℕ
count_lines [] = 0
count_lines (l ∷ ls) =
    let rest = count_lines ls in if line_fits l then if str_eq l "" then rest else rest + 1 else 0

abbrev count_archives : Map (List String) → ℕ
count_archives [] = 0
count_archives ((date, ls) ∷ m) = count_lines ls + count_archives m

unfoldable pub archive_size : SessionDir → ℕ
archive_size dir = count_archives dir.archives + count_lines (lines_of dir.legacy)

unfoldable pub replace_live : Json → Io → List Message → SessionDir → Outcome
replace_live json io msgs dir =
    if io.no_dir
    then (false, dir)
    else if io.no_live
    then (false, dir)
    else (true, record dir { live = some (map json.marshal msgs) })
