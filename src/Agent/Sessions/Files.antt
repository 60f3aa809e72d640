-- ===== src/Agent/Sessions/Files.antt =====
-- What is read back from the files of internal/agent/session_io.go.
use picoaide.Prelude.{
  ◌≡◌, refl, sym, ap, eq_of_some, ◌∙◌, inl, inr, String, Bool, true, false, Option, none, some,
  List, [], ◌∷◌, ◌++◌, if◌then◌else◌, str_eq, Map, lookup, insert, lookup-insert, arith, Bool-cases,
  of_if, eq_refl,
}
use picoaide.Agent.Messages.{Message}
use picoaide.Agent.Sessions.{
  Json, SessionDir, Io, lines_of, append_line, append_message, line_fits, and_then, read_lines,
  read_jsonl, load_live, load_archive,
}

-- encoding/json: the message is read again as it was written, and its text is not empty.
pub record RoundTrips (json : Json) (m : Message) : Type 0 where
  pub unmarshal-marshal : json.unmarshal (json.marshal m) ≡ some m
  pub marshal_not_empty : str_eq (json.marshal m) "" ≡ false

-- Putting one message at the end.
and_then-append :
    (o : Option Message) (r r' : Option (List Message)) (ms : List Message) (m : Message)
    → ((ns : List Message) → r ≡ some ns → r' ≡ some (ns ++ m ∷ []))
    → and_then o r ≡ some ms
    → and_then o r' ≡ some (ms ++ m ∷ [])
and_then-append none r r' ms m h e = absurd (ground (arith, e))
and_then-append (some x) none r' ms m h e = absurd (ground (arith, e))
and_then-append (some x) (some ns) r' ms m h e =
    ap (and_then (some x)) (h ns refl) ∙ ap (λ ys. some (ys ++ m ∷ [])) (eq_of_some e)

module _ (json : Json) where
  -- A message behind lines that can be read.
  read_lines-append :
      (ls : List String) (ms : List Message) (m : Message)
      → RoundTrips json m
      → line_fits (json.marshal m) ≡ true
      → read_lines json ls ≡ some ms
      → read_lines json (ls ++ json.marshal m ∷ []) ≡ some (ms ++ m ∷ [])
  read_lines-append [] ms m laws fits e =
      let none_yet : ms ≡ [] = ap (λ o. lines o) (sym e) in
      rw (none_yet, fits, laws.marshal_not_empty, laws.unmarshal-marshal) refl
    where
      lines : Option (List Message) → List Message
      lines none = []
      lines (some ns) = ns
  read_lines-append (l ∷ ls) ms m laws fits e = elim (Bool-cases (line_fits l)) [
    | inl short ↦ elim (Bool-cases (str_eq l "")) [
      | inl empty ↦
          rw (short, empty) (read_lines-append ls ms m laws fits (sym (rw (short, empty) refl) ∙ e))
      | inr full ↦
          rw (short, full)
            (and_then-append (json.unmarshal l) (read_lines json ls) _ ms m
              (λ ns en. read_lines-append ls ns m laws fits en) (sym (rw (short, full) refl) ∙ e))
    ]
    | inr long ↦ absurd (ground (arith, e, long))
  ]

  lookup-insert_lines :
      (k j : String) (ls : List String) (m : Map (List String))
      → lines_of (lookup j (insert k ls m)) ≡ (if str_eq k j then ls else lines_of (lookup j m))
  lookup-insert_lines k j ls m = ground (arith, lookup-insert k j ls m)

  -- What the next theorem says of the directory after the append.
  abbrev pub ReadBack :
      String → Message → List Message → List Message → SessionDir → SessionDir → Type 0
  ReadBack today m ms archived dir dir' =
      (load_live json dir' ≡ some (ms ++ m ∷ []))
      × (load_archive json today none dir' ≡ some (archived ++ m ∷ []))
      × ((date : String)
          → str_eq date "" ≡ false
          → str_eq today date ≡ false
          → load_archive json today (some date) dir' ≡ load_archive json today (some date) dir)

  other_day :
      (today date : String) (ls : List String) (dir dir' : SessionDir)
      → dir'.archives ≡ insert today ls dir.archives
      → str_eq date "" ≡ false
      → str_eq today date ≡ false
      → load_archive json today (some date) dir' ≡ load_archive json today (some date) dir
  unfolding load_archive read_jsonl
  other_day today date ls dir dir' e named other = rw named (
      ap (λ days. read_lines json (lines_of (lookup date days))) e
      ∙ ap (read_lines json) (
          lookup-insert_lines today date ls dir.archives
          ∙ ap (λ b. if b then ls else lines_of (lookup date dir.archives)) other))

  -- A message that JSON reads again as it was written, whose line fits, and that `AppendMessage` has
  -- written, is read back at the end of live
  -- and of the day's archive, where those can be read; the archives of the other days read as before.
  pub append_message-load :
      (io : Io) (today : String) (m : Message) (dir : SessionDir) (ms archived : List Message)
      → RoundTrips json m
      → line_fits (json.marshal m) ≡ true
      → (append_message json io today m dir).0 ≡ true
      → load_live json dir ≡ some ms
      → load_archive json today none dir ≡ some archived
      → ReadBack today m ms archived dir (append_message json io today m dir).1
  unfolding append_message load_live load_archive read_jsonl
  append_message-load io today m dir ms archived laws fits done live archive =
      let good = λ (o : Bool × SessionDir). o.0 ≡ true → ReadBack today m ms archived dir o.1 in
      of_if good io.no_dir (λ r e. absurd (ground (arith, e)))
        (λ r.
          of_if good io.no_archive (λ r' e. absurd (ground (arith, e)))
            λ r'.
              of_if good io.no_live (λ r'' e. absurd (ground (arith, e)))
                λ r'' e.
                  let day = lines_of (lookup today dir.archives) in
                  let added = day ++ json.marshal m ∷ [] in
                  (
                    read_lines-append (lines_of dir.live) ms m laws fits live,
                    ap (read_lines json) (
                          lookup-insert_lines today today added dir.archives
                          ∙ ap (λ b. if b then added else day) (eq_refl today))
                        ∙ read_lines-append day archived m laws fits archive,
                    λ date named other.
                        other_day today date added dir
                          (record dir {
                            archives = insert today added dir.archives;
                            live = append_line (json.marshal m) dir.live;
                          })
                          refl named other,
                  ))
        done

  -- The appends of a session, each with what the file system refuses and its day.
  abbrev pub append_all : List (Io × String × Message) → SessionDir → SessionDir
  append_all [] dir = dir
  append_all ((io, today, m) ∷ rest) dir = append_all rest (append_message json io today m dir).1
