-- ===== src/Agent/Tools/Listing.antt =====
-- What the registry of internal/agent/tool_registry.go answers and lists.
use picoaide.Prelude.{
  String, ◌≡◌, refl, sym, ap, ◌∙◌, ◌↔◌, ◌⊎◌, inl, inr, Bool, true, false, not, ◌&&◌, Option, none,
  some, List, [], ◌∷◌, map, arith, if◌then◌else◌, keep, any, str_eq, eq_iff, lookup, lookup-insert,
  Unique, Unique-append, any-keep-false, any-false-All, any-append, Bool-cases, of_if, eq_refl,
}
use picoaide.Agent.Tools.{
  ToolResult, Ending, panics, returns, ToolExecutor, ToolEntry, ToolDef, ToolRegistry, register,
  tool_def, entries_of, resolve, Answer, answered, execute_entry, execute, list_by_server,
  list_basic, servers_from, list_servers,
}

-- A result or an error, so the caller never gets neither.
abbrev pub Answers : Answer → Type 0
Answers a = ((t : ToolResult) × (a.0 ≡ some t)) ⊎ ((e : String) × (a.1 ≡ some e))

answered-Answers : (name : String) (r : Ending) → Answers (answered name r)
answered-Answers name (panics reason) = inl (_, refl)
answered-Answers name (returns none none) = inl (_, refl)
answered-Answers name (returns none (some e)) = inr (e, refl)
answered-Answers name (returns (some t) e) = inl (t, refl)

execute_entry-Answers :
    (o : Option ToolEntry) (name args : String) → Answers (execute_entry o name args)
execute_entry-Answers none name args = inr (_, refl)
execute_entry-Answers (some e) name args = answered-Answers name (e.executor.execute args)

-- `Execute` gives a result or an error, whatever the tool does, panics and empty answers included;
-- and after `Register` the tool of that name is the executor registered.
pub execute-Answers :
    (r : ToolRegistry) (name args : String) (e : ToolExecutor)
    → Answers (execute r name args)
      × (execute (register e r) e.name args ≡ answered e.name (e.execute args))
unfolding execute register
execute-Answers r name args e = (
  execute_entry-Answers (lookup name r) name args,
  ap (λ o. execute_entry o e.name args)
      (lookup-insert e.name e.name (record { executor = e; server_name = "" }) r
        ∙ ap (λ b. if b then some (record { executor = e; server_name = "" }) else lookup e.name r)
            (eq_refl e.name)),
)

abbrev pub same_text : String → String → Bool
same_text s t = str_eq t s

abbrev pub has : String → List String → Bool
has s ss = any (λ t. str_eq t s) ss

servers_from-Unique :
    (es : List ToolEntry) (servers : List String)
    → Unique same_text servers
    → Unique same_text (servers_from es servers)
servers_from-Unique [] servers u = u
servers_from-Unique (e ∷ es) servers u = servers_from-Unique es _ (
    of_if (Unique same_text) (not (str_eq e.server_name "") && not (has e.server_name servers))
      (λ new. Unique-append same_text servers e.server_name u (
        any-false-All (λ s. str_eq s e.server_name) servers (ground (arith, new))
          λ s h. ground (arith, h, eq_iff s e.server_name, eq_iff e.server_name s)))
      λ old. u)

-- The servers of the entries, but for the empty name.
has-servers_from :
    (s : String) (es : List ToolEntry) (servers : List String)
    → has s (servers_from es servers)
      ≡ (if has s servers then true else not (str_eq s "") && any (λ e. str_eq e.server_name s) es)
has-servers_from s [] servers = ground arith
has-servers_from s (e ∷ es) servers =
    has-servers_from s es _ ∙ elim (Bool-cases (str_eq e.server_name s)) [
      | inl same ↦
          let e' : e.server_name ≡ s = (eq_iff e.server_name s).0 same in
          ground (
            arith,
            same,
            ap (λ t. has t servers) e',
            ap (λ t. str_eq t "") e',
            any-append (λ t. str_eq t s) servers (e.server_name ∷ []),
          )
      | inr other ↦ ground (arith, other, any-append (λ t. str_eq t s) servers (e.server_name ∷ []))
    ]

any-defs :
    (p : ToolDef → Bool) (es : List ToolEntry)
    → any p (map tool_def es) ≡ any (λ e. p (tool_def e)) es
any-defs p [] = refl
any-defs p (e ∷ es) = ground (arith, any-defs p es)

-- An entry that the test picks is among those of its server.
by_server :
    (q : ToolEntry → Bool) (es : List ToolEntry)
    → any q es ≡ true
    → (any q (keep (λ e. str_eq e.server_name "") es) ≡ true)
      ⊎ ((s : String) × (str_eq s "" ≡ false)
          × (any (λ e. str_eq e.server_name s) es ≡ true)
          × (any q (keep (λ e. str_eq e.server_name s) es) ≡ true))
by_server q [] h = absurd (ground (arith, h))
by_server q (e ∷ es) h = elim (Bool-cases (q e)) [
  | inl hit ↦ elim (Bool-cases (str_eq e.server_name "")) [
    | inl basic ↦ inl (ground (arith, hit, basic))
    | inr served ↦
        let own = eq_refl e.server_name in
        inr (e.server_name, served, ground (arith, own), ground (arith, own, hit))
  ]
  | inr missed ↦ elim (by_server q es (ground (arith, h, missed))) [
    | inl basic ↦ inl (ground (arith, basic))
    | inr (s, named, found, hit) ↦ inr (s, named, ground (arith, found), ground (arith, hit))
  ]
]

kept_hit :
    (q p : ToolEntry → Bool) (es : List ToolEntry) → any q (keep p es) ≡ true → any q es ≡ true
kept_hit q p es h = elim (Bool-cases (any q es)) [
  | inl hit ↦ hit
  | inr missed ↦ absurd (ground (arith, h, any-keep-false q p es missed))
]

-- `ListServers` lists no server twice and never the empty name. A definition is in `Resolve`
-- exactly if it is in `ListBasic`, or in `ListByServer` of a server that `ListServers` lists.
pub resolve-lists :
    (r : ToolRegistry)
    → Unique same_text (list_servers r)
      × (has "" (list_servers r) ≡ false)
      × ((p : ToolDef → Bool)
          → (any p (resolve r) ≡ true) ↔ (
              (any p (list_basic r) ≡ true)
              ⊎ ((s : String) × (has s (list_servers r) ≡ true)
                  × (any p (list_by_server s r) ≡ true))))
unfolding list_servers resolve list_basic list_by_server
resolve-lists r = (
  servers_from-Unique (entries_of r) [] tt,
  has-servers_from "" (entries_of r) [] ∙ refl,
  λ p. (
    λ h.
        elim (by_server (λ e. p (tool_def e)) (entries_of r)
          (sym (any-defs p (entries_of r)) ∙ h)) [
            | inl basic ↦ inl (any-defs p _ ∙ basic)
            | inr (s, named, found, hit) ↦ inr (
              s,
              has-servers_from s (entries_of r) [] ∙ ground (arith, named, found),
              any-defs p _ ∙ hit,
            )
          ],
    λ b. any-defs p (entries_of r) ∙ elim b [
      | inl basic ↦
          kept_hit _ (λ e. str_eq e.server_name "") (entries_of r) (sym (any-defs p _) ∙ basic)
      | inr (s, listed, hit) ↦
          kept_hit _ (λ e. str_eq e.server_name s) (entries_of r) (sym (any-defs p _) ∙ hit)
    ],
  ),
)
