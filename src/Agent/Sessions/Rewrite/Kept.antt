-- ===== src/Agent/Sessions/Rewrite/Kept.antt =====
-- What `CompactAndRewrite` of internal/agent/compactor.go leaves in the directory.
use picoaide.Prelude.{◌<◌, ◌≡◌, ◌⊎◌, true, false, some, List, map, length}
use picoaide.Agent.Messages.{Message}
use picoaide.Agent.Compactor.{Compactor, compact}
use picoaide.Agent.Sessions.{Json, SessionDir, Outcome, load_live}

-- What the caller may rely on: the archives stay; live stays, or is the compacted messages, which
-- are fewer; and that live could be read, where the call succeeds.
abbrev pub Rewritten : Json → Compactor → SessionDir → Outcome → Type 0
Rewritten json c dir o =
    (o.1.archives ≡ dir.archives)
    × (o.1.legacy ≡ dir.legacy)
    × (((o.0 ≡ false) × (o.1.live ≡ dir.live))
        ⊎ ((o.0 ≡ true)
            × (ms : List Message) × (load_live json dir ≡ some ms)
            × ((o.1.live ≡ dir.live)
                ⊎ ((length (compact c ms) < length ms)
                    × (o.1.live ≡ some (map json.marshal (compact c ms)))))))
