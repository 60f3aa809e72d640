-- ===== src/Agent/Compactor/Rounds.antt =====
-- What `Compact` of internal/agent/compactor.go keeps.
use picoaide.Prelude.{ℕ, ◌+◌, ◌≡◌, true, List, [], ◌∷◌, ◌++◌, length}
use picoaide.Agent.Messages.{Message, is_user}
use picoaide.Agent.Compactor.{Compactor, count_role, summary_message}

-- Where the loop stops: at the user's message before the last `preserve` of them, if there is one.
abbrev Found : List Message → ℕ → ℕ → ℕ → Type 0
Found rev preserve rounds n =
    (newer : List Message) × (u : Message) × (older : List Message) × (rev ≡ newer ++ u ∷ older)
    × (is_user u.role ≡ true)
    × (n ≡ length older + 1)
    × (count_role is_user newer + rounds ≡ preserve)

-- The messages from before the recent rounds: all up to a user's message.
abbrev pub Compacted : Compactor → List Message → List Message → Type 0
Compacted c msgs result =
    (old : List Message) × (u : Message) × (recent : List Message) × (msgs ≡ old ++ u ∷ recent)
    × (is_user u.role ≡ true)
    × (count_role is_user recent ≡ c.cfg.max_preserve_rounds)
    × (result ≡ summary_message c (old ++ u ∷ []) ∷ recent)
