-- ===== src/Agent/Engine/Context/Cut.antt =====
-- What `compactLLMMessages` of internal/agent/engine.go keeps.
use mathlib.Core.List.{reverse, reverse-append}
use picoaide.Prelude.{
  ℕ, ◌+◌, ◌-◌, ◌*◌, ◌/◌, ◌≤◌, ◌<◌, ◌≡◌, refl, ap, ◌∙◌, ◌⊎◌, false, ◌||◌, List, [], ◌∷◌, ◌++◌,
  length, length-append, take, drop, leb, ℤ, pos, negsuc, arith,
}
use picoaide.Agent.Messages.{LlmMessage}
use picoaide.Agent.Compactor.{Compactor}
use picoaide.Agent.Engine.Context.{
  estimate_string_tokens, message_tokens, kept, llm_summary, cut_at, compact_llm_messages,
}
use picoaide.Agent.Engine.Context.Kept.{
  estimate-pos, message_tokens-reverse, length-reverse, take_prefix, drop_prefix, kept_exact,
}

-- The messages do not have to be cut, or cannot be.
abbrev pub Stay : ℤ → List LlmMessage → Type 0
Stay (negsuc n) msgs = Unit
Stay (pos budget) msgs = (budget ≡ 0) ⊎ (length msgs ≤ 2) ⊎ (message_tokens msgs ≤ budget * 4 / 5)

-- The tail is as long as fits, and the last message at least.
abbrev pub CutIn : Compactor → ℕ → List LlmMessage → List LlmMessage → Type 0
CutIn c tail_budget msgs result =
    (older : List LlmMessage) × (m : LlmMessage) × (tail : List LlmMessage) × (msgs
      ≡ (older ++ m ∷ []) ++ tail)
    × (result ≡ llm_summary c (older ++ m ∷ []) ∷ tail)
    × (0 < length tail)
    × ((message_tokens tail ≤ tail_budget) ⊎ (length tail ≡ 1))
    × (tail_budget < message_tokens tail + estimate_string_tokens m.content)

abbrev pub CutOr : Compactor → ℤ → List LlmMessage → List LlmMessage → Type 0
CutOr c (negsuc n) msgs result = result ≡ msgs
CutOr c (pos budget) msgs result =
    ((result ≡ msgs) × Stay (pos budget) msgs) ⊎ CutIn c (budget * 4 / 5) msgs result

pub cut_at_split :
    (c : Compactor) (head tail : List LlmMessage)
    → 0 < length head
    → cut_at (length head) c (head ++ tail) ≡ llm_summary c head ∷ tail
cut_at_split c head tail h =
    cuts (length head) (head ++ tail) h
    ∙ rw (take_prefix head tail) (rw (drop_prefix head tail) refl)
  where
    cuts :
        (n : ℕ) (ms : List LlmMessage)
        → 0 < n
        → cut_at n c ms ≡ llm_summary c (take n ms) ∷ drop n ms
    cuts n ms h = ground (arith, h)

message_tokens-pos : (ms : List LlmMessage) → 0 < length ms → 0 < message_tokens ms
message_tokens-pos [] h = h
message_tokens-pos (m ∷ ms) h = omega (arith, estimate-pos m)

-- Where the cut falls: wherever the tail fits and the message before it does not.
pub compact_llm_messages_cut :
    (c : Compactor) (older : List LlmMessage) (m : LlmMessage) (tail : List LlmMessage) (budget : ℕ)
    → 0 < length tail
    → 2 < length ((older ++ m ∷ []) ++ tail)
    → message_tokens tail ≤ budget * 4 / 5
    → budget * 4 / 5 < message_tokens tail + estimate_string_tokens m.content
    → compact_llm_messages c ((older ++ m ∷ []) ++ tail) (pos budget)
      ≡ llm_summary c (older ++ m ∷ []) ∷ tail
unfolding compact_llm_messages
compact_llm_messages_cut c older m tail budget some_there long fits full =
    let head = older ++ m ∷ [] in
    let room : 0 < message_tokens tail = message_tokens-pos tail some_there in
    let much : leb (length (head ++ tail)) 2 || leb budget 0 ≡ false =
      ground (arith, long, fits, room) in
    let tokens = message_tokens-reverse tail in
    let tail_kept : kept (budget * 4 / 5) 0 (reverse tail ++ m ∷ reverse older)
        ≡ length (reverse tail) =
      kept_exact (budget * 4 / 5) 0 (reverse tail) m (reverse older) (omega (arith, tokens, fits))
        (omega (arith, tokens, full)) (omega (arith, tokens, room)) in
    let back : reverse (head ++ tail) ≡ reverse tail ++ m ∷ reverse older =
      reverse-append head tail ∙ ap (λ ms. reverse tail ++ ms) (reverse-append older (m ∷ [])) in
    let count : length (head ++ tail) - kept (budget * 4 / 5) 0 (reverse (head ++ tail))
        ≡ length head =
      omega (
        arith,
        ap (kept (budget * 4 / 5) 0) back,
        tail_kept,
        length-reverse tail,
        length-append head tail,
      ) in
    rw much (
      ap (λ n. cut_at n c (head ++ tail)) count
      ∙ cut_at_split c head tail (omega (arith, length-append older (m ∷ []))))
