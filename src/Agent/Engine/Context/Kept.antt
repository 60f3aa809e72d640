-- ===== src/Agent/Engine/Context/Kept.antt =====
-- How many of the last messages the loop of `compactLLMMessages` keeps.
use mathlib.Core.List.{reverse, reverse-cons}
use picoaide.Prelude.{
  ℕ, suc, ◌+◌, ◌≤◌, ◌<◌, ◌≡◌, refl, ap, subst, ◌∙◌, ◌⊎◌, inl, inr, false, List, [], ◌∷◌, ◌++◌,
  length, length-append, take, drop, ltb, arith, Bool-cases,
}
use picoaide.Agent.Messages.{LlmMessage}
use picoaide.Agent.Engine.Context.{estimate_string_tokens, message_tokens, kept}

pub estimate-pos : (m : LlmMessage) → 0 < estimate_string_tokens m.content
unfolding estimate_string_tokens
estimate-pos m = omega arith

-- The loop stopped before the message that would not have fitted.
abbrev pub Stops : ℕ → ℕ → List LlmMessage → Type 0
Stops budget tokens [] = Unit
Stops budget tokens (m ∷ older) = budget < tokens + estimate_string_tokens m.content

abbrev Kept : ℕ → ℕ → List LlmMessage → ℕ → Type 0
Kept budget tokens rev n =
    (newer : List LlmMessage) × (older : List LlmMessage) × (rev ≡ newer ++ older)
    × (n ≡ length newer)
    × ((message_tokens newer + tokens ≤ budget) ⊎ (length newer ≡ 0))
    × Stops budget (message_tokens newer + tokens) older

kept_cases :
    (budget tokens : ℕ) (rev : List LlmMessage)
    → 0 < tokens
    → Kept budget tokens rev (kept budget tokens rev)
kept_cases budget tokens [] h = ([], [], refl, refl, inr refl, tt)
kept_cases budget tokens (m ∷ rest) h =
    elim (Bool-cases (ltb budget (tokens + estimate_string_tokens m.content))) [
      | inl full ↦ ([], m ∷ rest, refl, ground (arith, h, full), inr refl, ground (arith, full))
      | inr room ↦
          let t = tokens + estimate_string_tokens m.content in
          let (newer, older, split, count, fits, stops) =
            kept_cases budget t rest (omega (arith, h)) in
          let same : message_tokens newer + t ≡ message_tokens (m ∷ newer) + tokens = omega arith in
          (
            m ∷ newer,
            older,
            ap (λ ms. m ∷ ms) split,
            ground (arith, room, count),
            inl (room_left newer fits room),
            subst (λ n. Stops budget n older) same stops,
          )
    ]
  where
    room_left :
        (newer : List LlmMessage)
        → (message_tokens newer + (tokens + estimate_string_tokens m.content) ≤ budget)
          ⊎ (length newer ≡ 0)
        → ltb budget (tokens + estimate_string_tokens m.content) ≡ false
        → message_tokens (m ∷ newer) + tokens ≤ budget
    room_left newer (inl fits) room = omega (arith, fits)
    room_left [] (inr none_there) room = ground (arith, room)
    room_left (x ∷ xs) (inr none_there) room = absurd (omega (arith, none_there))

-- The last message is kept whether it fits or not.
pub kept_last :
    (budget : ℕ) (m : LlmMessage) (rest : List LlmMessage)
    → (newer : List LlmMessage) × (older : List LlmMessage) × (rest ≡ newer ++ older)
      × (kept budget 0 (m ∷ rest) ≡ suc (length newer))
      × ((message_tokens (m ∷ newer) ≤ budget) ⊎ (length newer ≡ 0))
      × Stops budget (message_tokens (m ∷ newer)) older
kept_last budget m rest =
    let t = 0 + estimate_string_tokens m.content in
    let (newer, older, split, count, fits, stops) =
      kept_cases budget t rest (omega (arith, estimate-pos m)) in
    let same : message_tokens newer + t ≡ message_tokens (m ∷ newer) = omega arith in
    (
      newer,
      older,
      split,
      ground (arith, count),
      subst (λ n. (n ≤ budget) ⊎ (length newer ≡ 0)) same fits,
      subst (λ n. Stops budget n older) same stops,
    )

message_tokens-append :
    (xs ys : List LlmMessage) → message_tokens (xs ++ ys) ≡ message_tokens xs + message_tokens ys
message_tokens-append [] ys = omega arith
message_tokens-append (x ∷ xs) ys = omega (arith, message_tokens-append xs ys)

pub message_tokens-reverse :
    (xs : List LlmMessage) → message_tokens (reverse xs) ≡ message_tokens xs
message_tokens-reverse [] = refl
message_tokens-reverse (x ∷ xs) =
    ap message_tokens (reverse-cons x xs)
    ∙ omega (arith, message_tokens-append (reverse xs) (x ∷ []), message_tokens-reverse xs)

pub length-reverse : (xs : List LlmMessage) → length (reverse xs) ≡ length xs
length-reverse [] = refl
length-reverse (x ∷ xs) =
    ap length (reverse-cons x xs)
    ∙ omega (arith, length-append (reverse xs) (x ∷ []), length-reverse xs)

pub take_prefix : (xs ys : List LlmMessage) → take (length xs) (xs ++ ys) ≡ xs
take_prefix [] ys = refl
take_prefix (x ∷ xs) ys = ap (λ zs. x ∷ zs) (take_prefix xs ys)

pub drop_prefix : (xs ys : List LlmMessage) → drop (length xs) (xs ++ ys) ≡ ys
drop_prefix [] ys = refl
drop_prefix (x ∷ xs) ys = drop_prefix xs ys

pub kept_exact :
    (budget tokens : ℕ) (newer : List LlmMessage) (m : LlmMessage) (older : List LlmMessage)
    → message_tokens newer + tokens ≤ budget
    → budget < message_tokens newer + tokens + estimate_string_tokens m.content
    → 0 < message_tokens newer + tokens
    → kept budget tokens (newer ++ m ∷ older) ≡ length newer
kept_exact budget tokens [] m older fits full some_there = ground (arith, fits, full, some_there)
kept_exact budget tokens (n ∷ ns) m older fits full some_there = ground (
  arith,
  fits,
  kept_exact budget (tokens + estimate_string_tokens n.content) ns m older (omega (arith, fits))
      (omega (arith, full)) (omega (arith, some_there)),
)
