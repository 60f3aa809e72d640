-- ===== src/Agent/Engine/Calls/Within.antt =====
-- How often one iteration calls the model, and that its calls report no `task_done`.
use picoaide.Prelude.{
  ℕ, zero, suc, ◌+◌, ◌≤◌, ◌≡◌, refl, ◌∙◌, String, Bool, true, false, not, ◌&&◌, Option, none, some,
  List, [], ◌∷◌, ◌++◌, str_eq, any, any-append, arith, of_if,
}
use picoaide.Agent.Tools.{ToolDef}
use picoaide.Agent.Engine.Context.{estimate_tokens, at_budget}
use picoaide.Agent.Engine.Events.{
  Chunk, Reply, StreamEvent, World, Engine, Run, usable, is_context_overflow, shown, report, text,
  call, bad_text, bad_call, finish, error, reasoning, unknown, streamed, compressing, progress,
  llm_retry, tool_progress, tool_result, failure, finished, task_done,
}
use picoaide.Agent.Engine.Calls.{
  is_empty, passes, write_back_named, compact_first, LlmEnd, streamed_from, ask, Retry,
  after_failure, after_error, after_reply, step_call, llm_calls,
}

abbrev pub is_task_done : StreamEvent → Bool
is_task_done (streamed c) = false
is_task_done (compressing s) = false
is_task_done (progress a b c d) = false
is_task_done (llm_retry a b) = false
is_task_done (tool_progress s) = false
is_task_done (tool_result a b c) = false
is_task_done (failure s) = false
is_task_done (finished s) = false
is_task_done (task_done s n) = true

-- No `task_done` yet, and no more than n calls of the model.
abbrev pub Within : ℕ → Run → Type 0
Within n r = (any is_task_done r.events ≡ false) × (r.calls ≤ n)

shown-quiet : (cs : List Chunk) → any is_task_done (shown cs) ≡ false
shown-quiet [] = refl
shown-quiet (text s ∷ cs) = shown-quiet cs
shown-quiet (call tc ∷ cs) = shown-quiet cs
shown-quiet (bad_text s ∷ cs) = shown-quiet cs
shown-quiet (bad_call s ∷ cs) = shown-quiet cs
shown-quiet (finish s ∷ cs) = shown-quiet cs
shown-quiet (error s ∷ cs) = shown-quiet cs
shown-quiet (reasoning s ∷ cs) = shown-quiet cs
shown-quiet (unknown kind s ∷ cs) = shown-quiet cs

pub append-quiet :
    (xs ys : List StreamEvent)
    → any is_task_done xs ≡ false
    → any is_task_done ys ≡ false
    → any is_task_done (xs ++ ys) ≡ false
append-quiet xs ys h k = any-append is_task_done xs ys ∙ rw h k

pub report-Within :
    (n : ℕ) (event : StreamEvent) (r : Run)
    → is_task_done event ≡ false
    → Within n r
    → Within n (report event r)
report-Within n event r e h = (append-quiet r.events (event ∷ []) h.0 (rw e refl), h.1)

pub compact_first-Within :
    (n : ℕ) (w : World) (e : Engine) (r : Run) → Within n r → Within n (compact_first w e r)
compact_first-Within n w e r h =
    let compacted = passes w e (report (compressing "start") r) in
    let begun = report-Within n (compressing "start") r refl h in
    of_if (Within n) (at_budget (estimate_tokens e.sys_prompt r.messages) (usable e))
      (λ _. report-Within n (compressing "done") (write_back_named e compacted) refl (
        of_if (Within n) (not (str_eq e.session_key "") && not (is_empty compacted.messages))
          (λ _. begun) (λ _. begun)))
      (λ _. h)

-- What a further try does where one is left.
abbrev Tries : ℕ → ℕ → Retry → Type 0
Tries n m none = Unit
Tries n m (some again) = (r : Run) → Within n r → Within m (again r).0

after_failure-Within :
    (n m : ℕ) (w : World) (e : Engine) (over : Retry) (tries : ℕ) (other : Retry) (message : String)
    (r : Run)
    → n ≤ m
    → Tries n m other
    → Within n r
    → Within m (after_failure w e over tries other message r).0
after_failure-Within n m w e over tries none message r le t h = (h.0, omega (arith, le, h.1))
after_failure-Within n m w e over tries (some again) message r le t h =
    t (report (llm_retry tries 5) r) (report-Within n _ r refl h)

after_error-Within :
    (n m : ℕ) (w : World) (e : Engine) (over : Retry) (tries : ℕ) (other : Retry) (message : String)
    (r : Run)
    → n ≤ m
    → Tries n m over
    → Tries n m other
    → Within n r
    → Within m (after_error w e over tries other message r).0
after_error-Within n m w e none tries other message r le s t h =
    after_failure-Within n m w e none tries other message r le t h
after_error-Within n m w e (some smaller) tries other message r le s t h =
    of_if {A = Run × LlmEnd} (λ x. Within m x.0) (is_context_overflow message)
      (λ _. s (passes w e r) h)
      (λ _. after_failure-Within n m w e (some smaller) tries other message r le t h)

after_reply-Within :
    (n m : ℕ) (w : World) (e : Engine) (over : Retry) (tries : ℕ) (other : Retry)
    (problem : Option String) (reply : Reply) (r : Run)
    → n ≤ m
    → Tries n m over
    → Tries n m other
    → Within n r
    → Within m (after_reply w e over tries other problem reply r).0
after_reply-Within n m w e over tries other none reply r le s t h = (h.0, omega (arith, le, h.1))
after_reply-Within n m w e over tries other (some message) reply r le s t h =
    after_error-Within n m w e over tries other message r le s t h

step_call-Within :
    (n m : ℕ) (w : World) (e : Engine) (defs : List ToolDef) (over : Retry) (tries : ℕ)
    (other : Retry) (r : Run)
    → n + 1 ≤ m
    → Tries (n + 1) m over
    → Tries (n + 1) m other
    → Within n r
    → Within m (step_call w e defs over tries other r).0
step_call-Within n m w e defs over tries other r le s t h =
    let reply = ask w e defs r in
    after_reply-Within (n + 1) m w e over tries other reply.error reply (streamed_from reply r) le s
      t
      (
        append-quiet r.events (shown reply.chunks) h.0 (shown-quiet reply.chunks),
        omega (arith, h.1),
      )

pub llm_calls-Within :
    (n m : ℕ) (w : World) (e : Engine) (defs : List ToolDef) (o l : ℕ) (r : Run)
    → n + (o + l + 1) ≤ m
    → Within n r
    → Within m (llm_calls w e defs o l r).0
llm_calls-Within n m w e defs zero zero r le h =
    step_call-Within n m w e defs none 0 none r (omega (arith, le)) tt tt h
llm_calls-Within n m w e defs zero (suc l) r le h =
    step_call-Within n m w e defs none _ (some (llm_calls w e defs zero l)) r (omega (arith, le)) tt
      (λ r' h'. llm_calls-Within (n + 1) m w e defs zero l r' (omega (arith, le)) h') h
llm_calls-Within n m w e defs (suc o) zero r le h =
    step_call-Within n m w e defs (some (llm_calls w e defs o zero)) 0 none r (omega (arith, le))
      (λ r' h'. llm_calls-Within (n + 1) m w e defs o zero r' (omega (arith, le)) h') tt h
llm_calls-Within n m w e defs (suc o) (suc l) r le h =
    step_call-Within n m w e defs (some (llm_calls w e defs o (suc l))) _
      (some (llm_calls w e defs (suc o) l)) r (omega (arith, le))
      (λ r' h'. llm_calls-Within (n + 1) m w e defs o (suc l) r' (omega (arith, le)) h')
      (λ r' h'. llm_calls-Within (n + 1) m w e defs (suc o) l r' (omega (arith, le)) h') h
