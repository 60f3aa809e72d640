-- ===== src/Agent/Engine/Loop/Ends.antt =====
-- How `Process` of internal/agent/engine.go ends, and how often it calls the model.
use picoaide.Prelude.{ℕ, ◌≤◌, ◌≡◌, ◌⊎◌, String, false, none, some, List, [], ◌∷◌, ◌++◌, str_eq, any}
use picoaide.Agent.Engine.Events.{StreamEvent, Engine, Run, report, failure, finished, task_done}
use picoaide.Agent.Engine.Loop.{Turn, LoopEnd, Step, Processed, failed, replied, next, done}
use picoaide.Agent.Engine.Calls.Within.{is_task_done, Within}

-- An answer that is nothing has no error of its own: a failure has been reported, with no
-- `task_done` before it.
abbrev Ended : ℕ → Turn → LoopEnd → Type 0
Ended n t (failed message) = (r : Run) × Within n r × (t.run ≡ report (failure message) r)
Ended n t (replied response) = Within n t.run

abbrev StepEnds : ℕ → Step → Type 0
StepEnds n (next t) = Within n t.run
StepEnds n (done t end) = Ended n t end

-- The last two events, and the error that `Process` returns.
abbrev pub Closes : List StreamEvent → Processed → Type 0
Closes before (r, problem) =
    ((response : String) × (n : ℕ) × (str_eq response "" ≡ false)
      × (r.events ≡ (before ++ finished response ∷ []) ++ task_done "completed" n ∷ [])
      × (problem ≡ none))
    ⊎ ((text : String) × (message : String) × (r.events
          ≡ (before ++ failure text ∷ []) ++ task_done "error" 0 ∷ [])
        × (problem ≡ some message))

abbrev pub EndsOnce : ℕ → Processed → Type 0
EndsOnce n p =
    (before : List StreamEvent) × (any is_task_done before ≡ false)
    × Closes before p
    × (p.0.calls ≤ n)
