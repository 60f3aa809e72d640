-- ===== src/Web/Tests.antt =====
-- The properties of internal/web at concrete inputs.
use picoaide.Prelude.{
  ◌+++◌, ◌-◌, ℕ, ◌+◌, ◌≤◌, ◌≡◌, refl, String, Bool, true, false, Option, none, some, List, [], ◌∷◌,
  ◌++◌, arith, if◌then◌else◌, ltb, length, str_eq, decimal,
}
use picoaide.Web.SessionTokens.{session_max_age, create_session_token, parse_session_token}
use picoaide.Web.SessionTokens.Signed.{parse_session_token-create_session_token}
use picoaide.Web.RateLimit.{Event, attempt, tick, new_rate_limiter, allow, cleanup, decisions}
use picoaide.Web.RateLimit.Window.{
  spec_decisions, no_history, passed, in_window, decisions-eq-spec, passed-le-limit,
}
use picoaide.Web.Pagination.{count_pages}
use picoaide.Web.Pagination.Pages.{pages_up_to, pages_up_to_last}
use picoaide.Web.TaskQueue.{
  TaskItem, PendingTask, TaskQueue, empty_queue, Event as Step, enqueue, feeder_sends, worker_runs,
  worker_finishes, step, enqueue_task, send, execute, finish, get_task_status,
}
use picoaide.Web.TaskQueue.Valid.{Valid, step-Valid, empty_queue-Valid}
use picoaide.Web.TaskQueue.Order.{Run, stop, next, backlog, submissions, runs_in_order}
use picoaide.Web.TaskQueue.Progress.{all_internal, work, every_schedule_ends, drains}

abbrev requests : List Event
requests = attempt 1 "a" ∷ attempt 2 "a" ∷ tick 3 ∷ attempt 4 "a" ∷ attempt 40 "a" ∷ []

answers : decisions (new_rate_limiter 2 10) requests ≡ true ∷ true ∷ false ∷ true ∷ []
unfolding decisions new_rate_limiter allow cleanup
answers = refl

decisions-eq-spec_example :
    decisions (new_rate_limiter 2 10) requests ≡ spec_decisions 2 10 no_history requests
decisions-eq-spec_example =
    decisions-eq-spec 2 10 requests
      (omega arith, (omega arith, (omega arith, (omega arith, (omega arith, tt)))))

passed-le-limit_example : in_window 10 3 (passed (new_rate_limiter 2 10) "a" requests) ≤ 2
passed-le-limit_example =
    passed-le-limit 2 10 requests "a" 3
      (omega arith, (omega arith, (omega arith, (omega arith, (omega arith, tt)))))

abbrev listing : List ℕ
listing = 4 ∷ 5 ∷ 6 ∷ 7 ∷ 8 ∷ []

pages_up_to_last_example : pages_up_to listing 2 (count_pages (length listing) 2) ≡ listing
pages_up_to_last_example = pages_up_to_last listing 2 (omega arith)

-- Everyone but `root` is an ordinary user; `bad` fails.
abbrev is_root : String → Bool
is_root u = str_eq u "root"

abbrev restart : PendingTask
restart = record {
  task_type = "restart";
  users = "root" ∷ "ann" ∷ "bad" ∷ [];
  fn = λ u now. if str_eq u "bad" then some "no container" else none;
}

abbrev or_empty : Option TaskQueue → TaskQueue
or_empty none = empty_queue
or_empty (some q) = q

abbrev submitted_queue : TaskQueue
submitted_queue = or_empty (step (enqueue is_root restart 7) empty_queue)

abbrev fed_queue : TaskQueue
fed_queue = or_empty (step feeder_sends submitted_queue)

abbrev ran_queue : TaskQueue
ran_queue = or_empty (step (worker_runs 8) fed_queue)

abbrev fed_again : TaskQueue
fed_again = or_empty (step feeder_sends ran_queue)

abbrev ran_again : TaskQueue
ran_again = or_empty (step (worker_runs 9) fed_again)

abbrev last_queue : TaskQueue
last_queue = or_empty (step (worker_finishes 10) ran_again)

last_status : (get_task_status last_queue).message ≡ "完成：1 成功，1 失败"
unfolding get_task_status step enqueue_task send execute finish decimal
last_status = refl

abbrev internal_steps : List Step
internal_steps =
    feeder_sends ∷ worker_runs 8 ∷ feeder_sends ∷ worker_runs 9 ∷ worker_finishes 10 ∷ []

abbrev both_items : List TaskItem
both_items =
    record { username = "ann"; fn = restart.fn } ∷ record { username = "bad"; fn = restart.fn } ∷ []

submitted-Run : Run submitted_queue internal_steps both_items last_queue
unfolding step enqueue_task send execute finish
submitted-Run = next {q' = fed_queue} refl (
    next {q' = ran_queue} refl
      (next {q' = fed_again} refl (next {q' = ran_again} refl (next {q' = last_queue} refl stop))))

whole-Run : Run empty_queue (enqueue is_root restart 7 ∷ internal_steps) both_items last_queue
unfolding step enqueue_task send execute finish
whole-Run = next {q' = submitted_queue} refl submitted-Run

submitted_queue-Valid : Valid submitted_queue
unfolding step enqueue_task
submitted_queue-Valid =
    step-Valid (enqueue is_root restart 7) empty_queue submitted_queue refl empty_queue-Valid

runs_in_order_example :
    (both_items ++ backlog last_queue ≡ submissions (enqueue is_root restart 7 ∷ internal_steps))
    × (last_queue.active ≡ false
        → both_items ≡ submissions (enqueue is_root restart 7 ∷ internal_steps))
runs_in_order_example = runs_in_order whole-Run

every_schedule_ends_example : length internal_steps + work last_queue ≤ work submitted_queue
every_schedule_ends_example = every_schedule_ends submitted-Run submitted_queue-Valid refl

drains_example :
    (events : List Step) × (q' : TaskQueue) × (all_internal events ≡ true)
    × (Run submitted_queue events (backlog submitted_queue) q')
    × (q'.active ≡ false)
drains_example = drains 8 submitted_queue submitted_queue-Valid

-- A signature that shows what it signs.
abbrev bracketed : String → String
bracketed s = "<" +++ s +++ ">"

parse_session_token-create_session_token_example :
    parse_session_token bracketed (create_session_token bracketed "ann" 100) 200
    ≡ (if ltb session_max_age (200 - 100) then none else some "ann")
parse_session_token-create_session_token_example =
    parse_session_token-create_session_token bracketed "ann" 100 200 refl (omega arith)

abbrev a_token : String
a_token = "ann:100:<ann:100>"
