-- ===== src/Web/TaskQueue/Progress.antt =====
-- The batch queue of internal/web/taskqueue.go neither blocks nor runs for ever.
use picoaide.Prelude.{
  ℕ, zero, suc, ◌+◌, ◌*◌, ◌<◌, ◌≤◌, ◌≡◌, refl, sym, ap, ◌∙◌, subst, inl, inr, String, Bool, true,
  false, Option, none, some, List, [], ◌∷◌, ◌++◌, arith, if◌then◌else◌, length, ltb, leb,
  Bool-cases, of_if, eq_of_some, length-append, append-nil,
}
use picoaide.Web.TaskQueue.{
  TaskItem, PendingTask, TaskStatus, Worker, idle, finishing, looping, TaskQueue, task_queue_size,
  items_of, send, send_from, execute_from, finish_from, count_result, report, update_status,
  on_status, after_item, run_item, execute, close_batch, start_next, finish, Event, enqueue,
  feeder_sends, worker_runs, worker_finishes, step,
}
use picoaide.Web.TaskQueue.Valid.{Phase, Valid, step-Valid, inactive, length-items_of}
use picoaide.Web.TaskQueue.Order.{
  Run, stop, next, backlog, ran, submissions, Run-Valid, Run-backlog, empty_backlog,
}

-- A step of the feeder or of the worker, not of a submitter.
abbrev pub is_internal : Event → Bool
is_internal (enqueue is_superadmin t now) = false
is_internal feeder_sends = true
is_internal (worker_runs now) = true
is_internal (worker_finishes now) = true

abbrev pub all_internal : List Event → Bool
all_internal [] = true
all_internal (e ∷ es) = if is_internal e then all_internal es else false

abbrev waiting_work : List PendingTask → ℕ
waiting_work [] = 0
waiting_work (t ∷ ts) = 2 * length t.users + 2 + waiting_work ts

abbrev rank : Worker → ℕ
rank idle = 0
rank finishing = 1
rank (looping total) = 2

abbrev load : TaskQueue → ℕ
load q = length q.items + 2 * length q.to_send + waiting_work q.pending

-- How many steps the queue has before it at most.
abbrev pub work : TaskQueue → ℕ
work q = load q + rank q.worker

update_status-load :
    (o : Option TaskStatus) (f : TaskStatus → TaskStatus) (q : TaskQueue)
    → load (update_status o f q) ≡ load q
update_status-load none f q = refl
update_status-load (some s) f q = refl

count_result-load : (r : Option String) (q : TaskQueue) → load (count_result r q) ≡ load q
count_result-load none q = refl
count_result-load (some e) q = refl

after_item-work : (total : ℕ) (q : TaskQueue) → work (after_item total q) ≤ load q + 2
after_item-work total q =
    of_if (λ w. load q + rank w ≤ load q + 2) (leb total (q.done + q.failed)) (λ over. omega arith)
      (λ more. omega arith)

run_item-work :
    (total : ℕ) (i : TaskItem) (rest : List TaskItem) (now : ℕ) (q : TaskQueue)
    → work (run_item total i now (record q { items = rest })) ≤ load (record q { items = rest }) + 2
run_item-work total i rest now q =
    let result = i.fn i.username now in
    let counted = count_result result (record q { items = rest }) in
    let f = report i result counted.done counted.failed in
    subst (λ l. work (run_item total i now (record q { items = rest })) ≤ l + 2)
      (update_status-load counted.status f counted
        ∙ count_result-load result (record q { items = rest }))
      (after_item-work total (on_status f counted))

send_from-work :
    (sends : List TaskItem) (q q' : TaskQueue)
    → q.to_send ≡ sends
    → send_from sends q ≡ some q'
    → work q' < work q
send_from-work [] q q' es e = absurd (ground arith)
send_from-work (i ∷ rest) q q' es e = elim (Bool-cases (ltb (length q.items) task_queue_size)) [
  | inl room ↦
      subst (λ q1. work q1 < work q) {x = record q { items = q.items ++ i ∷ []; to_send = rest }}
        {y = q'} (ground arith) (omega (arith, ap length es, length-append q.items (i ∷ [])))
  | inr full ↦ absurd (ground arith)
]

execute_from-work :
    (w : Worker) (items : List TaskItem) (now : ℕ) (q q' : TaskQueue)
    → q.items ≡ items
    → q.worker ≡ w
    → execute_from w items now q ≡ some q'
    → work q' < work q
execute_from-work idle items now q q' ei ew e = absurd (ground arith)
execute_from-work finishing items now q q' ei ew e = absurd (ground arith)
execute_from-work (looping t) [] now q q' ei ew e = absurd (ground arith)
execute_from-work (looping t) (i ∷ rest) now q q' ei ew e =
    subst (λ q1. work q1 < work q) (eq_of_some e)
      (omega (arith, run_item-work t i rest now q, ap length ei, ap rank ew))

start_next-work :
    (ts : List PendingTask) (now : ℕ) (q : TaskQueue)
    → q.pending ≡ ts
    → length q.to_send ≡ 0
    → work (start_next ts now q) ≤ length q.items + waiting_work ts
start_next-work [] now q e no_sends = omega (arith, no_sends, ap waiting_work e)
start_next-work (t ∷ ts) now q e no_sends =
    omega (arith, no_sends, length-append q.to_send (items_of t), length-items_of t)

finish_from-work :
    (w : Worker) (now : ℕ) (q q' : TaskQueue)
    → q.worker ≡ w
    → Phase w q
    → finish_from w now q ≡ some q'
    → work q' < work q
finish_from-work idle now q q' ew h e = absurd (ground arith)
finish_from-work (looping t) now q q' ew h e = absurd (ground arith)
finish_from-work finishing now q q' ew h e =
    subst (λ q1. work q1 < work q) (eq_of_some e) (go q.status)
  where
    go :
        (o : Option TaskStatus)
        → work (
            start_next q.pending now
              (update_status o (close_batch q) (record q { active = false })))
          < work q
    go none = omega (
      arith,
      ap rank ew,
      h.2,
      start_next-work q.pending now (record q { active = false }) refl h.2,
    )
    go (some s) = omega (
      arith,
      ap rank ew,
      h.2,
      start_next-work q.pending now (record q { active = false; status = some (close_batch q s) })
          refl h.2,
    )

step-work :
    (event : Event) (q q' : TaskQueue)
    → is_internal event ≡ true
    → step event q ≡ some q'
    → Valid q
    → work q' < work q
unfolding step send execute finish
step-work (enqueue is_superadmin t now) q q' i e v = absurd (ground arith)
step-work feeder_sends q q' i e v = send_from-work q.to_send q q' refl e
step-work (worker_runs now) q q' i e v = execute_from-work q.worker q.items now q q' refl refl e
step-work (worker_finishes now) q q' i e v = finish_from-work q.worker now q q' refl v.phase e

-- However feeder and worker take turns, without new submissions they stop: a run has at most
-- `work q` steps, less what is left to do where it stops.
pub every_schedule_ends :
    {q q' : TaskQueue} {events : List Event} {done : List TaskItem}
    → Run q events done q'
    → Valid q
    → all_internal events ≡ true
    → length events + work q' ≤ work q
every_schedule_ends stop v h = omega arith
every_schedule_ends {q = q} {q' = q''} (next {q' = q'} {event = event} {events = events} e r) v h =
    let first = step-work event q q' (ground arith) e v in
    omega (arith, first, every_schedule_ends r (step-Valid event q q' e v) (ground arith))

send_from-moves :
    (sends : List TaskItem) (q : TaskQueue)
    → 0 < length sends
    → length q.items < task_queue_size
    → (q' : TaskQueue) × (send_from sends q ≡ some q')
send_from-moves [] q some_send room = absurd (omega (arith, some_send))
send_from-moves (i ∷ rest) q some_send room =
    (record q { items = q.items ++ i ∷ []; to_send = rest }, ground arith)

execute_from-moves :
    (total : ℕ) (items : List TaskItem) (now : ℕ) (q : TaskQueue)
    → 0 < length items
    → (q' : TaskQueue) × (execute_from (looping total) items now q ≡ some q')
execute_from-moves total [] now q some_item = absurd (omega (arith, some_item))
execute_from-moves total (i ∷ rest) now q some_item = (_, refl)

-- While a batch is active, the feeder or the worker can move.
can_move :
    (w : Worker) (now : ℕ) (q : TaskQueue)
    → q.worker ≡ w
    → Phase w q
    → q.active ≡ true
    → (event : Event) × (q' : TaskQueue) × (is_internal event ≡ true) × (step event q ≡ some q')
unfolding step send execute finish
can_move idle now q ew h on = absurd (ground arith)
can_move finishing now q ew h on = (worker_finishes now, _, refl, ap (λ w. finish_from w now q) ew)
can_move (looping t) now q ew h on = elim (Bool-cases (ltb 0 (length q.items))) [
  | inl some_item ↦
      let (q', e) = execute_from-moves t q.items now q (ground arith) in
      (worker_runs now, q', refl, ap (λ w. execute_from w q.items now q) ew ∙ e)
  | inr no_item ↦
      let (q', e) = send_from-moves q.to_send q (ground arith) (ground arith) in
      (feeder_sends, q', refl, e)
]

drain_within :
    (fuel : ℕ) (now : ℕ) (q : TaskQueue)
    → work q < fuel
    → Valid q
    → (events : List Event) × (done : List TaskItem) × (q' : TaskQueue) × (all_internal events
        ≡ true)
      × (Run q events done q')
      × (q'.active ≡ false)
drain_within zero now q enough v = absurd (omega (arith, enough))
drain_within (suc fuel) now q enough v = elim (Bool-cases q.active) [
  | inl on ↦
      let (event, q1, i, e) = can_move q.worker now q refl v.phase on in
      let (events, done, q', all, r, off) =
        drain_within fuel now q1 (omega (arith, enough, step-work event q q1 i e v))
          (step-Valid event q q1 e v) in
      (event ∷ events, ran event q ++ done, q', ground arith, next e r, off)
  | inr off ↦ ([], [], q, refl, stop, off)
]

internal_submissions : (events : List Event) → all_internal events ≡ true → submissions events ≡ []
internal_submissions [] h = refl
internal_submissions (enqueue s t now ∷ es) h = absurd (ground arith)
internal_submissions (feeder_sends ∷ es) h = internal_submissions es h
internal_submissions (worker_runs now ∷ es) h = internal_submissions es h
internal_submissions (worker_finishes now ∷ es) h = internal_submissions es h

-- From every queue in order, feeder and worker can go on until no batch is active, and what they
-- have run by then is all that was waiting, in its order.
pub drains :
    (now : ℕ) (q : TaskQueue)
    → Valid q
    → (events : List Event) × (q' : TaskQueue) × (all_internal events ≡ true)
      × (Run q events (backlog q) q')
      × (q'.active ≡ false)
drains now q v =
    let (events, done, q', all, r, off) = drain_within (suc (work q)) now q (omega arith) v in
    let (no_pending, no_items, no_sends) = inactive q' q'.worker (Run-Valid r v).phase off in
    let ran_all =
      sym (append-nil done)
      ∙ ap (λ b. done ++ b) (sym (empty_backlog q' no_pending no_items no_sends))
      ∙ Run-backlog r v
      ∙ ap (λ b. backlog q ++ b) (internal_submissions events all)
      ∙ append-nil (backlog q) in
    (events, q', all, subst (λ d. Run q events d q') ran_all r, off)
