-- ===== src/Web/TaskQueue/Valid.antt =====
-- What holds of the batch queue of internal/web/taskqueue.go between two steps.
use picoaide.Prelude.{
  ℕ, suc, ◌+◌, ◌<◌, ◌≤◌, ◌≡◌, refl, inl, inr, String, Bool, true, false, Option, none, some, List,
  [], ◌∷◌, ◌++◌, arith, length, ltb, leb, All, All-append, length-append, length-map, Bool-cases,
  of_if, eq_of_some, subst, ap, sym,
}
use picoaide.Web.TaskQueue.{
  TaskItem, PendingTask, TaskStatus, Worker, idle, finishing, looping, TaskQueue, task_queue_size,
  empty_queue, items_of, start_batch, submit, filtered, enqueue_task, send, send_from, execute_from,
  finish_from, count_result, report, update_status, on_status, after_item, run_item, execute,
  close_batch, start_next, finish, Event, enqueue, feeder_sends, worker_runs, worker_finishes, step,
}

-- Where the worker stands agrees with the counters and with what is left of the batch.
abbrev pub Phase : Worker → TaskQueue → Type 0
Phase idle q = (q.active ≡ false) × (q.pending ≡ []) × (length q.items ≡ 0) × (length q.to_send ≡ 0)
Phase (looping total) q =
    (q.active ≡ true)
    × (total ≡ q.total)
    × (q.done + q.failed + length q.items + length q.to_send ≡ q.total)
    × (0 < length q.items + length q.to_send)
Phase finishing q =
    (q.active ≡ true)
    × (length q.items ≡ 0)
    × (length q.to_send ≡ 0)
    × (q.done + q.failed ≡ q.total)

pub record Valid (q : TaskQueue) : Type 0 where
  pub phase : Phase q.worker q
  pub fits : length q.items ≤ task_queue_size
  pub waiting : All (λ t. 0 < length t.users) q.pending

pub length-items_of : (t : PendingTask) → length (items_of t) ≡ length t.users
length-items_of t = length-map _ t.users

start_batch-Valid :
    (t : PendingTask) (now : ℕ) (q : TaskQueue)
    → length q.items ≡ 0
    → length q.to_send ≡ 0
    → 0 < length t.users
    → All (λ t'. 0 < length t'.users) q.pending
    → Valid (start_batch t now q)
start_batch-Valid t now q no_items no_sends some_user waiting = record {
  phase = (
    refl,
    refl,
    omega (arith, no_items, no_sends, length-append q.to_send (items_of t), length-items_of t),
    omega (arith, some_user, length-append q.to_send (items_of t), length-items_of t),
  );
  fits = omega (arith, no_items);
  waiting = waiting;
}

-- The worker is idle exactly where no batch is active.
pub inactive :
    (q : TaskQueue)
    → (w : Worker) → Phase w q
    → q.active ≡ false
    → (q.pending ≡ []) × (length q.items ≡ 0) × (length q.to_send ≡ 0)
inactive q idle h e = (h.1, h.2, h.3)
inactive q (looping t) h e = absurd (ground arith)
inactive q finishing h e = absurd (ground arith)

active-Phase :
    (q : TaskQueue) (ts : List PendingTask) (w : Worker)
    → Phase w q
    → q.active ≡ true
    → Phase w (record q { pending = ts })
active-Phase q ts idle h e = absurd (ground arith)
active-Phase q ts (looping t) h e = h
active-Phase q ts finishing h e = h

submit-Valid :
    (t : PendingTask) (now : ℕ) (q : TaskQueue)
    → 0 < length t.users
    → Valid q
    → Valid (submit t now q)
submit-Valid t now q some_user v =
    of_if Valid q.active
      (λ on. record {
        phase = active-Phase q (q.pending ++ t ∷ []) q.worker v.phase on;
        fits = v.fits;
        waiting = All-append (λ t'. 0 < length t'.users) q.pending t v.waiting some_user;
      })
      λ off.
        let (_, no_items, no_sends) = inactive q q.worker v.phase off in
        start_batch-Valid t now q no_items no_sends some_user v.waiting

enqueue_task-Valid :
    (is_superadmin : String → Bool) (t : PendingTask) (now : ℕ) (q : TaskQueue)
    → Valid q
    → Valid (enqueue_task is_superadmin t now q).1
unfolding enqueue_task
enqueue_task-Valid is_superadmin t now q v =
    let left = filtered is_superadmin t in
    of_if (λ (r : Option String × TaskQueue). Valid r.1) (leb (length left.users) 0)
      (λ none_left. v) λ some_left. submit-Valid left now q (ground arith) v

send-Phase :
    (q : TaskQueue) (w : Worker) (items sends : List TaskItem)
    → length items ≡ suc (length q.items)
    → length q.to_send ≡ suc (length sends)
    → Phase w q
    → Phase w (record q { items = items; to_send = sends })
send-Phase q idle items sends e k h = absurd (omega (arith, h.3, k))
send-Phase q (looping t) items sends e k h = (h.0, h.1, omega (arith, h.2, e, k), omega (arith, e))
send-Phase q finishing items sends e k h = absurd (omega (arith, h.2, k))

send_from-Valid :
    (sends : List TaskItem) (q q' : TaskQueue)
    → q.to_send ≡ sends
    → send_from sends q ≡ some q'
    → Valid q
    → Valid q'
send_from-Valid [] q q' es e v = absurd (ground arith)
send_from-Valid (i ∷ rest) q q' es e v = elim (Bool-cases (ltb (length q.items) task_queue_size)) [
  | inl room ↦ subst Valid (ground arith) (record {
    phase =
        send-Phase q q.worker (q.items ++ i ∷ []) rest
          (omega (arith, length-append q.items (i ∷ []))) (omega (arith, ap length es)) v.phase;
    fits = ground (arith, length-append q.items (i ∷ []));
    waiting = v.waiting;
  })
  | inr full ↦ absurd (ground arith)
]

update_status-keeps :
    (P : TaskQueue → Type 0) (o : Option TaskStatus) (f : TaskStatus → TaskStatus) (q : TaskQueue)
    → P q
    → ((s : Option TaskStatus) → P (record q { status = s }))
    → P (update_status o f q)
update_status-keeps P none f q h k = h
update_status-keeps P (some s) f q h k = k (some (f s))

-- The batch is under way and its counters agree.
abbrev Running : ℕ → TaskQueue → Type 0
Running total q =
    (q.active ≡ true)
    × (total ≡ q.total)
    × (q.done + q.failed + length q.items + length q.to_send ≡ q.total)
    × (length q.items ≤ task_queue_size)
    × All (λ t. 0 < length t.users) q.pending

after_item-Valid : (total : ℕ) (q : TaskQueue) → Running total q → Valid (after_item total q)
after_item-Valid total q (on, e, sum, fits, waiting) = record {
  phase =
      of_if (λ w. Phase w (record q { worker = w })) (leb total (q.done + q.failed))
        (λ over. (on, ground arith, ground arith, ground arith)) λ more. (on, e, sum, ground arith);
  fits = fits;
  waiting = waiting;
}

count_result-Running :
    (result : Option String) (total : ℕ) (q : TaskQueue)
    → q.active ≡ true
    → total ≡ q.total
    → suc (q.done + q.failed + length q.items + length q.to_send) ≡ q.total
    → length q.items ≤ task_queue_size
    → All (λ t. 0 < length t.users) q.pending
    → Running total (count_result result q)
count_result-Running none total q on e sum fits waiting = (on, e, omega (arith, sum), fits, waiting)
count_result-Running (some m) total q on e sum fits waiting =
    (on, e, omega (arith, sum), fits, waiting)

run_item-Valid :
    (total : ℕ) (i : TaskItem) (rest : List TaskItem) (now : ℕ) (q : TaskQueue)
    → length q.items ≡ suc (length rest)
    → Phase (looping total) q
    → Valid q
    → Valid (run_item total i now (record q { items = rest }))
run_item-Valid total i rest now q e h v =
    let result = i.fn i.username now in
    let counted = count_result result (record q { items = rest }) in
    let running =
      count_result-Running result total (record q { items = rest }) h.0 h.1 (omega (arith, h.2, e))
        (omega (arith, v.fits, e)) v.waiting in
    after_item-Valid total (on_status (report i result counted.done counted.failed) counted) (
      update_status-keeps (Running total) counted.status
        (report i result counted.done counted.failed) counted running (λ s. running))

execute_from-Valid :
    (w : Worker) (items : List TaskItem) (now : ℕ) (q q' : TaskQueue)
    → length q.items ≡ length items
    → Phase w q
    → execute_from w items now q ≡ some q'
    → Valid q
    → Valid q'
execute_from-Valid idle items now q q' ei h e v = absurd (ground arith)
execute_from-Valid finishing items now q q' ei h e v = absurd (ground arith)
execute_from-Valid (looping t) [] now q q' ei h e v = absurd (ground arith)
execute_from-Valid (looping t) (i ∷ rest) now q q' ei h e v =
    subst Valid (eq_of_some e) (run_item-Valid t i rest now q ei h v)

start_next-Valid :
    (ts : List PendingTask) (now : ℕ) (q : TaskQueue)
    → q.pending ≡ ts
    → q.active ≡ false
    → length q.items ≡ 0
    → length q.to_send ≡ 0
    → All (λ t. 0 < length t.users) ts
    → Valid (start_next ts now q)
start_next-Valid [] now q e off no_items no_sends waiting = record {
  phase = (off, e, no_items, no_sends);
  fits = omega (arith, no_items);
  waiting = subst (All (λ t. 0 < length t.users)) (sym e) waiting;
}
start_next-Valid (t ∷ ts) now q e off no_items no_sends waiting =
    start_batch-Valid t now (record q { pending = ts }) no_items no_sends waiting.0 waiting.1

finish_from-Valid :
    (w : Worker) (now : ℕ) (q q' : TaskQueue)
    → Phase w q
    → finish_from w now q ≡ some q'
    → Valid q
    → Valid q'
finish_from-Valid idle now q q' h e v = absurd (ground arith)
finish_from-Valid (looping t) now q q' h e v = absurd (ground arith)
finish_from-Valid finishing now q q' h e v =
    let off = record q { active = false } in
    subst Valid (eq_of_some e) (
      update_status-keeps (λ q1. Valid (start_next q.pending now q1)) off.status (close_batch q) off
        (start_next-Valid q.pending now off refl refl h.1 h.2 v.waiting)
        λ s. start_next-Valid q.pending now (record off { status = s }) refl refl h.1 h.2 v.waiting)

-- Every step keeps the queue as it should be: the counters and what is left of the batch add up
-- to its size, the channel is not over its size, no batch that waits is empty, and where no batch
-- is active nothing is left over.
pub step-Valid : (event : Event) (q q' : TaskQueue) → step event q ≡ some q' → Valid q → Valid q'
unfolding step send execute finish
step-Valid (enqueue is_superadmin t now) q q' e v =
    subst Valid (eq_of_some e) (enqueue_task-Valid is_superadmin t now q v)
step-Valid feeder_sends q q' e v = send_from-Valid q.to_send q q' refl e v
step-Valid (worker_runs now) q q' e v =
    execute_from-Valid q.worker q.items now q q' refl v.phase e v
step-Valid (worker_finishes now) q q' e v = finish_from-Valid q.worker now q q' v.phase e v

pub empty_queue-Valid : Valid empty_queue
empty_queue-Valid = record { phase = (refl, refl, refl, refl); fits = omega arith; waiting = tt }
