-- ===== src/Web/TaskQueue/Order.antt =====
-- The batch queue of internal/web/taskqueue.go runs each user once, in the order of submission.
use picoaide.Prelude.{
  ℕ, ◌≡◌, refl, sym, ap, ◌∙◌, inl, inr, String, Bool, false, Option, none, some, List, [], ◌∷◌,
  ◌++◌, arith, if◌then◌else◌, length, ltb, leb, Bool-cases, of_if, eq_of_some, append_assoc,
  append-nil,
}
use picoaide.Web.TaskQueue.{
  TaskItem, PendingTask, TaskStatus, Worker, idle, finishing, looping, TaskQueue, task_queue_size,
  empty_queue, items_of, start_batch, submit, filtered, enqueue_task, send, send_from, execute_from,
  finish_from, count_result, report, update_status, execute, close_batch, start_next, finish, Event,
  enqueue, feeder_sends, worker_runs, worker_finishes, step,
}
use picoaide.Web.TaskQueue.Valid.{Phase, Valid, step-Valid, inactive, empty_queue-Valid}

abbrev batches : List PendingTask → List TaskItem
batches [] = []
batches (t ∷ ts) = items_of t ++ batches ts

-- What is still to run, the next first.
abbrev pub backlog : TaskQueue → List TaskItem
backlog q = q.items ++ (q.to_send ++ batches q.pending)

-- What an event submits, and what it runs.
abbrev pub submitted : Event → List TaskItem
submitted (enqueue is_superadmin t now) = items_of (filtered is_superadmin t)
submitted feeder_sends = []
submitted (worker_runs now) = []
submitted (worker_finishes now) = []

abbrev first_item : List TaskItem → List TaskItem
first_item [] = []
first_item (i ∷ is) = i ∷ []

abbrev pub ran : Event → TaskQueue → List TaskItem
ran (worker_runs now) q = first_item q.items
ran (enqueue is_superadmin t now) q = []
ran feeder_sends q = []
ran (worker_finishes now) q = []

batches-append :
    (ts : List PendingTask) (t : PendingTask) → batches (ts ++ t ∷ []) ≡ batches ts ++ items_of t
batches-append [] t = append-nil (items_of t)
batches-append (t' ∷ ts) t =
    ap (λ b. items_of t' ++ b) (batches-append ts t)
    ∙ sym (append_assoc (items_of t') (batches ts) (items_of t))

pub nil_of_length : {A : Type 0} (xs : List A) → length xs ≡ 0 → xs ≡ []
nil_of_length [] h = refl
nil_of_length (x ∷ xs) h = absurd (omega (arith, h))

-- A batch that starts where nothing is left over is the next to run.
start_batch-backlog :
    (t : PendingTask) (now : ℕ) (q : TaskQueue)
    → length q.items ≡ 0
    → length q.to_send ≡ 0
    → backlog (start_batch t now q) ≡ items_of t ++ batches q.pending
start_batch-backlog t now q no_items no_sends =
    rw (nil_of_length q.items no_items, nil_of_length q.to_send no_sends) refl

pub empty_backlog :
    (q : TaskQueue) → q.pending ≡ [] → length q.items ≡ 0 → length q.to_send ≡ 0 → backlog q ≡ []
empty_backlog q no_pending no_items no_sends =
    rw (nil_of_length q.items no_items, nil_of_length q.to_send no_sends, no_pending) refl

submit-backlog :
    (t : PendingTask) (now : ℕ) (q : TaskQueue)
    → Valid q
    → backlog (submit t now q) ≡ backlog q ++ items_of t
submit-backlog t now q v =
    of_if (λ q'. backlog q' ≡ backlog q ++ items_of t) q.active {y = start_batch t now q}
      (λ on. longer q.items q.to_send)
      λ off.
        let (no_pending, no_items, no_sends) = inactive q q.worker v.phase off in
        start_batch-backlog t now q no_items no_sends
        ∙ rw (no_pending, nil_of_length q.items no_items, nil_of_length q.to_send no_sends)
            (append-nil (items_of t))
  where
    longer :
        (items sends : List TaskItem)
        → items ++ (sends ++ batches (q.pending ++ t ∷ []))
          ≡ (items ++ (sends ++ batches q.pending)) ++ items_of t
    longer items sends = rw (batches-append q.pending t) (
        ap (λ b. items ++ b) (sym (append_assoc sends (batches q.pending) (items_of t)))
        ∙ sym (append_assoc items (sends ++ batches q.pending) (items_of t)))

enqueue_task-backlog :
    (is_superadmin : String → Bool) (t : PendingTask) (now : ℕ) (q : TaskQueue)
    → Valid q
    → backlog (enqueue_task is_superadmin t now q).1
      ≡ backlog q ++ items_of (filtered is_superadmin t)
unfolding enqueue_task
enqueue_task-backlog is_superadmin t now q v =
    let left = filtered is_superadmin t in
    of_if (λ (r : Option String × TaskQueue). backlog r.1 ≡ backlog q ++ items_of left)
      (leb (length left.users) 0)
      (λ none_left. rw (nil_of_length left.users (ground arith)) (sym (append-nil (backlog q))))
      λ some_left. submit-backlog left now q v

send_from-backlog :
    (sends : List TaskItem) (q q' : TaskQueue)
    → q.to_send ≡ sends
    → send_from sends q ≡ some q'
    → backlog q' ≡ backlog q
send_from-backlog [] q q' es e = absurd (ground arith)
send_from-backlog (i ∷ rest) q q' es e = elim (Bool-cases (ltb (length q.items) task_queue_size)) [
  | inl room ↦
      ap backlog (
        sym (
          eq_of_some (
            sym (
              ap
                (λ b.
                  if b then some (record q { items = q.items ++ i ∷ []; to_send = rest }) else none)
                room)
            ∙ e)))
      ∙ append_assoc q.items (i ∷ []) (rest ++ batches q.pending)
      ∙ ap (λ sends. q.items ++ (sends ++ batches q.pending)) (sym es)
  | inr full ↦ absurd (ground arith)
]

-- The report on the status leaves the backlog.
update_status-backlog :
    (o : Option TaskStatus) (f : TaskStatus → TaskStatus) (q : TaskQueue)
    → backlog (update_status o f q) ≡ backlog q
update_status-backlog none f q = refl
update_status-backlog (some s) f q = refl

count_result-backlog : (r : Option String) (q : TaskQueue) → backlog (count_result r q) ≡ backlog q
count_result-backlog none q = refl
count_result-backlog (some m) q = refl

execute_from-backlog :
    (w : Worker) (items : List TaskItem) (now : ℕ) (q q' : TaskQueue)
    → q.items ≡ items
    → execute_from w items now q ≡ some q'
    → first_item items ++ backlog q' ≡ backlog q
execute_from-backlog idle items now q q' ei e = absurd (ground arith)
execute_from-backlog finishing items now q q' ei e = absurd (ground arith)
execute_from-backlog (looping t) [] now q q' ei e = absurd (ground arith)
execute_from-backlog (looping t) (i ∷ rest) now q q' ei e =
    let result = i.fn i.username now in
    let counted = count_result result (record q { items = rest }) in
    ap (λ b. i ∷ b)
      (ap backlog (sym (eq_of_some e))
        ∙ update_status-backlog counted.status (report i result counted.done counted.failed) counted
        ∙ count_result-backlog result (record q { items = rest }))
    ∙ ap (λ items. items ++ (q.to_send ++ batches q.pending)) (sym ei)

start_next-backlog :
    (ts : List PendingTask) (now : ℕ) (q : TaskQueue)
    → q.pending ≡ ts
    → length q.items ≡ 0
    → length q.to_send ≡ 0
    → backlog (start_next ts now q) ≡ batches ts
start_next-backlog [] now q e no_items no_sends = empty_backlog q e no_items no_sends
start_next-backlog (t ∷ ts) now q e no_items no_sends =
    start_batch-backlog t now (record q { pending = ts }) no_items no_sends

finish_from-backlog :
    (w : Worker) (now : ℕ) (q q' : TaskQueue)
    → Phase w q
    → finish_from w now q ≡ some q'
    → backlog q' ≡ backlog q
finish_from-backlog idle now q q' h e = absurd (ground arith)
finish_from-backlog (looping t) now q q' h e = absurd (ground arith)
finish_from-backlog finishing now q q' h e =
    let off = record q { active = false } in
    ap backlog (sym (eq_of_some e))
    ∙ next off.status
    ∙ sym (rw (nil_of_length q.items h.1, nil_of_length q.to_send h.2) refl)
  where
    next :
        (o : Option TaskStatus)
        → backlog (
            start_next q.pending now
              (update_status o (close_batch q) (record q { active = false })))
          ≡ batches q.pending
    next none = start_next-backlog q.pending now (record q { active = false }) refl h.1 h.2
    next (some s) =
        start_next-backlog q.pending now
          (record q { active = false; status = some (close_batch q s) }) refl h.1 h.2

-- A step runs the next item or none, and leaves in the queue what it has not run and what it submits.
step-backlog :
    (event : Event) (q q' : TaskQueue)
    → step event q ≡ some q'
    → Valid q
    → ran event q ++ backlog q' ≡ backlog q ++ submitted event
unfolding step send execute finish
step-backlog (enqueue is_superadmin t now) q q' e v =
    ap backlog (sym (eq_of_some e)) ∙ enqueue_task-backlog is_superadmin t now q v
step-backlog feeder_sends q q' e v =
    send_from-backlog q.to_send q q' refl e ∙ sym (append-nil (backlog q))
step-backlog (worker_runs now) q q' e v =
    execute_from-backlog q.worker q.items now q q' refl e ∙ sym (append-nil (backlog q))
step-backlog (worker_finishes now) q q' e v =
    finish_from-backlog q.worker now q q' v.phase e ∙ sym (append-nil (backlog q))

-- A run of the goroutines: what they ran, and where the queue then stands.
pub data Run : TaskQueue → List Event → List TaskItem → TaskQueue → Type 0 where
  stop : {q : TaskQueue} → Run q [] [] q
  next :
      {q q' q'' : TaskQueue} {event : Event} {events : List Event} {rest : List TaskItem}
      → step event q ≡ some q'
      → Run q' events rest q''
      → Run q (event ∷ events) (ran event q ++ rest) q''

abbrev pub submissions : List Event → List TaskItem
submissions [] = []
submissions (e ∷ es) = submitted e ++ submissions es

pub Run-Valid :
    {q q' : TaskQueue} {events : List Event} {done : List TaskItem}
    → Run q events done q'
    → Valid q
    → Valid q'
Run-Valid stop v = v
Run-Valid (next e r) v = Run-Valid r (step-Valid _ _ _ e v)

pub Run-backlog :
    {q q' : TaskQueue} {events : List Event} {done : List TaskItem}
    → Run q events done q'
    → Valid q
    → done ++ backlog q' ≡ backlog q ++ submissions events
Run-backlog {q = q} stop v = sym (append-nil (backlog q))
Run-backlog {q = q} {q' = q''} (next {q' = q'} {event = event} {events = events} {rest = rest} e r)
      v =
    append_assoc (ran event q) rest (backlog q'')
    ∙ ap (λ b. ran event q ++ b) (Run-backlog r (step-Valid event q q' e v))
    ∙ sym (append_assoc (ran event q) (backlog q') (submissions events))
    ∙ ap (λ b. b ++ submissions events) (step-backlog event q q' e v)
    ∙ append_assoc (backlog q) (submitted event) (submissions events)

-- In every interleaving of submitters, feeder and worker that begins with the empty queue, the
-- items that have run, followed by those still in the queue, are exactly the items submitted, in
-- the order of submission: nobody is skipped, repeated or overtaken. Where the queue is no longer
-- active, all have run.
pub runs_in_order :
    {q : TaskQueue} {events : List Event} {done : List TaskItem}
    → Run empty_queue events done q
    → (done ++ backlog q ≡ submissions events) × (q.active ≡ false → done ≡ submissions events)
runs_in_order {q = q} {done = done} r =
    let all = Run-backlog r empty_queue-Valid in
    (
      all,
      λ off.
          let (no_pending, no_items, no_sends) =
            inactive q q.worker (Run-Valid r empty_queue-Valid).phase off in
          sym (append-nil done)
          ∙ ap (λ b. done ++ b) (sym (empty_backlog q no_pending no_items no_sends))
          ∙ all,
    )
