-- ===== src/Web/TaskQueue.antt =====
-- internal/web/taskqueue.go: the queue of batches. One worker goroutine runs the users of a batch,
-- a feeder goroutine fills the channel `items`, and batches that come meanwhile wait. A step is one
-- critical section of `taskQueue.mu`, with what the goroutine does up to the next. The counters
-- are the source's int32, which a batch of fewer than 2^31 users does not fill.
pub mod Valid
pub mod Order
pub mod Progress
use picoaide.Prelude.{
  ℕ, zero, suc, ◌+◌, String, Bool, true, false, not, Option, none, some, List, [], ◌∷◌, ◌++◌, map,
  if◌then◌else◌, keep, length, ltb, leb, decimal, ◌+++◌,
}

-- `func(username string) error`: what it answers may depend on the moment.
abbrev pub Fn : Type 0
Fn = String → ℕ → Option String

pub record TaskItem : Type 0 where
  pub username : String
  pub fn : Fn

pub record PendingTask : Type 0 where
  pub task_type : String
  pub users : List String
  pub fn : Fn

-- `started_at` is the moment that the source prints.
pub record TaskStatus : Type 0 where
  pub id : String
  pub task_type : String
  pub total : ℕ
  pub done : ℕ
  pub failed : ℕ
  pub running : Bool
  pub message : String
  pub started_at : ℕ
  pub pending : ℕ

-- Where `processQueue` stands: in its loop, with the `total` it read at its start, or past it.
pub data Worker : Type 0 where
  idle finishing : Worker
  looping : ℕ → Worker

-- `to_send` is what the feeder goroutines have still to put in the channel, the older ones first.
pub record TaskQueue : Type 0 where
  pub items : List TaskItem
  pub pending : List PendingTask
  pub status : Option TaskStatus
  pub active : Bool
  pub done : ℕ
  pub failed : ℕ
  pub total : ℕ
  pub to_send : List TaskItem
  pub worker : Worker

abbrev pub task_queue_size : ℕ
task_queue_size = 64

abbrev pub empty_queue : TaskQueue
empty_queue = record {
  items = [];
  pending = [];
  status = none;
  active = false;
  done = 0;
  failed = 0;
  total = 0;
  to_send = [];
  worker = idle;
}

abbrev pub items_of : PendingTask → List TaskItem
items_of t = map (λ u. record { username = u; fn = t.fn }) t.users

abbrev pub task_id : String → ℕ → String
task_id task_type now = task_type +++ "-" +++ decimal now

-- A batch becomes the current one: the counters and the status, then the two goroutines.
abbrev pub start_batch : PendingTask → ℕ → TaskQueue → TaskQueue
start_batch t now q = record q {
  total = length t.users;
  done = 0;
  failed = 0;
  active = true;
  status = some (record {
    id = task_id t.task_type now;
    task_type = t.task_type;
    total = length t.users;
    done = 0;
    failed = 0;
    running = true;
    message = "";
    started_at = now;
    pending = length q.pending;
  });
  to_send = q.to_send ++ items_of t;
  worker = looping (length t.users);
}

abbrev pub submit : PendingTask → ℕ → TaskQueue → TaskQueue
submit t now q =
    if q.active then record q { pending = q.pending ++ t ∷ [] } else start_batch t now q

abbrev pub filtered : (String → Bool) → PendingTask → PendingTask
filtered is_superadmin t = record t { users = keep (λ u. not (is_superadmin u)) t.users }

abbrev pub enqueue_filtered : PendingTask → ℕ → TaskQueue → Option String × TaskQueue
enqueue_filtered t now q =
    if leb (length t.users) 0 then (none, q) else (some (task_id t.task_type now), submit t now q)

-- The answer is the task's id, or `none` for the error that no user is left.
-- `is_superadmin` is what `store.IsSuperadmin` answers.
unfoldable pub enqueue_task :
    (String → Bool) → PendingTask → ℕ → TaskQueue → Option String × TaskQueue
enqueue_task is_superadmin t now q = enqueue_filtered (filtered is_superadmin t) now q

abbrev pub send_from : List TaskItem → TaskQueue → Option TaskQueue
send_from [] q = none
send_from (i ∷ rest) q =
    if ltb (length q.items) task_queue_size
    then some (record q { items = q.items ++ i ∷ []; to_send = rest })
    else none

-- The feeder: `taskQueue.items <- TaskItem{...}`, which waits while the channel is full.
unfoldable pub send : TaskQueue → Option TaskQueue
send q = send_from q.to_send q

abbrev pub count_result : Option String → TaskQueue → TaskQueue
count_result none q = record q { done = q.done + 1 }
count_result (some e) q = record q { failed = q.failed + 1 }

abbrev pub report : TaskItem → Option String → ℕ → ℕ → TaskStatus → TaskStatus
report i none done failed s = record s { done = done; failed = failed }
report i (some e) done failed s = record s {
  done = done;
  failed = failed;
  message = i.username +++ ": " +++ e;
}

-- `if taskQueue.status != nil { ... }`
abbrev pub update_status : Option TaskStatus → (TaskStatus → TaskStatus) → TaskQueue → TaskQueue
update_status none f q = q
update_status (some s) f q = record q { status = some (f s) }

abbrev pub on_status : (TaskStatus → TaskStatus) → TaskQueue → TaskQueue
on_status f q = update_status q.status f q

abbrev pub after_item : ℕ → TaskQueue → TaskQueue
after_item total q = record q {
  worker = if leb total (q.done + q.failed) then finishing else looping total;
}

abbrev pub run_item : ℕ → TaskItem → ℕ → TaskQueue → TaskQueue
run_item total i now q =
    let result = i.fn i.username now in
    let counted = count_result result q in
    after_item total (on_status (report i result counted.done counted.failed) counted)

abbrev pub execute_from : Worker → List TaskItem → ℕ → TaskQueue → Option TaskQueue
execute_from idle items now q = none
execute_from finishing items now q = none
execute_from (looping total) [] now q = none
execute_from (looping total) (i ∷ rest) now q =
    some (run_item total i now (record q { items = rest }))

-- One round of the loop of `processQueue`.
unfoldable pub execute : ℕ → TaskQueue → Option TaskQueue
execute now q = execute_from q.worker q.items now q

abbrev pub close_batch : TaskQueue → TaskStatus → TaskStatus
close_batch q s = record s {
  running = false;
  done = q.done;
  failed = q.failed;
  message = "完成：" +++ decimal q.done +++ " 成功，" +++ decimal q.failed +++ " 失败";
  pending = length q.pending;
}

abbrev pub start_next : List PendingTask → ℕ → TaskQueue → TaskQueue
start_next [] now q = record q { worker = idle }
start_next (t ∷ ts) now q = start_batch t now (record q { pending = ts })

abbrev pub finish_from : Worker → ℕ → TaskQueue → Option TaskQueue
finish_from finishing now q =
    some (start_next q.pending now (on_status (close_batch q) (record q { active = false })))
finish_from (looping total) now q = none
finish_from idle now q = none

-- What `processQueue` does after its loop.
unfoldable pub finish : ℕ → TaskQueue → Option TaskQueue
finish now q = finish_from q.worker now q

abbrev pub with_counts : TaskQueue → TaskStatus → TaskStatus
with_counts q s = record s { done = q.done; failed = q.failed; pending = length q.pending }

abbrev pub no_task : TaskStatus
no_task = record {
  id = "";
  task_type = "";
  total = 0;
  done = 0;
  failed = 0;
  running = false;
  message = "";
  started_at = 0;
  pending = 0;
}

unfoldable pub get_task_status : TaskQueue → TaskStatus
get_task_status q = elim q.status [ none ↦ no_task | some s ↦ with_counts q s ]

pub data Event : Type 0 where
  enqueue : (String → Bool) → PendingTask → ℕ → Event
  feeder_sends : Event
  worker_runs worker_finishes : ℕ → Event

-- `none` where the goroutine has to wait.
unfoldable pub step : Event → TaskQueue → Option TaskQueue
step (enqueue is_superadmin t now) q = some (enqueue_task is_superadmin t now q).1
step feeder_sends q = send q
step (worker_runs now) q = execute now q
step (worker_finishes now) q = finish now q
