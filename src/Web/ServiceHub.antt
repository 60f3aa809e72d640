-- ===== src/Web/ServiceHub.antt =====
-- internal/web/service_hub.go: the connections of the users' agents, and the commands that wait for an
-- answer. The goroutines are interleaved: an event is what one of them does between two waits.
mod Tests
pub mod Steps
pub mod Sound
pub mod Calls
pub mod Frames
pub mod Registry
pub mod Connections
use picoaide.Prelude.{
  ℕ, zero, suc, ◌+◌, String, Bool, true, false, not, ◌&&◌, Option, none, some, List, [], ◌∷◌,
  if◌then◌else◌, ltb, ◌==◌, str_eq,
}

-- What an agent sends: the number of the command, and its result or its error.
pub record Response : Type 0 where
  pub id : ℕ
  pub body : String
  pub error : Option String

-- A channel with room for one value. `holding` also tells the connection that the value came on.
pub data Channel : Type 0 where
  empty closed : Channel
  holding : ℕ → Response → Channel

-- How `SendCommand` returns.
pub data Answer : Type 0 where
  result : ℕ → Response → Answer
  timed_out write_failed cancelled disconnected : Answer

-- A `PendingCall` and the call of `SendCommand` that waits for it.
pub record Call : Type 0 where
  pub conn : ℕ
  pub id : ℕ
  pub channel : Channel
  pub resolved : Bool
  pub timer : Bool
  pub written : Bool
  pub answer : Option Answer

-- An `AgentConn`; `done` tells whether its channel is closed.
pub record AgentConn : Type 0 where
  pub username : String
  pub next_id : ℕ
  pub pending : ℕ → Option ℕ
  pub done : Bool

-- Pointers are numbers in the order of creation. `fault` is a close of a closed channel, a send on a
-- closed one, or a send that waits with the call's mutex held.
pub record Hub : Type 0 where
  pub registered : String → Option ℕ
  pub conns : ℕ → AgentConn
  pub conn_count : ℕ
  pub calls : ℕ → Call
  pub call_count : ℕ
  pub fault : Bool

abbrev pub update {ℓ} : {A : Type ℓ} → (ℕ → A) → ℕ → A → ℕ → A
update f k a n = if n == k then a else f n

abbrev pub assign {ℓ} : {A : Type ℓ} → (String → A) → String → A → String → A
assign f k a n = if str_eq n k then a else f n

abbrev pub is_closed : Channel → Bool
is_closed empty = false
is_closed closed = true
is_closed (holding c r) = false

abbrev pub is_free : Channel → Bool
is_free empty = true
is_free closed = false
is_free (holding c r) = false

abbrev pub change_call : ℕ → (Call → Call) → Hub → Hub
change_call k f h = record h { calls = update h.calls k (f (h.calls k)) }

abbrev pub change_conn : ℕ → (AgentConn → AgentConn) → Hub → Hub
change_conn c f h = record h { conns = update h.conns c (f (h.conns c)) }

-- `pending.Delete(id)`
abbrev pub forget : ℕ → ℕ → Hub → Hub
forget c id h = change_conn c (λ conn. record conn { pending = update conn.pending id none }) h

-- `if !resolved { resolved = true; timer.Stop(); close(resultCh) }`. Where the timer itself gets
-- here, it runs no more.
abbrev pub cancel : ℕ → Hub → Hub
cancel k h =
    if (h.calls k).resolved
    then h
    else change_call k (λ call. record call { resolved = true; timer = false; channel = closed })
        (if is_closed (h.calls k).channel then record h { fault = true } else h)

-- `if !resolved { resolved = true; timer.Stop(); resultCh <- data }`
abbrev pub deliver : ℕ → ℕ → Response → Hub → Hub
deliver k c response h =
    if (h.calls k).resolved
    then h
    else change_call k
        (λ call. record call { resolved = true; timer = false; channel = holding c response })
        (if is_free (h.calls k).channel then h else record h { fault = true })

abbrev pub cancel_found : ℕ → ℕ → Option ℕ → Hub → Hub
cancel_found c id none h = h
cancel_found c id (some k) h = forget c id (cancel k h)

-- `pending.Range`: the numbers are 1 to `next_id`.
abbrev pub cancel_upto : ℕ → ℕ → Hub → Hub
cancel_upto c zero h = h
cancel_upto c (suc n) h =
    let rest = cancel_upto c n h in cancel_found c (suc n) ((rest.conns c).pending (suc n)) rest

-- `Close`
unfoldable pub close : ℕ → Hub → Hub
close c h = if (h.conns c).done then h else cancel_upto c (h.conns c).next_id h

abbrev pub new_conn : String → AgentConn
new_conn username = record { username = username; next_id = 0; pending = λ id. none; done = false }

abbrev pub kick : Option ℕ → Hub → Hub
kick none h = h
kick (some old) h = close old h

abbrev pub add_conn : String → Hub → Hub
add_conn username h = record h {
  conns = update h.conns h.conn_count (new_conn username);
  conn_count = h.conn_count + 1;
  registered = assign h.registered username (some h.conn_count);
}

unfoldable pub register : String → Hub → Hub
register username h = add_conn username (kick (h.registered username) h)

abbrev pub is_current : Option ℕ → ℕ → Bool
is_current none c = false
is_current (some current) c = current == c

unfoldable pub unregister : ℕ → Hub → Hub
unregister c h =
    let username = (h.conns c).username in
    if is_current (h.registered username) c
    then record h { registered = assign h.registered username none }
    else h

-- `GetConnection`
abbrev pub get_connection : String → Hub → Option ℕ
get_connection username h = h.registered username

-- `SendCommand` up to its write.
unfoldable pub send : ℕ → Hub → Hub
send c h =
    let id = (h.conns c).next_id + 1 in
    record (change_conn c
      (λ conn. record conn { next_id = id; pending = update conn.pending id (some h.call_count) })
      h) {
        calls = update h.calls h.call_count (record {
          conn = c;
          id = id;
          channel = empty;
          resolved = false;
          timer = true;
          written = false;
          answer = none;
        });
        call_count = h.call_count + 1;
      }

-- `SendCommand` returns: its timer is stopped and its call is pending no more.
abbrev pub return_with : ℕ → Answer → Hub → Hub
return_with k answer h =
    forget (h.calls k).conn (h.calls k).id
      (change_call k (λ call. record call { timer = false; answer = some answer }) h)

abbrev pub receive : ℕ → Channel → Hub → Hub
receive k empty h = h
receive k closed h = return_with k timed_out h
receive k (holding c response) h = return_with k (result c response) h

-- The timer's function.
unfoldable pub time_out : ℕ → Hub → Hub
time_out k h =
    change_call k (λ call. record call { timer = false })
      (cancel k (forget (h.calls k).conn (h.calls k).id h))

abbrev pub deliver_found : ℕ → Option ℕ → Response → Hub → Hub
deliver_found c none response h = h
deliver_found c (some k) response h = deliver k c response (forget c response.id h)

-- A message that `readPump` reads.
unfoldable pub read_message : ℕ → Response → Hub → Hub
read_message c response h =
    if response.id == 0 then h else deliver_found c ((h.conns c).pending response.id) response h
