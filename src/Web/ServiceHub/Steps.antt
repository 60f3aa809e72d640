-- ===== src/Web/ServiceHub/Steps.antt =====
-- What the goroutines of internal/web/service_hub.go do, in any order.
use picoaide.Prelude.{
  ℕ, String, Bool, true, false, not, ◌&&◌, Option, none, some, List, [], ◌∷◌, if◌then◌else◌, ltb,
}
use picoaide.Web.ServiceHub.{
  Response, Call, Hub, change_call, change_conn, register, unregister, send, return_with, receive,
  time_out, read_message, empty, write_failed, cancelled, disconnected,
}

pub data Event : Type 0 where
  registers : String → Event
  sends writes write_fails receives context_ends sees_done times_out : ℕ → Event
  reads : ℕ → Response → Event
  read_ends unregisters : ℕ → Event

abbrev pub is_none : {A : Type 0} → Option A → Bool
is_none none = true
is_none (some a) = false

-- The call waits in its `select`.
abbrev pub selecting : Call → Bool
selecting call = call.written && is_none call.answer

-- The call has not been written.
abbrev pub writing : Call → Bool
writing call = not call.written && is_none call.answer

-- An event that cannot happen changes nothing. The timer's function may run late, after `Stop`.
unfoldable pub step : Event → Hub → Hub
step (registers username) h = register username h
step (sends c) h = if ltb c h.conn_count then send c h else h
step (writes k) h =
    if writing (h.calls k) then change_call k (λ call. record call { written = true }) h else h
step (write_fails k) h = if writing (h.calls k) then return_with k write_failed h else h
step (receives k) h = if selecting (h.calls k) then receive k (h.calls k).channel h else h
step (context_ends k) h = if selecting (h.calls k) then return_with k cancelled h else h
step (sees_done k) h =
    if selecting (h.calls k) && (h.conns (h.calls k).conn).done
    then return_with k disconnected h
    else h
step (times_out k) h = if ltb k h.call_count then time_out k h else h
step (reads c response) h =
    if ltb c h.conn_count && not (h.conns c).done then read_message c response h else h
step (read_ends c) h =
    if ltb c h.conn_count then change_conn c (λ conn. record conn { done = true }) h else h
step (unregisters c) h = if ltb c h.conn_count && (h.conns c).done then unregister c h else h

-- `NewServiceHub`
abbrev pub new_service_hub : Hub
new_service_hub = record {
  registered = λ username. none;
  conns = λ c. record { username = ""; next_id = 0; pending = λ id. none; done = true };
  conn_count = 0;
  calls = λ k. record {
    conn = 0;
    id = 0;
    channel = empty;
    resolved = true;
    timer = false;
    written = false;
    answer = some write_failed;
  };
  call_count = 0;
  fault = false;
}

abbrev pub run : List Event → Hub → Hub
run [] h = h
run (e ∷ es) h = run es (step e h)
