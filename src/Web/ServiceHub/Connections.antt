-- ===== src/Web/ServiceHub/Connections.antt =====
-- Which connection internal/web/service_hub.go finds for a user.
use picoaide.Prelude.{
  ℕ, ◌≡◌, sym, ap, ◌∙◌, String, true, false, not, ◌&&◌, some, List, [], ◌∷◌, ltb, arith, of_if,
}
use picoaide.Web.ServiceHub.{
  Answer, Call, Hub, change_call, kick, register, get_connection, send, return_with, receive,
  time_out, read_message, write_failed, cancelled, disconnected,
}
use picoaide.Web.ServiceHub.Steps.{
  Event, selecting, writing, step, new_service_hub, run, registers, sends, writes, write_fails,
  receives, context_ends, sees_done, times_out, reads, read_ends, unregisters,
}
use picoaide.Web.ServiceHub.Frames.{
  change_call-Same, kick-Same, send-Same, return_with-Same, receive-Same, time_out-Same,
  read_message-Same,
}
use picoaide.Web.ServiceHub.Registry.{
  IsFound, IsRegistry, Same-IsRegistry, unregister-IsRegistry, end-IsRegistry, add_conn-IsRegistry,
}

returned : (k : ℕ) (answer : Answer) (h : Hub) → IsRegistry h → IsRegistry (return_with k answer h)
returned k answer h = Same-IsRegistry h (return_with k answer h) (return_with-Same k answer h)

step-IsRegistry : (e : Event) (h : Hub) → IsRegistry h → IsRegistry (step e h)
unfolding step register
step-IsRegistry (registers u) h v =
    add_conn-IsRegistry u (kick (h.registered u) h)
      (Same-IsRegistry h (kick (h.registered u) h) (kick-Same (h.registered u) h) v)
step-IsRegistry (sends c) h v =
    of_if IsRegistry (ltb c h.conn_count) (λ _. Same-IsRegistry h (send c h) (send-Same c h) v)
      (λ _. v)
step-IsRegistry (writes k) h v =
    let f = λ (call : Call). record call { written = true } in
    of_if IsRegistry (writing (h.calls k))
      (λ _. Same-IsRegistry h (change_call k f h) (change_call-Same k f h) v) (λ _. v)
step-IsRegistry (write_fails k) h v =
    of_if IsRegistry (writing (h.calls k)) (λ _. returned k write_failed h v) (λ _. v)
step-IsRegistry (receives k) h v =
    let ch = (h.calls k).channel in
    of_if IsRegistry (selecting (h.calls k))
      (λ _. Same-IsRegistry h (receive k ch h) (receive-Same k ch h) v) (λ _. v)
step-IsRegistry (context_ends k) h v =
    of_if IsRegistry (selecting (h.calls k)) (λ _. returned k cancelled h v) (λ _. v)
step-IsRegistry (sees_done k) h v =
    of_if IsRegistry (selecting (h.calls k) && (h.conns (h.calls k).conn).done)
      (λ _. returned k disconnected h v) (λ _. v)
step-IsRegistry (times_out k) h v =
    of_if IsRegistry (ltb k h.call_count)
      (λ _. Same-IsRegistry h (time_out k h) (time_out-Same k h) v) (λ _. v)
step-IsRegistry (reads c response) h v =
    of_if IsRegistry (ltb c h.conn_count && not (h.conns c).done)
      (λ _. Same-IsRegistry h (read_message c response h) (read_message-Same c response h) v)
      (λ _. v)
step-IsRegistry (read_ends c) h v =
    of_if IsRegistry (ltb c h.conn_count) (λ _. end-IsRegistry c h v) (λ _. v)
step-IsRegistry (unregisters c) h v =
    of_if IsRegistry (ltb c h.conn_count && (h.conns c).done)
      (λ e. unregister-IsRegistry c h (ground (arith, e)) v) (λ _. v)

run-IsRegistry : (es : List Event) (h : Hub) → IsRegistry h → IsRegistry (run es h)
run-IsRegistry [] h v = v
run-IsRegistry (e ∷ es) h v = run-IsRegistry es (step e h) (step-IsRegistry e h v)

new_service_hub-IsRegistry : IsRegistry new_service_hub
new_service_hub-IsRegistry = record {
  found = λ u c e. absurd (ground (arith, e));
  kept = λ c in_ newest open_. absurd (omega (arith, in_));
}

-- Whatever has happened, `GetConnection` never finds a connection of another user, nor one that a
-- later connection of the user has replaced. It does find the last connection of the user as long as
-- that connection is read: the end of an older one never takes it away.
pub run-get_connection :
    (es : List Event) (u : String) (c : ℕ)
    → (get_connection u (run es new_service_hub) ≡ some c → IsFound (run es new_service_hub) u c)
      × (IsFound (run es new_service_hub) u c
          → ((run es new_service_hub).conns c).done ≡ false
          → get_connection u (run es new_service_hub) ≡ some c)
run-get_connection es u c =
    let h = run es new_service_hub in
    let v = run-IsRegistry es new_service_hub new_service_hub-IsRegistry in
    (
      v.found u c,
      λ (in_, name, newest) open_. ap h.registered (sym name) ∙ v.kept c in_ newest open_,
    )
