-- ===== src/Web/ServiceHub/Tests.antt =====
-- The properties of internal/web/service_hub.go at concrete inputs.
use picoaide.Prelude.{◌≡◌, refl, false, none, some, List, [], ◌∷◌}
use picoaide.Web.ServiceHub.Registry.{IsFound}
use picoaide.Web.ServiceHub.Connections.{run-get_connection}
use picoaide.Web.ServiceHub.{
  Response, close, register, unregister, get_connection, send, read_message, result, timed_out,
}
use picoaide.Web.ServiceHub.Steps.{
  Event, step, new_service_hub, run, registers, sends, writes, receives, reads, read_ends,
  unregisters,
}

abbrev reply : Response
reply = record { id = 2; body = "done"; error = none }

-- Two commands, the second of which is answered; then the agent connects again, and the old
-- connection breaks.
abbrev events : List Event
events =
    registers "ann"
    ∷ sends 0
    ∷ sends 0
    ∷ writes 0
    ∷ writes 1
    ∷ reads 0 reply
    ∷ receives 1
    ∷ registers "ann"
    ∷ receives 0
    ∷ read_ends 0
    ∷ unregisters 0
    ∷ []

second_answered : ((run events new_service_hub).calls 1).answer ≡ some (result 0 reply)
unfolding step register close send read_message unregister
second_answered = refl

-- The command that the new connection cuts off is told of a time-out.
first_timed_out : ((run events new_service_hub).calls 0).answer ≡ some timed_out
unfolding step register close send read_message unregister
first_timed_out = refl

new_connection_found : get_connection "ann" (run events new_service_hub) ≡ some 1
unfolding step register close send read_message unregister
new_connection_found = refl

run-get_connection_example :
    (get_connection "ann" (run events new_service_hub) ≡ some 1
      → IsFound (run events new_service_hub) "ann" 1)
    × (IsFound (run events new_service_hub) "ann" 1
        → ((run events new_service_hub).conns 1).done ≡ false
        → get_connection "ann" (run events new_service_hub) ≡ some 1)
run-get_connection_example = run-get_connection events "ann" 1
