-- ===== src/Web/ServiceHub/Calls.antt =====
-- The commands that wait in internal/web/service_hub.go, through every step.
use picoaide.Prelude.{◌≡◌, true, false}
use picoaide.Web.ServiceHub.{Call, is_free}
use picoaide.Web.ServiceHub.Steps.{is_none}
use picoaide.Web.ServiceHub.Sound.{AnswerBelongs}

-- A call whose answer is still to come.
abbrev pub IsServed : Call → Type 0
IsServed call =
    AnswerBelongs call.conn call.id call.answer
    × (is_none call.answer ≡ true → call.timer ≡ false → is_free call.channel ≡ false)
