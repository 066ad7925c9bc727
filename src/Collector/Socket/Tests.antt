-- ===== src/Collector/Socket/Tests.antt =====
-- Exchanges over the websocket.
use dt4mob_platform.Prelude.{
  ℕ, ◌≡◌, refl, Bool, true, false, Option, some, List, [], ◌∷◌, ◌==◌, All, arith, if◌then◌else◌,
}
use dt4mob_platform.Prelude.Text.Prefix.{cut_suffix}
use dt4mob_platform.Prelude.Text.{String, insert, eq_iff, ◌==◌ as str_eq}
use dt4mob_platform.Json.{Json, num, str, obj, end, field}
use dt4mob_platform.Collector.Socket.{
  cancel, Socket, Step, send_ws_message, send_control_message, message, expire, wake, listen, step,
  run, returned,
}
use dt4mob_platform.Collector.Socket.Exchange.{IsOthers, first_answer}
use dt4mob_platform.Collector.Socket.Returned.{exchange, number, late_answer_deafens}

abbrev is_number : String → ℕ → Bool
is_number literal n = if str_eq literal "204" then n == 204 else n == 404

abbrev answer : String → String → Json
answer cor_id status = obj (
    field "headers" (obj (field "correlation-id" (str cor_id) (field "status" (num status) end)))
      end)

abbrev loads : String → Option Json
loads text = if str_eq text "deleted" then some (answer "a" "204") else some (answer "b" "404")

-- Another message waits already, and the subscription is acknowledged.
abbrev before : List Step
before =
    send_ws_message "x" true
    ∷ send_control_message "START-SEND-EVENTS:ACK" true
    ∷ message "START-SEND-EVENTS:ACK"
    ∷ []

abbrev after : List Step
after =
    send_ws_message "b" true ∷ message "refused" ∷ expire 0 ∷ wake 0 "x" ∷ message "deleted" ∷ []

second : number is_number loads before ≡ 2
unfolding run step listen cut_suffix insert
second = refl

deleted :
    returned is_number (cancel (first_answer "a" (number is_number loads before) loads after))
    ≡ some true
unfolding returned cut_suffix
deleted = refl

abbrev with_b : List Step
with_b = send_ws_message "b" true ∷ []

with_b-IsOthers : All (IsOthers "a" (number is_number loads before)) with_b
with_b-IsOthers = (λ e. ground (arith, e, eq_iff "b" "a"), tt)

on_with_b : (exchange is_number loads before "a" with_b).listening ≡ true
unfolding run step listen cut_suffix insert
on_with_b = refl

-- The socket after the deletion of "a" has timed out and its answer has come too late.
abbrev deaf : Socket
deaf = run loads (message "refused" ∷ []) (
    step loads (message "deleted") (
      step loads (expire (number is_number loads before))
        (exchange is_number loads before "a" with_b)))

late_answer_deafens_example :
    returned is_number (
      (step loads
          (expire deaf.next)
          (run loads (message "deleted" ∷ []) (step loads (send_ws_message "c" true) deaf))).future
        deaf.next)
    ≡ some false
unfolding cut_suffix
late_answer_deafens_example =
    late_answer_deafens is_number loads before with_b "a" "deleted" (answer "a" "204")
      (message "refused" ∷ []) "c" (message "deleted" ∷ []) with_b-IsOthers on_with_b refl refl refl
      refl (tt, tt)
