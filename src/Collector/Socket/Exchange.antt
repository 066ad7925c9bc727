-- ===== src/Collector/Socket/Exchange.antt =====
-- An exchange over the websocket of src/services/ditto_api/ditto_api.py, among others and with a
-- listener that may stop.
use mathlib.Core.Path.{subst}
use dt4mob_platform.Prelude.{
  ℕ, ◌≡◌, ◌≢◌, refl, sym, inl, inr, Bool, true, false, Option, List, [], ◌∷◌, All, if◌then◌else◌,
  Bool-cases,
}
use dt4mob_platform.Prelude.Text.{String, ◌==◌ as str_eq}
use dt4mob_platform.Prelude.Text.Prefix.{has_suffix}
use dt4mob_platform.Json.{Json}
use dt4mob_platform.Collector.Socket.{
  Future, pending, acknowledged, Socket, create_future, Step, send_ws_message, send_control_message,
  message, expire, wake, cancel, listen, step, run,
}
use dt4mob_platform.Collector.Socket.Answers.{
  or_later, or_later_assoc, or_later-pending, IsWaiting, pop-IsWaiting, set-IsWaiting,
  create_future-IsWaiting, answer_of, on_ack-IsWaiting, on_data-IsWaiting,
}

module _ (key : String) (id : ℕ) where
  -- A step of the others: they have keys and futures of their own.
  abbrev pub IsOthers : Step → Type 0
  IsOthers (send_ws_message cor_id sent) = cor_id ≢ key
  IsOthers (send_control_message expected_ack sent) = expected_ack ≢ key
  IsOthers (message text) = Unit {0}
  IsOthers (expire i) = i ≢ id
  IsOthers (wake i k) = k ≢ key

  module _ (loads : String → Option Json) where
    -- What a step tells the waiter of the key.
    abbrev answer : Step → Future
    answer (message text) =
        if has_suffix text ":ACK"
        then (if str_eq text key then acknowledged else pending)
        else answer_of key id (loads text)
    answer _ = pending

    -- The first message for the key: an acknowledgement with its name, or a JSON value whose
    -- headers have it as their correlation id.
    abbrev pub first_answer : List Step → Future
    first_answer [] = pending
    first_answer (now ∷ later) = or_later (answer now) (first_answer later)

    listen-IsWaiting :
        (on : Bool) (text : String) (s : Socket) (f : Future)
        → IsWaiting key id s f
        → s.listening ≡ on
        → (listen loads on text s).listening ≡ true
        → IsWaiting key id (listen loads on text s) (or_later f (answer (message text)))
    unfolding listen
    listen-IsWaiting true text s f w on h = elim (Bool-cases (has_suffix text ":ACK")) [
      | inl e ↦ rw e (on_ack-IsWaiting key id s f w text)
      | inr e ↦ rw e (on_data-IsWaiting key id s f w (loads text) (rw e at h))
    ]
    listen-IsWaiting false text s f w off h = cc (off, h)

    step-IsWaiting :
        (now : Step) (s : Socket) (f : Future)
        → IsOthers now
        → IsWaiting key id s f
        → (step loads now s).listening ≡ true
        → IsWaiting key id (step loads now s) (or_later f (answer now))
    unfolding step
    step-IsWaiting (send_ws_message cor_id sent) s f other w h =
        rw (or_later-pending f) (create_future-IsWaiting key id s f w cor_id other)
    step-IsWaiting (send_control_message ack true) s f other w h =
        rw (or_later-pending f) (create_future-IsWaiting key id s f w ack other)
    step-IsWaiting (send_control_message ack false) s f other w h = rw (or_later-pending f) (
        pop-IsWaiting key id (create_future ack s) f
          (create_future-IsWaiting key id s f w ack other) ack other)
    step-IsWaiting (message text) s f other w h = listen-IsWaiting s.listening text s f w refl h
    step-IsWaiting (expire i) s f other w h =
        rw (or_later-pending f) (set-IsWaiting key id s f w i (cancel (s.future i)) other)
    step-IsWaiting (wake i k) s f other w h =
        rw (or_later-pending f) (pop-IsWaiting key id s f w k other)

    -- Once the listener has stopped, it stays so, and nobody gets an answer.
    pub stopped :
        (now : Step) (s : Socket) → s.listening ≡ false → (step loads now s).listening ≡ false
    unfolding step listen
    stopped (send_ws_message cor_id sent) s off = off
    stopped (send_control_message ack true) s off = off
    stopped (send_control_message ack false) s off = off
    stopped (message text) s off = rw off refl
    stopped (expire i) s off = off
    stopped (wake i k) s off = off

    was_listening :
        (later : List Step) (s : Socket) → (run loads later s).listening ≡ true → s.listening ≡ true
    unfolding run
    was_listening [] s h = h
    was_listening (now ∷ later) s h = elim (Bool-cases s.listening) [
      | inl on ↦ on
      | inr off ↦ cc (was_listening later (step loads now s) h, stopped now s off)
    ]

    pub run-IsWaiting :
        (steps : List Step) (s : Socket) (f : Future)
        → All IsOthers steps
        → IsWaiting key id s f
        → (run loads steps s).listening ≡ true
        → IsWaiting key id (run loads steps s) (or_later f (first_answer steps))
    unfolding run
    run-IsWaiting [] s f others w h = rw (or_later-pending f) w
    run-IsWaiting (now ∷ later) s f (other, others) w h =
        rw⁻¹ (or_later_assoc f (answer now) (first_answer later)) (
          run-IsWaiting later (step loads now s) (or_later f (answer now)) others
            (step-IsWaiting now s f other w (was_listening later (step loads now s) h)) h)

    step_unheard :
        (now : Step) (s : Socket)
        → IsOthers now
        → IsWaiting key id s pending
        → s.listening ≡ false
        → IsWaiting key id (step loads now s) pending
    unfolding step listen
    step_unheard (send_ws_message cor_id sent) s other w off =
        create_future-IsWaiting key id s pending w cor_id other
    step_unheard (send_control_message ack true) s other w off =
        create_future-IsWaiting key id s pending w ack other
    step_unheard (send_control_message ack false) s other w off =
        pop-IsWaiting key id (create_future ack s) pending
          (create_future-IsWaiting key id s pending w ack other) ack other
    step_unheard (message text) s other w off =
        subst (λ on. IsWaiting key id (listen loads on text s) pending) (sym off) w
    step_unheard (expire i) s other w off =
        set-IsWaiting key id s pending w i (cancel (s.future i)) other
    step_unheard (wake i k) s other w off = pop-IsWaiting key id s pending w k other

    -- Nor does the listener that has stopped touch the waiter.
    pub run-unheard :
        (steps : List Step) (s : Socket)
        → All IsOthers steps
        → IsWaiting key id s pending
        → s.listening ≡ false
        → IsWaiting key id (run loads steps s) pending
    unfolding run
    run-unheard [] s others w off = w
    run-unheard (now ∷ later) s (other, others) w off =
        run-unheard later (step loads now s) others (step_unheard now s other w off)
          (stopped now s off)
