-- ===== src/Collector/Socket/Returned.antt =====
-- What `send_ws_message` of src/services/ditto_api/ditto_api.py returns.
use mathlib.Core.Path.{subst}
use dt4mob_platform.Prelude.{
  ℕ, ◌≡◌, refl, sym, ap, ◌∙◌, Bool, true, false, Option, some, List, [], ◌∷◌, All, arith,
}
use dt4mob_platform.Prelude.Text.{String}
use dt4mob_platform.Prelude.Text.Prefix.{has_suffix}
use dt4mob_platform.Json.{Json, str}
use dt4mob_platform.Collector.Socket.{
  Future, pending, cancelled, Socket, set, create_future, corr_id_of, on_data, resolve, Step,
  send_ws_message, message, expire, cancel, listen, step, run, connected, returned,
}
use dt4mob_platform.Collector.Socket.Answers.{IsWaiting}
use dt4mob_platform.Collector.Socket.Exchange.{
  IsOthers, first_answer, stopped, run-IsWaiting, run-unheard,
}
use dt4mob_platform.Collector.Socket.Tidy.{
  IsTidy, run-IsTidy, step-IsTidy, reached-IsTidy, sent-IsWaiting,
}

set_own : (id : ℕ) (value : Future) (future : ℕ → Future) → set id value future id ≡ value
set_own id value future = ground arith

module _ (is_number : String → ℕ → Bool) (loads : String → Option Json) where
  -- The socket after some steps, a message with its correlation id, and further steps.
  abbrev pub exchange : List Step → String → List Step → Socket
  exchange before key after =
      run loads after (step loads (send_ws_message key true) (run loads before connected))

  -- The number of that message's future.
  abbrev pub number : List Step → ℕ
  number before = (run loads before connected).next

  sent :
      (before : List Step) (key : String)
      → IsWaiting key
          (number before)
          (step loads (send_ws_message key true) (run loads before connected))
          pending
  unfolding step
  sent before key = sent-IsWaiting key (run loads before connected) (reached-IsTidy loads before)

  exchange-IsWaiting :
      (before after : List Step) (key : String)
      → All (IsOthers key (number before)) after
      → (exchange before key after).listening ≡ true
      → IsWaiting key
          (number before)
          (exchange before key after)
          (first_answer key (number before) loads after)
  exchange-IsWaiting before after key others on =
      run-IsWaiting key (number before) loads after
        (step loads (send_ws_message key true) (run loads before connected)) pending others
        (sent before key) on

  run-stopped :
      (steps : List Step) (s : Socket) → s.listening ≡ false → (run loads steps s).listening ≡ false
  unfolding run
  run-stopped [] s off = off
  run-stopped (now ∷ later) s off =
      run-stopped later (step loads now s) (stopped "" 0 loads now s off)

  -- A message that is sent to a listener that has stopped.
  sent_unheard :
      (s : Socket) (key : String) (after : List Step)
      → IsTidy s
      → s.listening ≡ false
      → All (IsOthers key s.next) after
      → returned is_number (
          (step loads
              (expire s.next)
              (run loads after (step loads (send_ws_message key true) s))).future
            s.next)
        ≡ some false
  unfolding step returned
  sent_unheard s key after tidy off others =
      let end : Socket = run loads after (create_future key s) in
      let w =
        run-unheard key s.next loads after (create_future key s) others (sent-IsWaiting key s tidy)
          off in
      ap (returned is_number)
        (set_own s.next (cancel (end.future s.next)) end.future ∙ ap cancel w.own)

  resolve-late :
      (id : ℕ) (key : String) (body : Json) (now : Future) (s : Socket)
      → now ≡ cancelled
      → (resolve key id body now s).listening ≡ false
  resolve-late id key body now s e = rw e refl

  on_data-late :
      (id : ℕ) (key : String) (body : Json) (s : Socket)
      → corr_id_of body ≡ some (str key)
      → IsWaiting key id s pending
      → (on_data (some body) (step loads (expire id) s)).listening ≡ false
  unfolding step
  on_data-late id key body s e w =
      rw (e, w.entry)
        (resolve-late id key body _ _
          (set_own id (cancel (s.future id)) s.future ∙ ap cancel w.own))

  late_message :
      (id : ℕ) (key text : String) (body : Json) (s : Socket)
      → has_suffix text ":ACK" ≡ false
      → loads text ≡ some body
      → corr_id_of body ≡ some (str key)
      → s.listening ≡ true
      → IsWaiting key id s pending
      → (step loads (message text) (step loads (expire id) s)).listening ≡ false
  unfolding step listen
  late_message id key text body s plain read e on w =
      subst (λ b. (listen loads b text (step loads (expire id) s)).listening ≡ false) (sym on)
        (rw (plain, read) (on_data-late id key body s e w))

  exchange-IsTidy :
      (before : List Step) (key : String) (after : List Step) (text : String)
      → IsTidy (
          step loads
            (message text)
            (step loads (expire (number before)) (exchange before key after)))
  exchange-IsTidy before key after text =
      let sent : Socket = step loads (send_ws_message key true) (run loads before connected) in
      step-IsTidy loads (message text) _ (
        step-IsTidy loads (expire (number before)) (exchange before key after) (
          run-IsTidy loads after sent (
            step-IsTidy loads (send_ws_message key true) (run loads before connected)
              (reached-IsTidy loads before))))

  -- An answer that comes when its message has timed out, and before that message's coroutine has
  -- resumed to remove its entry, stops the listener: from then on, whatever happens and whatever Ditto
  -- sends, each message returns false at its timeout. The listener runs until then, no other answer
  -- has come to the correlation id, and the other steps have other correlation ids.
  pub late_answer_deafens :
      (before after : List Step) (key text : String) (body : Json) (between : List Step)
      (key' : String) (after' : List Step)
      → All (IsOthers key (number before)) after
      → (exchange before key after).listening ≡ true
      → first_answer key (number before) loads after ≡ pending
      → has_suffix text ":ACK" ≡ false
      → loads text ≡ some body
      → corr_id_of body ≡ some (str key)
      → let deaf : Socket = run loads between (
          step loads
            (message text)
            (step loads (expire (number before)) (exchange before key after))) in
        All (IsOthers key' deaf.next) after'
        → returned is_number (
            (step loads
                (expire deaf.next)
                (run loads after' (step loads (send_ws_message key' true) deaf))).future
              deaf.next)
          ≡ some false
  late_answer_deafens before after key text body between key' after' others on none_came plain read
        e others' =
      let w = exchange-IsWaiting before after key others on in
      let end : Socket = exchange before key after in
      let late : Socket = step loads (message text) (step loads (expire (number before)) end) in
      let off =
        late_message (number before) key text body end plain read e on
          (subst (IsWaiting key (number before) end) none_came w) in
      sent_unheard (run loads between late) key' after'
        (run-IsTidy loads between late (exchange-IsTidy before key after text))
        (run-stopped between late off) others'
