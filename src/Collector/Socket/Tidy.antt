-- ===== src/Collector/Socket/Tidy.antt =====
-- The numbers of the futures that wait for an answer in src/services/ditto_api/ditto_api.py.
use dt4mob_platform.Prelude.{
  ℕ, ◌<◌, ◌≡◌, refl, sym, inl, inr, Bool, true, false, Option, none, some, List, [], ◌∷◌, arith,
  Bool-cases,
}
use dt4mob_platform.Prelude.Text.{
  String, lookup, lookup-insert, lookup-remove, eq_iff, ◌==◌ as str_eq,
}
use dt4mob_platform.Prelude.Text.Prefix.{has_suffix}
use dt4mob_platform.Json.{Json, null, bool, num, str, arr, obj}
use dt4mob_platform.Collector.Socket.{
  Future, pending, resolved, acknowledged, cancelled, Socket, create_future, pop, acknowledge,
  resolve, deliver, on_corr_id, future_of, corr_id_of, on_data, Step, send_ws_message,
  send_control_message, message, expire, wake, listen, step, run, connected,
}
use dt4mob_platform.Collector.Socket.Answers.{IsWaiting}

-- The futures that wait have been created.
abbrev pub IsTidy : Socket → Type 0
IsTidy s = (k : String) (i : ℕ) → lookup k s.responses ≡ some i → i < s.next

create_future-IsTidy : (key : String) (s : Socket) → IsTidy s → IsTidy (create_future key s)
create_future-IsTidy key s tidy k i h = elim (Bool-cases (str_eq key k)) [
  | inl e ↦ let new = rw (lookup-insert key k s.next s.responses, e) at h in ground (arith, new)
  | inr e ↦
      let old = tidy k i (rw (lookup-insert key k s.next s.responses, e) at h) in omega (arith, old)
]

pop-IsTidy : (key : String) (s : Socket) → IsTidy s → IsTidy (pop key s)
pop-IsTidy key s tidy k i h = elim (Bool-cases (str_eq key k)) [
  | inl e ↦ let gone = rw (lookup-remove key k s.responses, e) at h in cc gone
  | inr e ↦ tidy k i (rw (lookup-remove key k s.responses, e) at h)
]

acknowledge-IsTidy :
    (text : String) (found : Option ℕ) (now : Future) (s : Socket)
    → IsTidy s
    → IsTidy (acknowledge text found now s)
acknowledge-IsTidy text none now s tidy = tidy
acknowledge-IsTidy text (some i) pending s tidy = pop-IsTidy text s tidy
acknowledge-IsTidy text (some i) (resolved _) s tidy = pop-IsTidy text s tidy
acknowledge-IsTidy text (some i) acknowledged s tidy = pop-IsTidy text s tidy
acknowledge-IsTidy text (some i) cancelled s tidy = pop-IsTidy text s tidy

resolve-IsTidy :
    (key : String) (id : ℕ) (body : Json) (now : Future) (s : Socket)
    → IsTidy s
    → IsTidy (resolve key id body now s)
resolve-IsTidy key id body pending s tidy = pop-IsTidy key s tidy
resolve-IsTidy key id body (resolved _) s tidy = tidy
resolve-IsTidy key id body acknowledged s tidy = tidy
resolve-IsTidy key id body cancelled s tidy = tidy

deliver-IsTidy :
    (key : String) (body : Json) (found : Option ℕ) (s : Socket)
    → IsTidy s
    → IsTidy (deliver key body found s)
deliver-IsTidy key body none s tidy = tidy
deliver-IsTidy key body (some id) s tidy = resolve-IsTidy key id body (s.future id) s tidy

on_corr_id-IsTidy :
    (body : Json) (corr_id : Option Json) (s : Socket)
    → IsTidy s
    → IsTidy (on_corr_id body corr_id s)
on_corr_id-IsTidy body none s tidy = tidy
on_corr_id-IsTidy body (some (str k)) s tidy = deliver-IsTidy k body (lookup k s.responses) s tidy
on_corr_id-IsTidy body (some null) s tidy = tidy
on_corr_id-IsTidy body (some (bool _)) s tidy = tidy
on_corr_id-IsTidy body (some (num _)) s tidy = tidy
on_corr_id-IsTidy body (some (arr _)) s tidy = tidy
on_corr_id-IsTidy body (some (obj _)) s tidy = tidy

on_data-IsTidy : (read : Option Json) (s : Socket) → IsTidy s → IsTidy (on_data read s)
on_data-IsTidy none s tidy = tidy
on_data-IsTidy (some body) s tidy = on_corr_id-IsTidy body (corr_id_of body) s tidy

module _ (loads : String → Option Json) where
  listen-IsTidy :
      (on : Bool) (text : String) (s : Socket) → IsTidy s → IsTidy (listen loads on text s)
  unfolding listen
  listen-IsTidy true text s tidy = elim (Bool-cases (has_suffix text ":ACK")) [
    | inl e ↦ rw e (
        acknowledge-IsTidy text (lookup text s.responses) (future_of (lookup text s.responses) s) s
          tidy)
    | inr e ↦ rw e (on_data-IsTidy (loads text) s tidy)
  ]
  listen-IsTidy false text s tidy = tidy

  pub step-IsTidy : (now : Step) (s : Socket) → IsTidy s → IsTidy (step loads now s)
  unfolding step
  step-IsTidy (send_ws_message cor_id sent) s tidy = create_future-IsTidy cor_id s tidy
  step-IsTidy (send_control_message ack true) s tidy = create_future-IsTidy ack s tidy
  step-IsTidy (send_control_message ack false) s tidy =
      pop-IsTidy ack (create_future ack s) (create_future-IsTidy ack s tidy)
  step-IsTidy (message text) s tidy = listen-IsTidy s.listening text s tidy
  step-IsTidy (expire i) s tidy = tidy
  step-IsTidy (wake i k) s tidy = pop-IsTidy k s tidy

  pub run-IsTidy : (steps : List Step) (s : Socket) → IsTidy s → IsTidy (run loads steps s)
  unfolding run
  run-IsTidy [] s tidy = tidy
  run-IsTidy (now ∷ later) s tidy = run-IsTidy later (step loads now s) (step-IsTidy now s tidy)

  -- A run from the connection on leaves the socket tidy.
  pub reached-IsTidy : (before : List Step) → IsTidy (run loads before connected)
  reached-IsTidy before = run-IsTidy before connected (λ k i h. cc h)

pub sent-IsWaiting :
    (key : String) (s : Socket) → IsTidy s → IsWaiting key s.next (create_future key s) pending
sent-IsWaiting key s tidy = record {
  own = ground arith;
  entry = rw (lookup-insert key key s.next s.responses, (eq_iff key key).1 refl) refl;
  alone = λ k h. elim (Bool-cases (str_eq key k)) [
    | inl e ↦ sym ((eq_iff key k).0 e)
    | inr e ↦
        let old = tidy k s.next (rw (lookup-insert key k s.next s.responses, e) at h) in
        absurd (omega (arith, old))
  ];
  known = omega arith;
}
