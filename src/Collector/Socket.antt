-- ===== src/Collector/Socket.antt =====
-- The websocket of DittoClient in src/services/ditto_api/ditto_api.py of
-- services/dt4mob-garbage-collector: the table `_responses` of those who wait for an answer, which
-- send_ws_message and send_control_message fill and `_listen_loop` empties. A coroutine runs from one
-- `await` to the next without another between, so that a run is a sequence of steps. Messages are
-- text frames.
pub mod Answers
pub mod Exchange
pub mod Tidy
pub mod Returned
pub mod Tests
use Prim.Native.String.{◌++◌ as ◌<>◌}
use dt4mob_platform.Prelude.{
  ℕ, suc, ◌+◌, Bool, true, false, ◌||◌, Option, none, some, List, [], ◌∷◌, ◌==◌, if◌then◌else◌,
}
use dt4mob_platform.Prelude.Chain.{◌>>=◌}
use dt4mob_platform.Prelude.Text.{String, lookup, insert, remove, ◌==◌ as str_eq}
use dt4mob_platform.Prelude.Text.Prefix.{has_suffix}
use dt4mob_platform.Json.{Json, null, bool, num, str, arr, obj, end, get}

-- An asyncio future: its result is an answer of Ditto, or the `True` of an acknowledgement.
pub data Future : Type 0 where
  pending : Future
  resolved : Json → Future
  acknowledged : Future
  cancelled : Future

-- The futures by their number, in the order of their creation.
pub record Socket : Type 0 where
  pub responses : List (String × ℕ)
  pub future : ℕ → Future
  pub next : ℕ
  pub listening : Bool

abbrev pub set : ℕ → Future → (ℕ → Future) → ℕ → Future
set id value future other = if other == id then value else future other

-- `asyncio.get_running_loop().create_future()` and its entry.
abbrev pub create_future : String → Socket → Socket
create_future key s = record s {
  responses = insert key s.next s.responses;
  future = set s.next pending s.future;
  next = s.next + 1;
}

-- An exception that ends the task of `_listen_loop`.
abbrev pub stop : Socket → Socket
stop s = record s { listening = false }

abbrev pub pop : String → Socket → Socket
pop key s = record s { responses = remove key s.responses }

-- `future.set_result(True)` under `not future.done()`, behind the `pop`.
abbrev pub acknowledge : String → Option ℕ → Future → Socket → Socket
acknowledge message none now s = s
acknowledge message (some id) pending s = record s {
  responses = remove message s.responses;
  future = set id acknowledged s.future;
}
acknowledge message (some id) _ s = pop message s

-- `set_result(data)`, which raises InvalidStateError if the future is done, and `del`.
abbrev pub resolve : String → ℕ → Json → Future → Socket → Socket
resolve corr_id id body pending s = record s {
  responses = remove corr_id s.responses;
  future = set id (resolved body) s.future;
}
resolve corr_id id body _ s = stop s

abbrev pub deliver : String → Json → Option ℕ → Socket → Socket
deliver corr_id body none s = s
deliver corr_id body (some id) s = resolve corr_id id body (s.future id) s

-- `corr_id in self._responses`: a list or a dictionary has no hash, and nothing but a text is a key.
abbrev pub on_corr_id : Json → Option Json → Socket → Socket
on_corr_id body none s = stop s
on_corr_id body (some (str corr_id)) s = deliver corr_id body (lookup corr_id s.responses) s
on_corr_id body (some (arr _)) s = stop s
on_corr_id body (some (obj _)) s = stop s
on_corr_id body (some _) s = s

abbrev pub future_of : Option ℕ → Socket → Future
future_of none s = pending
future_of (some id) s = s.future id

-- `data.get("headers", {}).get("correlation-id")`
abbrev pub corr_id_of : Json → Option Json
corr_id_of body = get "headers" (obj end) body >>= get "correlation-id" null

-- The two parts of the loop's body; `json.loads` is a parameter.
abbrev pub on_ack : String → Socket → Socket
on_ack message s =
    acknowledge message (lookup message s.responses) (future_of (lookup message s.responses) s) s

abbrev pub on_data : Option Json → Socket → Socket
on_data none s = stop s
on_data (some body) s = on_corr_id body (corr_id_of body) s

-- What a coroutine does up to its next `await`. The flag of a sending says whether `_ws.send`
-- returned; a waiter is known by its future, and `wake` is its `finally`.
pub data Step : Type 0 where
  send_ws_message : String → Bool → Step
  send_control_message : String → Bool → Step
  message : String → Step
  expire : ℕ → Step
  wake : ℕ → String → Step

abbrev pub cancel : Future → Future
cancel pending = cancelled
cancel done = done

module _ (loads : String → Option Json) where
  -- The message is read if the task still runs.
  listen : Bool → String → Socket → Socket
  listen true text s = if has_suffix text ":ACK" then on_ack text s else on_data (loads text) s
  listen false text s = s

  -- The entry of a message that could not be sent stays; that of a command goes.
  pub step : Step → Socket → Socket
  unfolding listen
  step (send_ws_message cor_id sent) s = create_future cor_id s
  step (send_control_message expected_ack sent) s =
      if sent then create_future expected_ack s else pop expected_ack (create_future expected_ack s)
  step (message text) s = listen s.listening text s
  step (expire id) s = record s { future = set id (cancel (s.future id)) s.future }
  step (wake id key) s = pop key s

  pub run : List Step → Socket → Socket
  run [] s = s
  run (now ∷ later) s = run later (step now s)

-- `self._responses = {}` of __init__, and the start of the listener by `connect`.
abbrev pub connected : Socket
connected = record { responses = []; future = λ id. pending; next = 0; listening = true }

-- What send_ws_message returns once its future is done; `none` is an AttributeError, or that it still
-- waits. The parameter says which number a literal stands for.
module _ (is_number : String → ℕ → Bool) where
  abbrev is_success : Json → Bool
  is_success (num literal) = is_number literal 200 || is_number literal 204
  is_success _ = false

  pub returned : Future → Option Bool
  returned pending = none
  returned (resolved response) = do
    headers ← get "headers" (obj end) response
    status ← get "status" null headers
    some (is_success status)
  returned acknowledged = none
  returned cancelled = some false
