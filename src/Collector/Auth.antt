-- ===== src/Collector/Auth.antt =====
-- src/services/auth/__init__.py of services/dt4mob-garbage-collector: the cached token of
-- AuthenticationService; and the delay of `_token_refresh_loop` in src/services/ditto_api/ditto_api.py.
-- A time is in microseconds.
pub mod Validity
pub mod Supervisor
pub mod Tests
use dt4mob_platform.Prelude.{
  ℕ, ◌+◌, ◌-◌, ◌*◌, ◌/◌, ltb, Bool, true, false, Option, none, some, List, [], ◌∷◌, if◌then◌else◌,
}
use dt4mob_platform.Prelude.Text.{String}

-- The body of a reply of the token endpoint, with what the code reads of it.
pub record TokenBody : Type 0 where
  pub access_token : Option String
  pub expires_in : Option ℕ

pub record TokenReply : Type 0 where
  pub is_success : Bool
  pub body : TokenBody

pub record AuthenticationService : Type 0 where
  pub token : Option String
  pub expires_in : ℕ

-- A token, an AuthenticationError, or the KeyError of a body without a token.
pub data Outcome : Type 0 where
  got : String → Outcome
  authentication_error : Outcome
  key_error : Outcome

abbrev pub second : ℕ
second = 1000000

-- `body.get("expires_in", 60)`
abbrev pub lifetime : Option ℕ → ℕ
lifetime none = 60
lifetime (some seconds) = seconds

-- AuthenticationService.__init__
pub new_service : ℕ → AuthenticationService
new_service now = record { token = none; expires_in = now }

pub seconds_until_expiration : AuthenticationService → ℕ → ℕ
seconds_until_expiration service now = service.expires_in - now

store_token :
    TokenBody → Option String → ℕ → AuthenticationService → Outcome × AuthenticationService
store_token body none now service = (key_error, service)
store_token body (some token) now service = (
  got token,
  record { token = some token; expires_in = now + lifetime body.expires_in / 2 * second },
)

-- The reply, and the time read after it.
pub refresh : TokenReply → ℕ → AuthenticationService → Outcome × AuthenticationService
unfolding store_token
refresh reply later service =
    if reply.is_success
    then store_token reply.body reply.body.access_token later service
    else (authentication_error, service)

-- `self._token is not None and self._expires_in > datetime.now()`, as the token that is used then.
pub cached_token : AuthenticationService → Option String → ℕ → Option String
cached_token service none now = none
cached_token service (some token) now = if ltb now service.expires_in then some token else none

-- A call: the time at which it is made, and the reply that it would get, with the time after that.
pub record Call : Type 0 where
  pub now : ℕ
  pub reply : TokenReply
  pub later : ℕ

use_cached : Option String → Call → AuthenticationService → (Outcome × ℕ) × AuthenticationService
use_cached (some token) call service = ((got token, call.now), service)
use_cached none call service =
    let done = refresh call.reply call.later service in ((done.0, call.later), done.1)

-- The outcome, with the time at which the caller has it.
pub get_token : Call → AuthenticationService → (Outcome × ℕ) × AuthenticationService
unfolding use_cached cached_token
get_token call service = use_cached (cached_token service service.token call.now) call service

-- The outcomes of one call after the other.
pub get_tokens : List Call → AuthenticationService → List (Outcome × ℕ)
get_tokens [] service = []
get_tokens (call ∷ calls) service =
    let done = get_token call service in done.0 ∷ get_tokens calls done.1

-- `max(5.0, time_left - 5.0)`
pub sleep_interval : ℕ → ℕ
sleep_interval time_left =
    if ltb (5 * second) (time_left - 5 * second) then time_left - 5 * second else 5 * second

-- A round of `_token_refresh_loop`: whether the websocket is there after the sleep, the reply to the
-- refresh with the time after it, and the time at which the token has been sent, or an exception.
pub record Round : Type 0 where
  pub connected : Bool
  pub reply : TokenReply
  pub later : ℕ
  pub sent_at : Option ℕ

send_token :
    (ℕ → AuthenticationService → List (String × ℕ))
    → Outcome × AuthenticationService
    → Option ℕ
    → List (String × ℕ)
send_token next (got token, service) (some at) = (token, at) ∷ next at service
send_token next (got token, service) none = []
send_token next (authentication_error, service) sent_at = []
send_token next (key_error, service) sent_at = []

-- The tokens that the supervisor sends over the websocket, with their times. It ends with the
-- websocket or with the first exception.
pub token_refresh_loop : List Round → ℕ → AuthenticationService → List (String × ℕ)
unfolding send_token
token_refresh_loop [] now service = []
token_refresh_loop (round ∷ rounds) now service =
    if round.connected
    then send_token (λ at s. token_refresh_loop rounds at s)
        (refresh round.reply round.later service) round.sent_at
    else []
