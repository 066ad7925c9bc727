-- ===== src/Collector/Auth/Tests.antt =====
-- The token service at work: a first token, its use from the cache, a failing refresh, and the
-- supervisor of the websocket's token.
use dt4mob_platform.Prelude.{
  ℕ, ◌*◌, ◌≡◌, refl, true, false, some, none, List, [], ◌∷◌, All, arith, if◌then◌else◌,
}
use dt4mob_platform.Prelude.Text.{String, ◌==◌}
use dt4mob_platform.Collector.Auth.{
  TokenReply, AuthenticationService, Round, seconds_until_expiration, sleep_interval,
  token_refresh_loop, Call, got, authentication_error, get_token, get_tokens, new_service, second,
  refresh,
}
use dt4mob_platform.Collector.Auth.Supervisor.{IsPrompt, IsRenewed, token_refresh_loop-IsRenewed}
use dt4mob_platform.Collector.Auth.Validity.{IsInTime, get_tokens-IsInTime}

abbrev granting : TokenReply
granting = record {
  is_success = true;
  body = record { access_token = some "t"; expires_in = some 100 };
}

abbrev refusing : TokenReply
refusing = record { is_success = false; body = record { access_token = none; expires_in = none } }

abbrev first_call : Call
first_call = record { now = 0; reply = granting; later = 1 * second }

abbrev calls : List Call
calls =
    first_call
    ∷ (record { now = 30 * second; reply = refusing; later = 31 * second })
    ∷ (record { now = 90 * second; reply = refusing; later = 91 * second })
    ∷ []

outcomes :
    get_tokens calls (new_service 0)
    ≡ (got "t", 1 * second) ∷ (got "t", 30 * second) ∷ (authentication_error, 91 * second) ∷ []
unfolding get_tokens get_token refresh new_service
outcomes = refl

abbrev valid_until : String → ℕ
valid_until token = 100 * second

get_tokens-IsInTime_example : All (IsInTime valid_until) (get_tokens calls (new_service 0))
get_tokens-IsInTime_example =
    get_tokens-IsInTime valid_until 0 calls ((0, omega arith, omega arith), (tt, (tt, tt)))

-- A round that renews the token, and one whose refresh fails.
abbrev service_at_start : AuthenticationService
service_at_start = record { token = some "first"; expires_in = 50 * second }

abbrev rounds : List Round
rounds =
    (record {
      connected = true;
      reply = granting;
      later = 46 * second;
      sent_at = some (47 * second);
    })
    ∷ (record { connected = true; reply = refusing; later = 92 * second; sent_at = none })
    ∷ []

abbrev ends : String → ℕ
ends token = if token == "first" then 100 * second else 145 * second

renewed : token_refresh_loop rounds 0 service_at_start ≡ ("t", 47 * second) ∷ []
unfolding token_refresh_loop refresh
renewed = refl

rounds-IsPrompt : IsPrompt ends rounds 0 service_at_start
unfolding sleep_interval seconds_until_expiration
rounds-IsPrompt = (
  (45 * second, omega arith, omega arith, omega arith, omega arith),
  omega arith,
  λ at sent. (tt, tt, λ at sent. tt),
)

token_refresh_loop-IsRenewed_example :
    IsRenewed ends (ends "first") (token_refresh_loop rounds 0 service_at_start)
token_refresh_loop-IsRenewed_example =
    token_refresh_loop-IsRenewed ends rounds 0 service_at_start (ends "first") (omega arith)
      (omega arith) rounds-IsPrompt
