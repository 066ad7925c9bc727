-- ===== src/Collector/Auth/Supervisor.antt =====
-- The token of the websocket, which `_token_refresh_loop` of src/services/ditto_api/ditto_api.py renews.
use dt4mob_platform.Prelude.{
  ℕ, ◌+◌, ◌*◌, ◌/◌, ◌≤◌, ◌≡◌, refl, Option, none, some, List, [], ◌∷◌, arith, Bool-cases, inl, inr,
}
use dt4mob_platform.Prelude.Text.{String}
use dt4mob_platform.Collector.Auth.{
  TokenBody, AuthenticationService, second, lifetime, refresh, store_token,
  seconds_until_expiration, sleep_interval, Round, send_token, token_refresh_loop,
}

-- The supervisor wakes early enough for a token that has ten seconds left or more.
abbrev woken : ℕ → AuthenticationService → ℕ
woken now service = now + sleep_interval (seconds_until_expiration service now)

woken_early :
    (now end : ℕ) (service : AuthenticationService)
    → service.expires_in ≤ end
    → now + 10 * second ≤ end
    → woken now service + 5 * second ≤ end
unfolding sleep_interval seconds_until_expiration
woken_early now end service kept left = ground arith

module _ (valid_until : String → ℕ) where
  -- A token is issued for its lifetime of at least twenty seconds, and is sent within five seconds of
  -- that.
  abbrev IsFresh : Option String → ℕ → ℕ → Option ℕ → Type 0
  IsFresh (some token) seconds later (some at) =
      (issued : ℕ) × (issued + seconds * second ≤ valid_until token)
      × (20 ≤ seconds)
      × (later ≤ at)
      × (at ≤ issued + 5 * second)
  IsFresh _ seconds later _ = Unit {0}

  abbrev IsPromptBy : ℕ → Option ℕ → Type 0
  IsPromptBy limit none = Unit {0}
  IsPromptBy limit (some at) = at ≤ limit

  -- Each round gets and sends its token within five seconds of its waking.
  abbrev pub IsPrompt : List Round → ℕ → AuthenticationService → Type 0
  IsPrompt [] now service = Unit {0}
  IsPrompt (round ∷ rounds) now service =
      IsFresh round.reply.body.access_token (lifetime round.reply.body.expires_in) round.later
        round.sent_at
      × IsPromptBy (woken now service + 5 * second) round.sent_at
      × ((at : ℕ)
          → round.sent_at ≡ some at
          → IsPrompt rounds at (refresh round.reply round.later service).1)

  -- Each token is sent before the end of the one before it.
  abbrev pub IsRenewed : ℕ → List (String × ℕ) → Type 0
  IsRenewed end [] = Unit {0}
  IsRenewed end ((token, at) ∷ rest) = (at ≤ end) × IsRenewed (valid_until token) rest

  module _ (rounds : List Round) where
    -- The rest of the loop renews what it is given in time.
    abbrev IsGoodFrom : ℕ → AuthenticationService → Type 0
    IsGoodFrom now service =
        (end : ℕ)
        → service.expires_in ≤ end
        → now + 10 * second ≤ end
        → IsPrompt rounds now service
        → IsRenewed end (token_refresh_loop rounds now service)

    store-IsRenewed :
        (body : TokenBody) (token : Option String) (later : ℕ) (sent_at : Option ℕ)
        (service : AuthenticationService) (end : ℕ)
        → ((at : ℕ) (s : AuthenticationService) → IsGoodFrom at s)
        → IsFresh token (lifetime body.expires_in) later sent_at
        → IsPromptBy end sent_at
        → ((at : ℕ)
            → sent_at ≡ some at
            → IsPrompt rounds at (store_token body token later service).1)
        → IsRenewed end (
            send_token
              (λ at s. token_refresh_loop rounds at s)
              (store_token body token later service)
              sent_at)
    unfolding send_token store_token
    store-IsRenewed body none later sent_at service end good fresh prompt rest = tt
    store-IsRenewed body (some token) later none service end good fresh prompt rest = tt
    store-IsRenewed body (some token) later (some at) service end good
          (issued, lives, long, before, quick) prompt rest =
        (
          prompt,
          good at
              (record {
                token = some token;
                expires_in = later + lifetime body.expires_in / 2 * second;
              })
              (valid_until token) (omega (arith, lives, long, before, quick))
              (omega (arith, lives, long, quick)) (rest at refl),
        )

  -- Each token that the supervisor sends over the websocket comes before the end of the one before
  -- it, if it starts with a token that has ten seconds left and that the service means to forget by
  -- its end. Each token must live for at least twenty seconds from its issue, and be sent within
  -- five seconds of that and of the end of the sleep.
  pub token_refresh_loop-IsRenewed :
      (rounds : List Round) (now : ℕ) (service : AuthenticationService) (end : ℕ)
      → service.expires_in ≤ end
      → now + 10 * second ≤ end
      → IsPrompt rounds now service
      → IsRenewed end (token_refresh_loop rounds now service)
  unfolding token_refresh_loop refresh send_token
  token_refresh_loop-IsRenewed [] now service end kept left prompt = tt
  token_refresh_loop-IsRenewed (round ∷ rounds) now service end kept left (fresh, by, rest) =
      elim (Bool-cases round.connected) [
        | inl e ↦ elim (Bool-cases round.reply.is_success) [
          | inl ok ↦
              rw (e, ok)
                (store-IsRenewed rounds round.reply.body round.reply.body.access_token round.later
                  round.sent_at service end
                  (λ at s end' h k p. token_refresh_loop-IsRenewed rounds at s end' h k p) fresh
                  (prompt_by round.sent_at by) (λ at sent. rw ok at (rest at sent)))
          | inr failed ↦ rw (e, failed) tt
        ]
        | inr e ↦ rw e tt
      ]
    where
      prompt_by :
          (sent_at : Option ℕ)
          → IsPromptBy (woken now service + 5 * second) sent_at
          → IsPromptBy end sent_at
      prompt_by none h = tt
      prompt_by (some at) h = omega (arith, h, woken_early now end service kept left)
