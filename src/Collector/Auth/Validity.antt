-- ===== src/Collector/Auth/Validity.antt =====
-- The tokens that the collector uses are valid when it has them.
use mathlib.Core.Path.{subst}
use dt4mob_platform.Prelude.{
  sym, ℕ, ◌+◌, ◌-◌, ◌*◌, ◌/◌, ◌≤◌, ◌≡◌, refl, true, Option, none, some, List, [], ◌∷◌, All,
  Bool-cases, inl, inr, ltb, arith,
}
use dt4mob_platform.Prelude.Text.{String}
use dt4mob_platform.Collector.Auth.{
  TokenBody, AuthenticationService, Outcome, got, authentication_error, key_error, second, lifetime,
  refresh, store_token, cached_token, use_cached, Call, get_token, get_tokens, new_service,
  seconds_until_expiration, sleep_interval,
}

module _ (valid_until : String → ℕ) where
  abbrev TokenGranted : Option String → ℕ → ℕ → Type 0
  TokenGranted none seconds later = Unit {0}
  TokenGranted (some token) seconds later =
      (issued : ℕ) × (issued + seconds * second ≤ valid_until token)
      × (later ≤ issued + seconds / 2 * second)

  -- What the token endpoint promises: a token is valid for its lifetime from the time at which it is
  -- issued; and the reply is here before half of that has passed.
  abbrev pub IsGranted : Call → Type 0
  IsGranted call =
      TokenGranted call.reply.body.access_token (lifetime call.reply.body.expires_in) call.later

  -- An outcome that is a token comes while the token is valid.
  abbrev pub IsInTime : Outcome × ℕ → Type 0
  IsInTime (got token, at) = at ≤ valid_until token
  IsInTime (authentication_error, at) = Unit {0}
  IsInTime (key_error, at) = Unit {0}

  abbrev IsKeptFor : Option String → ℕ → Type 0
  IsKeptFor none expiry = Unit {0}
  IsKeptFor (some token) expiry = expiry ≤ valid_until token

  -- The service forgets its token before the token's end.
  abbrev pub IsCautious : AuthenticationService → Type 0
  IsCautious service = IsKeptFor service.token service.expires_in

  half :
      (issued seconds end later : ℕ)
      → issued + seconds * second ≤ end
      → later ≤ issued + seconds / 2 * second
      → later + seconds / 2 * second ≤ end
  half issued seconds end later h k = omega arith

  store_token-IsCautious :
      (body : TokenBody) (token : Option String) (later : ℕ) (service : AuthenticationService)
      → TokenGranted token (lifetime body.expires_in) later
      → IsCautious service
      → IsInTime ((store_token body token later service).0, later)
        × IsCautious (store_token body token later service).1
  unfolding store_token
  store_token-IsCautious body none later service granted kept = (tt, kept)
  store_token-IsCautious body (some token) later service (issued, lives, quick) kept =
      let cautious = half issued (lifetime body.expires_in) (valid_until token) later lives quick in
      (omega arith, cautious)

  refresh-IsCautious :
      (call : Call) (service : AuthenticationService)
      → IsGranted call
      → IsCautious service
      → IsInTime ((refresh call.reply call.later service).0, call.later)
        × IsCautious (refresh call.reply call.later service).1
  unfolding refresh
  refresh-IsCautious call service granted kept = elim (Bool-cases call.reply.is_success) [
    | inl good ↦ rw good (
        store_token-IsCautious call.reply.body call.reply.body.access_token call.later service
          granted kept)
    | inr bad ↦ rw bad (tt, kept)
  ]

  use_cached-IsCautious :
      (call : Call) (service : AuthenticationService) (token : Option String)
      → token ≡ service.token
      → IsGranted call
      → IsCautious service
      → IsInTime (use_cached (cached_token service token call.now) call service).0
        × IsCautious (use_cached (cached_token service token call.now) call service).1
  unfolding use_cached cached_token
  use_cached-IsCautious call service none same granted kept =
      refresh-IsCautious call service granted kept
  use_cached-IsCautious call service (some token) same granted kept =
      elim (Bool-cases (ltb call.now service.expires_in)) [
        | inl fresh ↦
            let held : IsKeptFor (some token) service.expires_in =
              subst (λ o. IsKeptFor o service.expires_in) (sym same) kept in
            rw fresh (ground arith, kept)
        | inr stale ↦ rw stale (refresh-IsCautious call service granted kept)
      ]

  get_token-IsCautious :
      (call : Call) (service : AuthenticationService)
      → IsGranted call
      → IsCautious service
      → IsInTime (get_token call service).0 × IsCautious (get_token call service).1
  unfolding get_token
  get_token-IsCautious call service granted kept =
      use_cached-IsCautious call service service.token refl granted kept

  get_tokens-IsCautious :
      (calls : List Call) (service : AuthenticationService)
      → All IsGranted calls
      → IsCautious service
      → All IsInTime (get_tokens calls service)
  unfolding get_tokens
  get_tokens-IsCautious [] service granted kept = tt
  get_tokens-IsCautious (call ∷ calls) service (granted, rest) kept =
      let (in_time, cautious) = get_token-IsCautious call service granted kept in
      (in_time, get_tokens-IsCautious calls (get_token call service).1 rest cautious)

  -- Whatever calls are made of a new service, each token that it gives is still valid when the caller
  -- has it, cached or not: if the endpoint's tokens live as long as it says, and each reply arrives
  -- within half of that.
  pub get_tokens-IsInTime :
      (started : ℕ) (calls : List Call)
      → All IsGranted calls
      → All IsInTime (get_tokens calls (new_service started))
  unfolding new_service
  get_tokens-IsInTime started calls granted =
      get_tokens-IsCautious calls (new_service started) granted tt

  refresh-expires_in :
      (call : Call) (service : AuthenticationService) (token : String)
      → call.reply.is_success ≡ true
      → call.reply.body.access_token ≡ some token
      → (refresh call.reply call.later service).1.expires_in
        ≡ call.later + lifetime call.reply.body.expires_in / 2 * second
  unfolding refresh store_token
  refresh-expires_in call service token good given = rw (good, given, store_token) refl

  waking :
      (later expiry end : ℕ)
      → expiry ≤ end
      → later + 5 * second ≤ end
      → later + sleep_interval (expiry - later) ≤ end
  unfolding sleep_interval
  waking later expiry end h k = ground arith

  -- The supervisor that `connect` starts after a refresh sends a new token before the old one ends:
  -- if the reply of the refresh arrived within half of the token's lifetime, and five seconds or more
  -- were then left of it.
  pub sleep_interval_timely :
      (call : Call) (service : AuthenticationService) (token : String)
      → call.reply.is_success ≡ true
      → call.reply.body.access_token ≡ some token
      → IsGranted call
      → call.later + 5 * second ≤ valid_until token
      → call.later
          + sleep_interval
              (seconds_until_expiration (refresh call.reply call.later service).1 call.later)
        ≤ valid_until token
  unfolding seconds_until_expiration
  sleep_interval_timely call service token good given granted left =
      let (issued, lives, quick) =
        subst (λ o. TokenGranted o (lifetime call.reply.body.expires_in) call.later) given
          granted in
      let cautious =
        half issued (lifetime call.reply.body.expires_in) (valid_until token) call.later lives
          quick in
      waking call.later (refresh call.reply call.later service).1.expires_in (valid_until token)
        (rw (refresh-expires_in call service token good given) cautious) left
