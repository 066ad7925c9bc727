-- ===== src/Controller/Loop/Retries.antt =====
-- The retry budget of the event loop in main.go.
use dt4mob_platform.Prelude.{
  ℕ, zero, suc, ◌-◌, ◌+◌, ◌^◌, ◌≤◌, ◌<◌, ◌==◌, ◌≡◌, refl, ap, ◌∙◌, Bool, true, false, ◌&&◌, List,
  [], ◌∷◌, arith, if◌then◌else◌, Bool-cases, inl, inr, leb,
}
use dt4mob_platform.Prelude.Int.{ℤ, pos, negsuc, sub_ℕ}
use dt4mob_platform.Controller.State.{Config, State}
use dt4mob_platform.Controller.Http.{Net, Codec, returned, panicked}
use dt4mob_platform.Controller.Http.Bind.{Runs}
use dt4mob_platform.Controller.Update.{update}
use dt4mob_platform.Controller.Loop.{
  Event, retry_tick, Loop, is_zero, decrement, after_tick, step, run,
}

abbrev pub ticks : ℕ → List Event
ticks zero = []
ticks (suc n) = retry_tick ∷ ticks n

pos-minus-one : (n : ℕ) → decrement (pos (suc n)) ≡ pos n
pos-minus-one n = refl

decrement_pos : (k n : ℕ) → k ≡ suc n → decrement (pos k) ≡ pos n
decrement_pos k n e = rw e refl

decrement_zero : (k : ℕ) → k ≡ 0 → decrement (pos k) ≡ negsuc 0
decrement_zero k e = rw e refl

decrement_neg : (k m : ℕ) → k < 2 ^ 63 - 1 → m ≡ suc k → decrement (negsuc k) ≡ negsuc m
decrement_neg k m h e = let inside : (k == 2 ^ 63 - 1) ≡ false = ground arith in rw (inside, e) refl

-- The count after some decrements, until Go's int wraps.
pub decrement-sub : (r n : ℕ) → n < r + 2 ^ 63 → decrement (sub_ℕ r n) ≡ sub_ℕ r (suc n)
decrement-sub r n h = elim (Bool-cases (leb n r)) [
  | inl e ↦ elim (Bool-cases (leb (suc n) r)) [
    | inl f ↦ rw (e, f) (decrement_pos (r - n) (r - suc n) (ground arith))
    | inr f ↦ rw (e, f) (decrement_zero (r - n) (ground arith) ∙ ap negsuc (ground arith))
  ]
  | inr e ↦
      let f : leb (suc n) r ≡ false = ground arith in
      rw (e, f) (decrement_neg (n - r - 1) (suc n - r - 1) (ground arith) (ground arith))
]

is_zero-spent : (n : ℕ) → n < 2 ^ 63 → is_zero (sub_ℕ 0 (suc n)) ≡ false
is_zero-spent n h = ground arith

nonzero : (r : ℕ) → is_zero (pos (suc r)) ≡ false
nonzero r = ground arith

and_false : (b : Bool) → (b && false) ≡ false
and_false true = refl
and_false false = refl

-- The loop while a retry is pending.
abbrev pub armed : State → ℤ → Loop
armed state retries = record { state = state; retries = retries; retry = true }

module _ {World : Type 0} (net : Net World) (codec : Codec) (config : Config) (state : State) where
  settle :
      (r : ℤ) (w : World) (again : Bool)
      → after_tick net codec config (armed state r) again w ≡ (
          if again && is_zero (decrement r)
          then (panicked, w)
          else (returned (armed state (decrement r)), w))
  unfolding after_tick
  settle r w again = elim (Bool-cases (again && is_zero (decrement r))) [
    | inl e ↦ rw e
    | inr e ↦ rw e
  ]

  -- What an armed tick does with the result of its update.
  tick-armed :
      (r : ℤ) (w w' : World) (again : Bool)
      → Runs (update net codec config state) w again w'
      → step net codec config (armed state r) retry_tick w ≡ (
          if again && is_zero (decrement r)
          then (panicked, w')
          else (returned (armed state (decrement r)), w'))
  unfolding step
  tick-armed r w w' again ran = rw ran (settle r w' again)

  tick_fails :
      (r : ℕ) (w w' : World)
      → Runs (update net codec config state) w true w'
      → step net codec config (armed state (pos (suc (suc r)))) retry_tick w
        ≡ (returned (armed state (pos (suc r))), w')
  tick_fails r w w' ran =
      tick-armed (pos (suc (suc r))) w w' true ran ∙ rw (pos-minus-one (suc r)) (rw (nonzero r))

  tick_gives_up :
      (w w' : World)
      → Runs (update net codec config state) w true w'
      → step net codec config (armed state (pos 1)) retry_tick w ≡ (panicked, w')
  tick_gives_up w w' ran = tick-armed (pos 1) w w' true ran

  -- While every update fails, the loop outlasts all ticks but the last of its budget, counting
  -- down, and panics at the last.
  pub run-ticks_failing :
      (n r : ℕ) (w : World)
      → ((v : World) → (v' : World) × Runs (update net codec config state) v true v')
      → (run net codec config (armed state (pos (suc r))) (ticks n) w).0
        ≡ (if leb n r then returned (armed state (pos (suc r - n))) else panicked)
  unfolding run
  run-ticks_failing zero r w fails = ground arith
  run-ticks_failing (suc n) zero w fails =
      rw (tick_gives_up w (fails w).0 (fails w).1) (ground arith)
  run-ticks_failing (suc n) (suc r) w fails =
      rw (tick_fails r w (fails w).0 (fails w).1)
        (run-ticks_failing n r (fails w).0 fails ∙ ground arith)

  module _ (after : World → World) where
    -- The world after some updates, one after the other.
    abbrev pub sent : ℕ → World → World
    sent zero w = w
    sent (suc n) w = sent n (after w)

    -- A retry that succeeds does not disarm the timer: while updates succeed, each tick sends one
    -- more, and the count goes on down, below zero too. In as many ticks the count does not wrap.
    pub run-ticks_succeeding :
        (n r m : ℕ) (w : World)
        → m + n ≤ r + 2 ^ 63
        → ((v : World) → Runs (update net codec config state) v false (after v))
        → Runs
            (run net codec config (armed state (sub_ℕ r m)) (ticks n))
            w
            (armed state (sub_ℕ r (m + n)))
            (sent n w)
    unfolding run
    run-ticks_succeeding zero r m w few good =
        let same : m ≡ m + 0 = omega arith in ap (λ k. (returned (armed state (sub_ℕ r k)), w)) same
    run-ticks_succeeding (suc n) r m w few good =
        let next = decrement-sub r m (omega (arith, few)) in
        let same : suc m + n ≡ m + suc n = omega arith in
        rw (tick-armed (sub_ℕ r m) w (after w) false (good w), next)
          (run-ticks_succeeding n r (suc m) (after w) (omega (arith, few)) good
            ∙ ap (λ k. (returned (armed state (sub_ℕ r k)), sent n (after w))) same)

    -- Once the count is spent without a panic, the loop does not give up in the ticks that follow, up to
    -- 2 ^ 63 from zero, when the count wraps: as long as each update returns, whether it succeeds or
    -- fails, each tick sends one more update and only counts further down.
    pub run-ticks_below :
        (n m : ℕ) (w : World)
        → m + n ≤ 2 ^ 63
        → ((v : World) → (again : Bool) × Runs (update net codec config state) v again (after v))
        → Runs
            (run net codec config (armed state (sub_ℕ 0 m)) (ticks n))
            w
            (armed state (sub_ℕ 0 (m + n)))
            (sent n w)
    unfolding run
    run-ticks_below zero m w few runs =
        let same : m ≡ m + 0 = omega arith in ap (λ k. (returned (armed state (sub_ℕ 0 k)), w)) same
    run-ticks_below (suc n) m w few runs =
        let next = decrement-sub 0 m (omega (arith, few)) in
        let spent = is_zero-spent m (omega (arith, few)) in
        let same : suc m + n ≡ m + suc n = omega arith in
        rw
          (
            tick-armed (sub_ℕ 0 m) w (after w) (runs w).0 (runs w).1,
            next,
            spent,
            and_false (runs w).0,
          )
          (run-ticks_below n (suc m) (after w) (omega (arith, few)) runs
            ∙ ap (λ k. (returned (armed state (sub_ℕ 0 k)), sent n (after w))) same)
