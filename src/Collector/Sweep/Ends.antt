-- ===== src/Collector/Sweep/Ends.antt =====
-- When the collector's program ends, and when it does not.
use dt4mob_platform.Prelude.{
  ℕ, zero, suc, ◌<◌, ◌≤◌, ltb, ◌≡◌, refl, ap, ◌∙◌, true, false, Option, none, some, List, [], ◌∷◌,
  map, length, ◌⊎◌, inl, inr, Bool-cases, arith,
}
use dt4mob_platform.Prelude.Text.{String}
use dt4mob_platform.Collector.Sweep.{
  Envelope, delete_message, Ended, closed, crashed, at_work, envelops, get_expired_envelops,
  send_all, after_search, main_loop,
}

length-map : {A B : Type 0} (f : A → B) (xs : List A) → length (map f xs) ≡ length xs
length-map f [] = refl
length-map f (x ∷ xs) = ap suc (length-map f xs)

module _ {World : Type 0} (search : World → Option (List String) × World)
    (send : World → Envelope → World) where
  -- The world after a round that found these things.
  abbrev pub swept : List String → World → World
  swept things world = send_all search send (map delete_message things) world

  round :
      (next : World → Ended × World) (world w : World) (found : Option (List String))
      → search world ≡ (found, w)
      → after_search search send next (get_expired_envelops search send world)
        ≡ after_search search send next (envelops search send (found, w))
  unfolding get_expired_envelops
  round next world w found e = rw e refl

  -- One round, by what it finds.
  pub main_loop-many :
      (fuel : ℕ) (world w : World) (things : List String)
      → search world ≡ (some things, w)
      → 5 < length things
      → main_loop search send (suc fuel) world ≡ main_loop search send fuel (swept things w)
  unfolding main_loop after_search envelops
  main_loop-many fuel world w things e many =
      let busy : ltb 5 (length (map delete_message things)) ≡ true =
        ground (arith, length-map delete_message things) in
      round (λ v. main_loop search send fuel v) world w (some things) e ∙ rw busy refl

  pub main_loop-few :
      (fuel : ℕ) (world w : World) (things : List String)
      → search world ≡ (some things, w)
      → length things ≤ 5
      → main_loop search send (suc fuel) world ≡ (closed, w)
  unfolding main_loop after_search envelops
  main_loop-few fuel world w things e few =
      let idle : ltb 5 (length (map delete_message things)) ≡ false =
        ground (arith, length-map delete_message things) in
      round (λ v. main_loop search send fuel v) world w (some things) e ∙ rw idle refl

  -- The program is over: a search raised an exception, or the last one found at most five things.
  abbrev pub IsOver : Ended × World → Type 0
  IsOver end =
      (end.0 ≡ crashed)
      ⊎ ((end.0 ≡ closed)
          × (v : World) × (things : List String) × (search v ≡ (some things, end.1))
          × (length things ≤ 5))

  module _ (left : World → ℕ)
      (progress : (world w : World) (things : List String)
        → search world ≡ (some things, w)
        → 5 < length things
        → left (swept things w) < left world) where
    found-IsOver :
        (fuel : ℕ) (world w : World) (found : Option (List String))
        → search world ≡ (found, w)
        → left world ≤ fuel
        → ((v : World) → left v < fuel → IsOver (main_loop search send fuel v))
        → IsOver (
            after_search search send
              (λ v. main_loop search send fuel v)
              (envelops search send (found, w)))
    unfolding after_search envelops
    found-IsOver fuel world w none e enough ih = inl refl
    found-IsOver fuel world w (some things) e enough ih =
        elim (Bool-cases (ltb 5 (length (map delete_message things)))) [
          | inl many ↦
              let shorter =
                progress world w things e (ground (arith, length-map delete_message things)) in
              rw many (ih (swept things w) (omega arith))
          | inr few ↦
              rw few
                (inr (refl, world, things, e, ground (arith, length-map delete_message things)))
        ]

    -- The program ends, by an exception of the search or with at most five things found, once the
    -- fuel exceeds the number of things that are left: if after each round over more than five
    -- things fewer are left than before.
    pub main_loop-IsOver :
        (fuel : ℕ) (world : World) → left world < fuel → IsOver (main_loop search send fuel world)
    unfolding main_loop
    main_loop-IsOver zero world enough = absurd (omega arith)
    main_loop-IsOver (suc fuel) world enough =
        rw (round (λ v. main_loop search send fuel v) world (search world).1 (search world).0 refl)
          (found-IsOver fuel world (search world).1 (search world).0 refl (omega arith)
            (λ v less. main_loop-IsOver fuel v less))

  module _ (IsStuck : World → Type 0)
      (stuck : (world : World)
        → IsStuck world
        → (things : List String) × (w : World) × (search world ≡ (some things, w))
          × (5 < length things)
          × IsStuck (swept things w)) where
    -- While each search finds more than five things, whatever the messages did, the program never
    -- ends, with any fuel: nothing bounds its rounds.
    pub main_loop-at_work :
        (fuel : ℕ) (world : World) → IsStuck world → (main_loop search send fuel world).0 ≡ at_work
    unfolding main_loop
    main_loop-at_work zero world h = refl
    main_loop-at_work (suc fuel) world h =
        let (things, w, e, many, again) = stuck world h in
        ap (λ (end : Ended × World). end.0) (main_loop-many fuel world w things e many)
        ∙ main_loop-at_work fuel (swept things w) again
