-- ===== src/Collector/Sweep/Tests.antt =====
-- The collector's program with a service that deletes, and with one that refuses.
use dt4mob_platform.Prelude.{
  ℕ, zero, suc, ◌-◌, ◌<◌, ◌≡◌, refl, ap, Option, none, some, List, [], ◌∷◌, length, arith,
}
use dt4mob_platform.Prelude.Text.{String}
use dt4mob_platform.Collector.Sweep.{
  Envelope, main_loop, at_work, closed, send_all, get_expired_envelops,
}
use dt4mob_platform.Collector.Sweep.Ends.{IsOver, swept, main_loop-IsOver, main_loop-at_work}

abbrev six : List String
six = "o:a" ∷ "o:b" ∷ "o:c" ∷ "o:d" ∷ "o:e" ∷ "o:f" ∷ []

-- The world counts the things that are left.
abbrev search : ℕ → Option (List String) × ℕ
search zero = (some [], zero)
search (suc n) = (some six, suc n)

abbrev delete_one : ℕ → Envelope → ℕ
delete_one n envelop = n - 1

abbrev ignore : ℕ → Envelope → ℕ
ignore n envelop = n

ended : main_loop search delete_one 3 8 ≡ (closed, 0)
unfolding main_loop get_expired_envelops send_all
ended = refl

things_of : Option (List String) × ℕ → List String
things_of (some things, w) = things
things_of (none, w) = []

progress :
    (world w : ℕ) (things : List String)
    → search world ≡ (some things, w)
    → 5 < length things
    → swept search delete_one things w < world
unfolding send_all things_of
progress zero w things e many =
    let same : [] ≡ things = ap things_of e in
    let none_found : 5 < length {A = String} [] = rw (← same) at many in absurd (omega arith)
progress (suc n) w things e many =
    let same : six ≡ things = ap things_of e in
    let kept : suc n ≡ w = ap (λ (p : Option (List String) × ℕ). p.1) e in
    rw (← same, ← kept) (omega arith)

main_loop-IsOver_example : IsOver search delete_one (main_loop search delete_one 9 8)
main_loop-IsOver_example = main_loop-IsOver search delete_one (λ n. n) progress 9 8 (omega arith)

main_loop-at_work_example : (main_loop search ignore 1000 1).0 ≡ at_work
unfolding send_all
main_loop-at_work_example =
    main_loop-at_work search ignore (λ n. n ≡ 1) (λ world h. (six, 1, rw h refl, omega arith, refl))
      1000 1 refl
