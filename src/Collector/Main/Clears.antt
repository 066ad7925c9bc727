-- ===== src/Collector/Main/Clears.antt =====
-- What the collector's program has deleted when it ends.
use dt4mob_platform.Prelude.{
  ℕ, zero, suc, ◌≤◌, ◌<◌, ◌≡◌, refl, sym, ap, ◌∙◌, ◌⊎◌, inl, inr, Bool, true, not, ◌&&◌, none, some,
  List, [], ◌∷◌, ◌++◌, map, length, length-append, keep, arith, leb, Bool-cases,
}
use dt4mob_platform.Prelude.Keep.{keep-keep, keep_congr}
use dt4mob_platform.Prelude.Text.{String, contains, eq_iff, ◌==◌ as str_eq}
use dt4mob_platform.Collector.{option_of, delete_topic}
use dt4mob_platform.Collector.Search.Listing.{IsPageOf, get_things_expired_lt-HasFound}
use dt4mob_platform.Collector.Sweep.{Envelope, delete_message, Ended, closed, send_all, main_loop}
use dt4mob_platform.Collector.Sweep.Ends.{swept, main_loop-many, main_loop-few}
use dt4mob_platform.Collector.Main.{search_limit, found, Ditto, expired_things, finish, begin, main}

keep-length : {A : Type 0} (p : A → Bool) (xs : List A) → length (keep p xs) ≤ length xs
keep-length p [] = omega arith
keep-length p (x ∷ xs) = let rest = keep-length p xs in ground (arith, rest)

keep-all : {A : Type 0} (xs : List A) → keep (λ x. true) xs ≡ xs
keep-all [] = refl
keep-all (x ∷ xs) = ap (λ l. x ∷ l) (keep-all xs)

-- A search that found at most five things has found all.
whole :
    (ids rest all : List String)
    → all ≡ ids ++ rest
    → (rest ≡ []) ⊎ (search_limit ≤ length ids)
    → length ids ≤ 5
    → length all ≤ 5
whole ids rest all split (inl none_left) few =
    rw (split, none_left) (omega (arith, length-append ids []))
whole ids rest all split (inr many) few = absurd (omega (arith, many, few))

-- The things that no message about those names.
abbrev others : List String → String → Bool
others ids thing = not (contains (map delete_topic ids) (delete_topic thing))

-- At least one thing goes, the first of those.
others-length :
    (ids rest : List String)
    → 0 < length ids
    → length (keep (others ids) (ids ++ rest)) < length (ids ++ rest)
others-length [] rest h = absurd (omega arith)
others-length (id ∷ ids) rest h =
    let few = keep-length (others (id ∷ ids)) (ids ++ rest) in
    ground (arith, few, eq_iff (delete_topic id) (delete_topic id))

module _ {World : Type 0} (ditto : Ditto World) (search_size : String)
    (listed : World → String → List String) where
  -- The things that Ditto's search lists as expired.
  abbrev pub expired : World → List String
  expired world = listed world (option_of search_size none)

  -- Ditto answers each request with a page of its list, and a message takes exactly the things that
  -- its topic names out of the list of the expired.
  pub record IsServing : Type 0 where
    pub pages :
        (world : World) (option : String) → IsPageOf ditto.search search_size listed world option
    pub deletes :
        (world : World) (message : Envelope)
        → expired (ditto.send world message)
          ≡ keep (λ thing. not (str_eq message.topic (delete_topic thing))) (expired world)

  module _ (serving : IsServing) where
    swept-others :
        (ids : List String) (world : World)
        → expired (swept (expired_things ditto search_size) ditto.send ids world)
          ≡ keep (others ids) (expired world)
    unfolding send_all
    swept-others [] world = sym (keep-all (expired world))
    swept-others (id ∷ ids) world =
        swept-others ids (ditto.send world (delete_message id))
        ∙ ap (keep (others ids)) (serving.deletes world (delete_message id))
        ∙ keep-keep (others ids) (λ thing. not (str_eq (delete_topic id) (delete_topic thing)))
            (expired world)
        ∙ keep_congr
            (λ thing. others ids thing && not (str_eq (delete_topic id) (delete_topic thing)))
            (others (id ∷ ids)) (expired world) (λ thing. ground arith)

    -- The end of the loop: it closes, and at most five of the expired things are left, no other than
    -- those that were there.
    record HasCleared (all : List String) (end : Ended × World) : Type 0 where
      left : World
      spared : String → Bool
      ended : end ≡ (closed, left)
      few : length (expired left) ≤ 5
      theirs : expired left ≡ keep spared all

    main_loop-HasCleared :
        (fuel : ℕ) (world : World)
        → length (expired world) < fuel
        → HasCleared
            (expired world)
            (main_loop (expired_things ditto search_size) ditto.send fuel world)
    main_loop-HasCleared zero world fed = absurd (omega arith)
    main_loop-HasCleared (suc fuel) world fed =
        let h =
          get_things_expired_lt-HasFound ditto.search search_size listed search_limit serving.pages
            world in
        let answer : expired_things ditto search_size world ≡ (some h.ids, h.after) =
          ap found h.ended in
        let same : expired h.after ≡ expired world = h.kept (option_of search_size none) in
        elim (Bool-cases (leb (length h.ids) 5)) [
          | inl few ↦ record {
            left = h.after;
            spared = λ thing. true;
            ended =
                main_loop-few (expired_things ditto search_size) ditto.send fuel world h.after h.ids
                  answer (ground arith);
            few = rw same (whole h.ids h.rest (expired world) h.split h.complete (ground arith));
            theirs = same ∙ sym (keep-all (expired world));
          }
          | inr many ↦
              let next : World =
                swept (expired_things ditto search_size) ditto.send h.ids h.after in
              let remain : expired next ≡ keep (others h.ids) (expired world) =
                swept-others h.ids h.after ∙ ap (keep (others h.ids)) same in
              let fewer : length (expired next) < length (expired world) =
                rw (remain, h.split) (others-length h.ids h.rest (ground arith)) in
              let later = main_loop-HasCleared fuel next (omega arith) in
              record {
                left = later.left;
                spared = λ thing. later.spared thing && others h.ids thing;
                ended =
                    main_loop-many (expired_things ditto search_size) ditto.send fuel world h.after
                      h.ids answer (ground arith)
                    ∙ later.ended;
                few = later.few;
                theirs =
                    later.theirs
                    ∙ ap (keep later.spared) remain
                    ∙ keep-keep later.spared (others h.ids) (expired world);
              }
        ]

    -- The collector's program ends by itself and closes its websocket, once its fuel of rounds exceeds
    -- the number of expired things, and at most five of them are then left: if it can connect, Ditto
    -- answers each request of the search with a page of its list of expired things, and each
    -- message takes the things that its topic names, and no others, out of that list (IsServing). Nothing that was not
    -- listed as expired is ever among the things left.
    pub main-HasCleared :
        (fuel : ℕ) (world connected : World)
        → ditto.connect world ≡ (true, connected)
        → length (expired connected) < fuel
        → (left : World) × (main ditto search_size fuel world ≡ (closed, ditto.close left))
          × (length (expired left) ≤ 5)
          × (spared : String → Bool) × (expired left ≡ keep spared (expired connected))
    unfolding main
    main-HasCleared fuel world connected open_now fed =
        let h = main_loop-HasCleared fuel connected fed in
        (
          h.left,
          ap (begin ditto search_size fuel) open_now ∙ ap (finish ditto search_size) h.ended,
          h.few,
          h.spared,
          h.theirs,
        )
