-- ===== src/Collector/Search/Listing.antt =====
-- What the collector's paged search finds, over a search that lists the expired things page by page.
use dt4mob_platform.Prelude.{
  ℕ, zero, suc, ◌+◌, ◌≤◌, ◌<◌, ltb, ◌≡◌, refl, sym, ap, ◌∙◌, Option, none, some, List, [], ◌++◌,
  length, length-append, append_assoc, append-nil, ◌⊎◌, inl, inr, Bool-cases, arith,
}
use dt4mob_platform.Prelude.Text.{String}
use dt4mob_platform.Collector.{
  SearchResponse, thing_ids, items_of, Found, things, option_of, page, extend, turn, search_loop,
  get_things_expired_lt,
}

module _ {World : Type 0} (search : World → String → Option SearchResponse × World)
    (search_size : String) (listed : World → String → List String) where
  -- What follows a page's things in the list that the request asked for: nothing without a cursor, or
  -- else the list of the request with that cursor. A page with a cursor has a thing.
  abbrev Follows : World → String → List String → Option String → Type 0
  Follows world option ids none = listed world option ≡ ids
  Follows world option ids (some cursor) =
      (listed world option ≡ ids ++ listed world (option_of search_size (some cursor)))
      × (0 < length ids)

  -- A request is answered by a page of the things that its option lists, and changes no list.
  pub record IsPageOf (world : World) (option : String) : Type 0 where
    pub response : SearchResponse
    pub after : World
    pub ids : List String
    pub answered : search world option ≡ (some response, after)
    pub read : thing_ids (items_of response) ≡ some ids
    pub follows : Follows world option ids response.cursor
    pub kept : (other : String) → listed after other ≡ listed world other

  module _ (limit : ℕ) (pages : (world : World) (option : String) → IsPageOf world option) where
    -- The search returned the first of all things, and all of them if it stopped below its limit.
    pub record HasFound (all : List String) (world : World) (end : Found × World) : Type 0 where
      pub ids : List String
      pub rest : List String
      pub after : World
      pub ended : end ≡ (things ids, after)
      pub split : all ≡ ids ++ rest
      pub complete : (rest ≡ []) ⊎ (limit ≤ length ids)
      pub kept : (other : String) → listed after other ≡ listed world other

    abbrev loop : ℕ → Option String → List String → World → Found × World
    loop = search_loop search search_size limit

    full :
        (all ids rest : List String) (world : World)
        → all ≡ ids ++ rest
        → limit ≤ length ids
        → HasFound all world (things ids, world)
    full all ids rest world split enough = record {
      ids = ids;
      rest = rest;
      after = world;
      ended = refl;
      split = split;
      complete = inr enough;
      kept = λ other. refl;
    }

    turn-HasFound :
        (fuel : ℕ) (cursor : Option String) (option : String) (ids more all : List String)
        (world w : World)
        → all ≡ ids ++ listed world option
        → Follows world option more cursor
        → ((other : String) → listed w other ≡ listed world other)
        → ((c : String)
            → all ≡ (ids ++ more) ++ listed w (option_of search_size (some c))
            → 0 < length more
            → HasFound all w (loop fuel (some c) (ids ++ more) w))
        → HasFound all world (
            turn search search_size limit
              (λ c is v. loop fuel (some c) is v)
              cursor
              (ids ++ more)
              w)
    unfolding turn
    turn-HasFound fuel none option ids more all world w whole follows kept ih = record {
      ids = ids ++ more;
      rest = [];
      after = w;
      ended = refl;
      split = whole ∙ ap (λ l. ids ++ l) follows ∙ sym (append-nil (ids ++ more));
      complete = inl refl;
      kept = kept;
    }
    turn-HasFound fuel (some c) option ids more all world w whole (follows, some_more) kept ih =
        let later =
          ih c
            (whole
              ∙ ap (λ l. ids ++ l)
                  (follows ∙ ap (λ l. more ++ l) (sym (kept (option_of search_size (some c)))))
              ∙ sym (append_assoc ids more (listed w (option_of search_size (some c)))))
            some_more in
        record {
          ids = later.ids;
          rest = later.rest;
          after = later.after;
          ended = later.ended;
          split = later.split;
          complete = later.complete;
          kept = λ other. later.kept other ∙ kept other;
        }

    search_loop-HasFound :
        (fuel : ℕ) (cursor : Option String) (ids all : List String) (world : World)
        → all ≡ ids ++ listed world (option_of search_size cursor)
        → limit < fuel + length ids
        → 0 < fuel
        → HasFound all world (loop fuel cursor ids world)
    unfolding search_loop page extend
    search_loop-HasFound zero cursor ids all world whole fed burning = absurd (omega arith)
    search_loop-HasFound (suc fuel) cursor ids all world whole fed burning =
        elim (Bool-cases (ltb (length ids) limit)) [
          | inr enough ↦ rw (search_loop, enough) (full all ids _ world whole (ground arith))
          | inl room ↦
              let p = pages world (option_of search_size cursor) in
              rw (search_loop, room, p.answered, p.read)
                (turn-HasFound fuel p.response.cursor (option_of search_size cursor) ids p.ids all
                  world p.after whole p.follows p.kept
                  (λ c split some_more.
                    search_loop-HasFound fuel (some c) (ids ++ p.ids) all p.after split
                      (omega (arith, length-append ids p.ids)) (ground arith)))
        ]

    -- The search for expired things ends with the first of the things that Ditto lists, in Ditto's
    -- order: with all of them, or with as many as its limit.
    pub get_things_expired_lt-HasFound :
        (world : World)
        → HasFound
            (listed world (option_of search_size none))
            world
            (get_things_expired_lt search search_size limit world)
    unfolding get_things_expired_lt
    get_things_expired_lt-HasFound world =
        search_loop-HasFound (suc limit) none [] (listed world (option_of search_size none)) world
          refl (omega arith) (omega arith)
