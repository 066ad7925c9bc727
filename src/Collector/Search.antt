-- ===== src/Collector/Search.antt =====
-- The termination and the bound of the collector's paged search.
pub mod Listing
use dt4mob_platform.Prelude.{
  ℕ, zero, suc, ◌+◌, ◌≤◌, ◌<◌, ltb, ◌≡◌, refl, ap, Option, none, some, List, [], ◌∷◌, ◌++◌, length,
  length-append, ◌⊎◌, inl, inr, Bool-cases, arith,
}
use dt4mob_platform.Prelude.Text.{String, lookup}
use dt4mob_platform.Collector.{
  SearchResponse, cons_id, thing_ids, items_of, Found, things, raised, option_of, page, extend,
  turn, search_loop, get_things_expired_lt,
}

-- A page with a cursor, which tells that there are more things, has a thing.
abbrev HasMore : Option String → List (List (String × String)) → Type 0
HasMore none items = Unit {0}
HasMore (some cursor) items = 0 < length items

-- What Ditto's search promises of a page: no more things than asked for, and at least one if it has a
-- cursor.
abbrev pub IsPage : ℕ → Option SearchResponse → Type 0
IsPage size none = Unit {0}
IsPage size (some response) =
    (length (items_of response) ≤ size) × HasMore response.cursor (items_of response)

cons_id-length :
    (id : Option String) (rest : Option (List String)) (n : ℕ) {ids : List String}
    → ((found : List String) → rest ≡ some found → length found ≡ n)
    → cons_id id rest ≡ some ids
    → length ids ≡ suc n
cons_id-length none rest n h e = cc e
cons_id-length (some id) none n h e = cc e
cons_id-length (some id) (some found) n {ids} h e =
    let same : id ∷ found ≡ ids = cc e in rw (← same) (ap suc (h found refl))

thing_ids-length :
    (items : List (List (String × String))) (ids : List String)
    → thing_ids items ≡ some ids
    → length ids ≡ length items
unfolding thing_ids
thing_ids-length [] ids e = let same : [] ≡ ids = cc e in rw (← same) refl
thing_ids-length (thing ∷ items) ids e =
    cons_id-length (lookup "thingId" thing) (thing_ids items) (length items)
      (thing_ids-length items) e

module _ {World : Type 0} (search : World → String → Option SearchResponse × World)
    (search_size : String) (limit size : ℕ)
    (paged : (world : World) (option : String) → IsPage size (search world option).0) where
  -- The search is over: it raised an exception, or has fewer things than the limit and a page.
  abbrev pub IsOver : Found × World → Type 0
  IsOver end =
      (end.0 ≡ raised) ⊎ ((ids : List String) × (end.0 ≡ things ids) × (length ids < limit + size))

  turn-IsOver :
      (fuel : ℕ) (cursor : Option String) (ids more : List String)
      (items : List (List (String × String))) (world : World)
      → length more ≡ length items
      → length ids < limit
      → limit < suc fuel + length ids
      → (length items ≤ size) × HasMore cursor items
      → ((c : String) (is : List String) (w : World)
          → limit < fuel + length is
          → length is < limit + size
          → 0 < fuel
          → IsOver (search_loop search search_size limit fuel (some c) is w))
      → IsOver (
          turn search search_size limit
            (λ c is w. search_loop search search_size limit fuel (some c) is w)
            cursor
            (ids ++ more)
            world)
  unfolding turn
  turn-IsOver fuel none ids more items world same room fed (few, some_more) ih =
      inr (ids ++ more, refl, omega (arith, length-append ids more))
  turn-IsOver fuel (some c) ids more items world same room fed (few, some_more) ih =
      ih c (ids ++ more) world (omega (arith, length-append ids more))
        (omega (arith, length-append ids more)) (omega arith)

  extend-IsOver :
      (fuel : ℕ) (cursor : Option String) (ids : List String)
      (items : List (List (String × String))) (found : Option (List String)) (world : World)
      → thing_ids items ≡ found
      → length ids < limit
      → limit < suc fuel + length ids
      → (length items ≤ size) × HasMore cursor items
      → ((c : String) (is : List String) (w : World)
          → limit < fuel + length is
          → length is < limit + size
          → 0 < fuel
          → IsOver (search_loop search search_size limit fuel (some c) is w))
      → IsOver (
          extend search search_size limit
            (λ c is w. search_loop search search_size limit fuel (some c) is w)
            cursor
            ids
            found
            world)
  unfolding extend
  extend-IsOver fuel cursor ids items none world e room fed ok ih = inl refl
  extend-IsOver fuel cursor ids items (some more) world e room fed ok ih =
      turn-IsOver fuel cursor ids more items world (thing_ids-length items more e) room fed ok ih

  page-IsOver :
      (fuel : ℕ) (ids : List String) (reply : Option SearchResponse × World)
      → IsPage size reply.0
      → length ids < limit
      → limit < suc fuel + length ids
      → ((c : String) (is : List String) (w : World)
          → limit < fuel + length is
          → length is < limit + size
          → 0 < fuel
          → IsOver (search_loop search search_size limit fuel (some c) is w))
      → IsOver (
          page search search_size limit
            (λ c is w. search_loop search search_size limit fuel (some c) is w)
            ids
            reply)
  unfolding page
  page-IsOver fuel ids (none, world) ok room fed ih = inl refl
  page-IsOver fuel ids (some response, world) ok room fed ih =
      extend-IsOver fuel response.cursor ids (items_of response) _ world refl room fed ok ih

  search_loop-IsOver :
      (fuel : ℕ) (cursor : Option String) (ids : List String) (world : World)
      → limit < fuel + length ids
      → length ids < limit + size
      → 0 < fuel
      → IsOver (search_loop search search_size limit fuel cursor ids world)
  unfolding search_loop
  search_loop-IsOver zero cursor ids world fed small burning = absurd (omega arith)
  search_loop-IsOver (suc fuel) cursor ids world fed small burning =
      elim (Bool-cases (ltb (length ids) limit)) [
        | inl room ↦
            rw (search_loop, room)
              (page-IsOver fuel ids (search world (option_of search_size cursor)) (paged world _)
                (ground arith) fed (λ c is w. search_loop-IsOver fuel (some c) is w))
        | inr full ↦ rw (search_loop, full) (inr (ids, refl, small))
      ]

  -- The search for expired things ends, with an exception or with fewer things than its limit and a
  -- page: if each page has at most `size` things, and at least one when it names a next page. The
  -- limit of pages that the loop is run with is never what ends it.
  pub get_things_expired_lt-IsOver :
      (world : World) → 0 < size → IsOver (get_things_expired_lt search search_size limit world)
  unfolding get_things_expired_lt
  get_things_expired_lt-IsOver world wide =
      search_loop-IsOver (suc limit) none [] world (omega arith) (omega arith) (omega arith)
