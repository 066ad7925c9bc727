-- ===== src/Collector.antt =====
-- services/dt4mob-garbage-collector: the paged search for expired things of
-- src/services/ditto_api/ditto_api.py, and the deletion message of
-- src/services/envelope_formatter/ditto_thing/DittoProtocol.py.
pub mod Auth
pub mod Main
pub mod Search
pub mod Settings
pub mod Socket
pub mod Sweep
pub mod Topic
pub mod Tests
use Prim.Native.Char.{code}
use Prim.Native.String.{◌++◌ as ◌<>◌}
use dt4mob_platform.Prelude.{
  ℕ, zero, suc, ltb, Bool, Option, none, some, List, [], ◌∷◌, ◌++◌, ◌==◌, length, if◌then◌else◌,
}
use dt4mob_platform.Prelude.Text.{String, lookup}

-- src/models/ditto.py; an item has the fields that the request asks for.
pub record SearchResponse : Type 0 where
  pub items : Option (List (List (String × String)))
  pub cursor : Option String

-- `[thing["thingId"] for thing in items]`; `none` is the KeyError.
abbrev cons_id : Option String → Option (List String) → Option (List String)
cons_id none ids = none
cons_id (some id) none = none
cons_id (some id) (some ids) = some (id ∷ ids)

pub thing_ids : List (List (String × String)) → Option (List String)
thing_ids [] = some []
thing_ids (thing ∷ things) = cons_id (lookup "thingId" thing) (thing_ids things)

-- What `if data.items is not None` adds.
abbrev pub items_of : SearchResponse → List (List (String × String))
items_of response = elim response.items [ none ↦ [] | some items ↦ items ]

-- How the search ends: with things, with an exception, or not within the fuel.
pub data Found : Type 0 where
  things : List String → Found
  raised : Found
  out_of_fuel : Found

-- `params["option"]`
unfoldable pub option_of : String → Option String → String
option_of size none = "size(" <> size <> ")"
option_of size (some cursor) = "size(" <> size <> "),cursor(" <> cursor <> ")"

module _ {World : Type 0} (search : World → String → Option SearchResponse × World)
    (search_size : String) (limit : ℕ) where
  -- The rest of the loop's body, behind the items of the page.
  turn :
      (String → List String → World → Found × World)
      → Option String
      → List String
      → World
      → Found × World
  turn next none ids world = (things ids, world)
  turn next (some cursor) ids world = next cursor ids world

  extend :
      (String → List String → World → Found × World)
      → Option String
      → List String
      → Option (List String)
      → World
      → Found × World
  extend next cursor ids none world = (raised, world)
  extend next cursor ids (some more) world = turn next cursor (ids ++ more) world

  page :
      (String → List String → World → Found × World)
      → List String
      → Option SearchResponse × World
      → Found × World
  page next ids (none, world) = (raised, world)
  page next ids (some response, world) =
      extend next response.cursor ids (thing_ids (items_of response)) world

  -- The loop of get_things_expired_lt, whose search may fail with any exception.
  pub search_loop : ℕ → Option String → List String → World → Found × World
  unfolding page extend turn
  search_loop zero cursor ids world = (out_of_fuel, world)
  search_loop (suc fuel) cursor ids world =
      if ltb (length ids) limit
      then page (λ c more w. search_loop fuel (some c) more w) ids
          (search world (option_of search_size cursor))
      else (things ids, world)

  -- One page more than `limit` is fuel enough, since each page but the last has a thing.
  pub get_things_expired_lt : World → Found × World
  get_things_expired_lt world = search_loop (suc limit) none [] world

-- `text.replace(':', '/', 1)`
unfoldable pub replace_colon : String → String
replace_colon String.[] = ""
replace_colon (String.◌∷◌ c s) =
    let rest = replace_colon s in if code c == 58 then "/" <> s else String.◌∷◌ c rest

-- The topic of `delete_message`.
unfoldable pub delete_topic : String → String
delete_topic delete_thing_id = replace_colon delete_thing_id <> "/things/twin/commands/delete"
