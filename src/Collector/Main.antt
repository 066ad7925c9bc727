-- ===== src/Collector/Main.antt =====
-- The whole program of services/dt4mob-garbage-collector/main.py: the connection, the searches and
-- deletions, and the close.
pub mod Clears
mod Tests
use dt4mob_platform.Prelude.{ℕ, Bool, true, false, Option, none, some, List}
use dt4mob_platform.Prelude.Text.{String}
use dt4mob_platform.Collector.{
  SearchResponse, Found, things, raised, out_of_fuel, get_things_expired_lt,
}
use dt4mob_platform.Collector.Sweep.{Envelope, Ended, closed, crashed, at_work, main_loop}

-- The default of `limit`.
abbrev pub search_limit : ℕ
search_limit = 500

-- The search as its caller sees it; the fuel is never what ends it.
abbrev pub found : {World : Type 0} → Found × World → Option (List String) × World
found (things ids, world) = (some ids, world)
found (raised, world) = (none, world)
found (out_of_fuel, world) = (none, world)

-- A connection of the websocket, which may raise, its close, a request of the search, and the exchange
-- of a message.
pub record Ditto (World : Type 0) : Type 0 where
  pub connect : World → Bool × World
  pub close : World → World
  pub search : World → String → Option SearchResponse × World
  pub send : World → Envelope → World

module _ {World : Type 0} (ditto : Ditto World) (search_size : String) where
  abbrev pub expired_things : World → Option (List String) × World
  expired_things world = found (get_things_expired_lt ditto.search search_size search_limit world)

  abbrev pub finish : Ended × World → Ended × World
  finish (closed, world) = (closed, ditto.close world)
  finish (crashed, world) = (crashed, world)
  finish (at_work, world) = (at_work, world)

  abbrev pub begin : ℕ → Bool × World → Ended × World
  begin fuel (true, world) = finish (main_loop expired_things ditto.send fuel world)
  begin fuel (false, world) = (crashed, world)

  -- `main`, with a fuel of rounds.
  pub main : ℕ → World → Ended × World
  main fuel world = begin fuel (ditto.connect world)
