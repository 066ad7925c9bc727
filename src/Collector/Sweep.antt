-- ===== src/Collector/Sweep.antt =====
-- main.py of services/dt4mob-garbage-collector, with get_expired_envelops of
-- src/services/garbage_collector/garbage_collector.py: it deletes what it finds, and looks again,
-- while it finds more than five things.
pub mod Ends
pub mod Tests
use dt4mob_platform.Prelude.{
  ℕ, zero, suc, ltb, Bool, true, false, Option, none, some, List, [], ◌∷◌, map, length,
  if◌then◌else◌,
}
use dt4mob_platform.Prelude.Text.{String}
use dt4mob_platform.Collector.{delete_topic}

-- The message that `delete_message` makes; its correlation id is drawn by uuid4.
pub record Envelope : Type 0 where
  pub topic : String
  pub path : String

abbrev pub delete_message : String → Envelope
delete_message thing = record { topic = delete_topic thing; path = "/" }

-- How the program ends: it closes the client, the search raises, or it is still at work.
pub data Ended : Type 0 where
  closed : Ended
  crashed : Ended
  at_work : Ended

module _ {World : Type 0} (search : World → Option (List String) × World)
    (send : World → Envelope → World) where
  -- GarbageCollector.get_expired_envelops
  envelops : Option (List String) × World → Option (List Envelope) × World
  envelops (none, world) = (none, world)
  envelops (some things, world) = (some (map delete_message things), world)

  pub get_expired_envelops : World → Option (List Envelope) × World
  unfolding envelops
  get_expired_envelops world = envelops (search world)

  -- The inner loop: an exception of one message is logged, and the next one is sent.
  unfoldable pub send_all : List Envelope → World → World
  send_all [] world = world
  send_all (envelop ∷ rest) world = send_all rest (send world envelop)

  after_search : (World → Ended × World) → Option (List Envelope) × World → Ended × World
  after_search next (none, world) = (crashed, world)
  after_search next (some found, world) =
      if ltb 5 (length found) then next (send_all found world) else (closed, world)

  -- `while len(envelops) > 5`, with the search in front of each round.
  pub main_loop : ℕ → World → Ended × World
  unfolding after_search
  main_loop zero world = (at_work, world)
  main_loop (suc fuel) world = after_search (λ w. main_loop fuel w) (get_expired_envelops world)
