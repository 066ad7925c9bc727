-- ===== src/Historical/Pipeline/Tests.antt =====
-- Two messages of Ditto, through the writer into the table and out of the API.
use mathlib.Core.List.{Perm}
use dt4mob_platform.Prelude.{
  ℕ, ◌<◌, ◌≡◌, refl, Option, none, some, List, [], ◌∷◌, ◌++◌, map, keep, length, arith,
}
use dt4mob_platform.Prelude.Text.{String}
use dt4mob_platform.Json.{Json, str, num, obj, end}
use dt4mob_platform.Historical.Event.{modified, create, DittoEvent}
use dt4mob_platform.Historical.Sample.{memory, memory-IsSql}
use dt4mob_platform.Historical.Store.{IsNewestFirst}
use dt4mob_platform.Historical.Service.{get_events}
use dt4mob_platform.Historical.Service.Events.{is_wanted}
use dt4mob_platform.Historical.Writer.{
  DittoEvent as Message, Polled, nothing, message, consume, parse_message,
}
use dt4mob_platform.Historical.Writer.Batches.{events_of}
use dt4mob_platform.Historical.Writer.Topic.{twin_message}
use dt4mob_platform.Historical.Pipeline.{commit_rows, consume-get}

-- The columns' types, as far as the messages below need them.
abbrev row : Message → DittoEvent
row m = record {
  time = 10;
  thing_id = m.thing_id;
  action = m.action;
  revision = some 1;
  path = "/";
  value = m.value;
}

accepts : (rows t : List DittoEvent) → (u : List DittoEvent) × (memory.insert_all rows t ≡ some u)
unfolding memory
accepts rows t = (rows ++ t, refl)

abbrev never : String → Option String
never text = none

abbrev parse : Json → Option Message
parse msg = parse_message never msg

abbrev rounds : List (Polled Json × ℕ)
rounds =
    (message (some (twin_message "org" "car" create (str "t") (str "/") (num "1") (obj end))), 1)
    ∷ (nothing, 2)
    ∷ (
      message (some (twin_message "org" "car" modified (str "t") (str "/") (num "2") (obj end))),
      3,
    )
    ∷ []

abbrev commit : List Message → List DittoEvent → Option (List DittoEvent)
commit = commit_rows memory memory-IsSql row accepts parse 2 5

consume-get_example :
    (written : List Message) × (waiting : List Message) × (written ++ waiting
      ≡ events_of parse commit 2 5 rounds)
    × (length waiting < 2)
    × Perm
        (get_events memory 25 0
          (some 20)
          none
          none
          (some create)
          none
          (consume parse commit 2 5 rounds (record { batch = []; last_flush_time = 0 }) []).1)
        (keep (is_wanted 0 20 none none (some create)) (map row written)
          ++ get_events memory 25 0 (some 20) none none (some create) none [])
    × IsNewestFirst (
        get_events memory 25 0
          (some 20)
          none
          none
          (some create)
          none
          (consume parse commit 2 5 rounds (record { batch = []; last_flush_time = 0 }) []).1)
consume-get_example =
    consume-get memory memory-IsSql row accepts parse 2 5 rounds 0 25 0 (some 20) none none
      (some create) [] (omega arith) refl refl
