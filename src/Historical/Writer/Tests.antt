-- ===== src/Historical/Writer/Tests.antt =====
-- The writer's loop on three polls, with batches of two, and a message of Ditto.
use dt4mob_platform.Prelude.{
  ℕ, ◌+◌, ◌<◌, ◌≡◌, refl, Option, none, some, List, [], ◌∷◌, ◌++◌, ◌⊎◌, arith, if◌then◌else◌,
}
use dt4mob_platform.Prelude.Text.{String, ◌==◌}
use dt4mob_platform.Json.{num, str, obj, end}
use dt4mob_platform.Historical.Event.{modified}
use dt4mob_platform.Historical.Writer.{
  Polled, nothing, message, Consumer, round, consume, parse_message,
}
use dt4mob_platform.Historical.Writer.Batches.{IsHanded, consume-IsHanded, round-punctual}
use dt4mob_platform.Historical.Writer.Topic.{twin_message, parse_message-twin}

-- Messages are their own events, but for "bad", which does not parse.
abbrev parse : String → Option String
parse text = if text == "bad" then none else some text

abbrev commit : List String → List String → Option (List String)
commit events table = some (table ++ events)

abbrev fresh : Consumer String
fresh = record { batch = []; last_flush_time = 0 }

abbrev polls : List (Polled String × ℕ)
polls =
    (message (some "a"), 1)
    ∷ (message (some "bad"), 2)
    ∷ (message (some "b"), 3)
    ∷ (message (some "c"), 4)
    ∷ []

consume-IsHanded_example :
    IsHanded parse commit 2 5 ("a" ∷ "b" ∷ "c" ∷ []) [] (consume parse commit 2 5 polls fresh [])
consume-IsHanded_example = consume-IsHanded parse commit 2 5 polls fresh [] (omega arith)

round-punctual_example :
    ((round parse commit 2 5 nothing 9 fresh []).0.batch ≡ [])
    ⊎ (9 < (round parse commit 2 5 nothing 9 fresh []).0.last_flush_time + 5)
round-punctual_example = round-punctual parse commit 2 5 nothing 9 fresh [] (omega arith)

abbrev never : String → Option String
never text = none

parse_message-twin_example :
    parse_message never (twin_message "org" "car" modified (str "t") (str "/") (num "7") (obj end))
    ≡ some (record {
      time = str "t";
      thing_id = "org:car";
      action = modified;
      revision = num "7";
      path = str "/";
      value = obj end;
    })
parse_message-twin_example =
    parse_message-twin never "org" "car" modified (str "t") (str "/") (num "7") (obj end) refl refl
