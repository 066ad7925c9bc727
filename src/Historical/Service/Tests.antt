-- ===== src/Historical/Service/Tests.antt =====
-- The methods of EventsService, run on a table of three events.
use mathlib.Core.List.{Perm, flat_map}
use dt4mob_platform.Prelude.{◌≡◌, ◌⊎◌, true, false, ℕ, refl, none, some, List, [], ◌∷◌}
use dt4mob_platform.Prelude.Text.{String}
use dt4mob_platform.Prelude.Text.Prefix.{cut_prefix}
use dt4mob_platform.Json.{Json}
use dt4mob_platform.Historical.Event.{Action, modified, create, DittoEvent}
use dt4mob_platform.Historical.Store.{IsNewestFirst}
use dt4mob_platform.Historical.Sample.{memory, memory-IsSql}
use dt4mob_platform.Historical.Service.{Bucket, get_events, delete_events, get_jsonpath_projection}
use dt4mob_platform.Historical.Service.Events.{get_events-perm}
use dt4mob_platform.Historical.Service.Deletion.{delete_events-get}
use dt4mob_platform.Historical.Service.Projection.{
  get_jsonpath_projection-perm, projected, readable,
}
use dt4mob_platform.Historical.Store.{IsNewestFirst, found_in}
use dt4mob_platform.Json.{Json}

abbrev event : ℕ → String → Action → String → DittoEvent
event time thing_id action path = record {
  time = time;
  thing_id = thing_id;
  action = action;
  revision = some 1;
  path = path;
  value = Json.null;
}

abbrev first : DittoEvent
first = event 10 "org:car" create "/"

abbrev second : DittoEvent
second = event 20 "org:bus" modified "/features/gps"

abbrev third : DittoEvent
third = event 30 "org:car" modified "/features/gps"

abbrev three : List DittoEvent
three = first ∷ second ∷ third ∷ []

get_events-perm_example :
    Perm
      (get_events memory 25 10 (some 30) (some "org:c") none none none three)
      (first ∷ third ∷ [])
    × IsNewestFirst (get_events memory 25 10 (some 30) (some "org:c") none none none three)
unfolding cut_prefix memory
get_events-perm_example =
    get_events-perm memory memory-IsSql 25 10 (some 30) (some "org:c") none none none three refl
      refl

delete_events-get_example :
    Perm
      (get_events memory 25 0
        (some 40)
        none
        none
        none
        none
        (delete_events memory 25 "org:car" 10 20 three).1)
      (third ∷ second ∷ [])
    × IsNewestFirst (
        get_events memory 25 0
          (some 40)
          none
          none
          none
          none
          (delete_events memory 25 "org:car" 10 20 three).1)
    × IsNewestFirst (get_events memory 25 0 (some 40) none none none none three)
unfolding memory get_events
delete_events-get_example =
    delete_events-get memory memory-IsSql 25 "org:car" 10 20 0 (some 40) none none none none three

get_jsonpath_projection-perm_example :
    ((readable memory memory-IsSql 25 "$"
          (projected memory memory-IsSql 25 "org:car" 10 (some "/f") (some 30) three)
        ≡ true)
      × (found : List Json) × (get_jsonpath_projection memory 25 "$" "org:car" 10
            (some "/f")
            (some 30)
            three
          ≡ some found)
      × Perm found (
          flat_map
            (found_in memory.json_path_query "$")
            (projected memory memory-IsSql 25 "org:car" 10 (some "/f") (some 30) three)))
    ⊎ ((readable memory memory-IsSql 25 "$"
            (projected memory memory-IsSql 25 "org:car" 10 (some "/f") (some 30) three)
          ≡ false)
        × (get_jsonpath_projection memory 25 "$" "org:car" 10 (some "/f") (some 30) three ≡ none))
unfolding cut_prefix
get_jsonpath_projection-perm_example =
    get_jsonpath_projection-perm memory memory-IsSql 25 "$" "org:car" 10 (some "/f") (some 30) three
      refl

abbrev one_bucket : List Bucket
one_bucket = record { path = none; bucket = "1970-01-01T00:00:00"; value = none } ∷ []
