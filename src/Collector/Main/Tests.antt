-- ===== src/Collector/Main/Tests.antt =====
-- The collector against a sample Ditto, whose first page has one thing and whose second has the rest.
use dt4mob_platform.Prelude.{
  ◌≤◌, ◌≡◌, refl, ap, Bool, true, not, none, some, List, [], ◌∷◌, map, length, keep, arith,
  Bool-cases, inl, inr, if◌then◌else◌,
}
use dt4mob_platform.Prelude.Text.{String, ◌==◌}
use dt4mob_platform.Collector.{SearchResponse, cons_id, thing_ids, option_of, delete_topic}
use dt4mob_platform.Collector.Search.Listing.{IsPageOf}
use dt4mob_platform.Collector.Sweep.{closed}
use dt4mob_platform.Collector.Main.{Ditto, main}
use dt4mob_platform.Collector.Main.Clears.{IsServing, main-HasCleared}

abbrev item : String → List (String × String)
item thing = ("thingId", thing) ∷ []

items : (things : List String) → thing_ids (map item things) ≡ some things
unfolding thing_ids
items [] = refl
items (thing ∷ things) = ap (cons_id (some thing)) (items things)

abbrev first_page : List String → SearchResponse
first_page [] = record { items = none; cursor = none }
first_page (thing ∷ things) = record { items = some (item thing ∷ []); cursor = some "rest" }

abbrev later_things : List String → List String
later_things [] = []
later_things (thing ∷ things) = things

abbrev last_page : List String → SearchResponse
last_page things = record { items = some (map item (later_things things)); cursor = none }

abbrev empty_page : SearchResponse
empty_page = record { items = none; cursor = none }

abbrev listed : List String → String → List String
listed things option =
    if option == "size(1)"
    then things
    else (if option == "size(1),cursor(rest)" then later_things things else [])

abbrev page : List String → String → SearchResponse
page things option =
    if option == "size(1)"
    then first_page things
    else (if option == "size(1),cursor(rest)" then last_page things else empty_page)

abbrev ditto : Ditto (List String)
ditto = record {
  connect = λ things. (true, things);
  close = λ things. things;
  search = λ things option. (some (page things option), things);
  send = λ things envelope. keep (λ thing. not (envelope.topic == delete_topic thing)) things;
}

first-IsPageOf :
    (things : List String) (option : String)
    → (option == "size(1)") ≡ true
    → IsPageOf ditto.search "1" listed things option
unfolding option_of
first-IsPageOf [] option first = record {
  response = empty_page;
  after = [];
  ids = [];
  answered = rw first refl;
  read = items [];
  follows = rw first refl;
  kept = λ o. refl;
}
first-IsPageOf (thing ∷ things) option first = record {
  response = first_page (thing ∷ things);
  after = thing ∷ things;
  ids = thing ∷ [];
  answered = rw first refl;
  read = items (thing ∷ []);
  follows = (rw first refl, omega arith);
  kept = λ o. refl;
}

page-IsPageOf :
    (things : List String) (option : String) → IsPageOf ditto.search "1" listed things option
page-IsPageOf things option = elim (Bool-cases (option == "size(1)")) [
  | inl first ↦ first-IsPageOf things option first
  | inr other ↦ elim (Bool-cases (option == "size(1),cursor(rest)")) [
    | inl second ↦ record {
      response = last_page things;
      after = things;
      ids = later_things things;
      answered = rw (other, second) refl;
      read = items (later_things things);
      follows = rw (other, second) refl;
      kept = λ o. refl;
    }
    | inr neither ↦ record {
      response = empty_page;
      after = things;
      ids = [];
      answered = rw (other, neither) refl;
      read = items [];
      follows = rw (other, neither) refl;
      kept = λ o. refl;
    }
  ]
]

ditto-IsServing : IsServing ditto "1" listed
unfolding option_of
ditto-IsServing = record { pages = page-IsPageOf; deletes = λ things message. refl }

abbrev expired_at_start : List String
expired_at_start = "org:a" ∷ "org:b" ∷ "org:c" ∷ "org:d" ∷ "org:e" ∷ "org:f" ∷ "org:g" ∷ []

main-HasCleared_example :
    (left : List String) × (main ditto "1" 8 expired_at_start ≡ (closed, left))
    × (length (listed left (option_of "1" none)) ≤ 5)
    × (spared : String → Bool) × (listed left (option_of "1" none)
        ≡ keep spared (listed expired_at_start (option_of "1" none)))
unfolding option_of
main-HasCleared_example =
    main-HasCleared ditto "1" listed ditto-IsServing 8 expired_at_start expired_at_start refl
      (omega arith)
