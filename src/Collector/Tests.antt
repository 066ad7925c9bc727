-- ===== src/Collector/Tests.antt =====
-- The collector's search on two pages, and the topic of a deletion.
use dt4mob_platform.Prelude.{
  ℕ, ◌+◌, Option, none, some, [], ◌∷◌, arith, Bool-cases, inl, inr, if◌then◌else◌,
}
use dt4mob_platform.Prelude.Text.{String, ◌==◌}
use dt4mob_platform.Collector.{SearchResponse, get_things_expired_lt}
use dt4mob_platform.Collector.Search.{IsPage, IsOver, get_things_expired_lt-IsOver}

abbrev last_page : SearchResponse
last_page = record { items = none; cursor = none }

abbrev first_page : SearchResponse
first_page = record { items = some ((("thingId", "org:car") ∷ []) ∷ []); cursor = some "next" }

abbrev search : ℕ → String → Option SearchResponse × ℕ
search count option =
    if option == "size(1)" then (some first_page, count + 1) else (some last_page, count + 1)

search-IsPage : (count : ℕ) (option : String) → IsPage 1 (search count option).0
search-IsPage count option = elim (Bool-cases (option == "size(1)")) [
  | inl first ↦ rw first (omega arith, omega arith)
  | inr other ↦ rw other (omega arith, tt)
]

get_things_expired_lt-IsOver_example :
    IsOver search "1" 500 1 search-IsPage (get_things_expired_lt search "1" 500 0)
get_things_expired_lt-IsOver_example =
    get_things_expired_lt-IsOver search "1" 500 1 search-IsPage 0 (omega arith)
