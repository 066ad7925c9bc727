-- ===== src/Historical/Event.antt =====
-- app/models/util.py, app/models/ditto_events.py and app/models/paths_response.py of
-- services/dt4mob-historical-api; the writer has the same `Action` in src/models/ditto_events.py.
use dt4mob_platform.Prelude.{ℕ, Bool, true, false, Option, none, some, if◌then◌else◌}
use dt4mob_platform.Prelude.Text.{String, ◌==◌}
use dt4mob_platform.Json.{Json}

pub data Action : Type 0 where
  modified create delete merged : Action

-- The value of an enumeration's member.
abbrev pub action_value : Action → String
action_value modified = "modified"
action_value create = "created"
action_value delete = "deleted"
action_value merged = "merged"

-- `Action(text)`; `none` is its ValueError.
unfoldable pub parse_action : String → Option Action
parse_action text =
    if text == "modified"
    then some modified
    else if text == "created"
    then some create
    else if text == "deleted"
    then some delete
    else if text == "merged"
    then some merged
    else none

abbrev pub same_action : Action → Action → Bool
same_action modified modified = true
same_action create create = true
same_action delete delete = true
same_action merged merged = true
same_action _ _ = false

-- A row of the event table. The time is an instant, as a number that grows with it; the column
-- `index`, which the database counts, is left out.
pub record DittoEvent : Type 0 where
  pub time : ℕ
  pub thing_id : String
  pub action : Action
  pub revision : Option ℕ
  pub path : String
  pub value : Json

pub record PathResponseObject : Type 0 where
  pub path : String
  pub action : Action
