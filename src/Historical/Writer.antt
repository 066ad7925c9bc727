-- ===== src/Historical/Writer.antt =====
-- services/dt4mob-historical-writer: the parsing of Ditto's messages, and the consumer that gathers
-- them in batches for the database.
pub mod Batches
pub mod Topic
pub mod Tests
use Prim.Native.Char.{Char, code}
use Prim.Native.String.{◌++◌ as ◌<>◌}
use dt4mob_platform.Prelude.{
  ℕ, zero, suc, ◌+◌, leb, Bool, true, false, ◌&&◌, ◌||◌, not, Option, none, some, List, [], ◌∷◌,
  ◌++◌, ◌==◌, length, is_empty, if◌then◌else◌,
}
use dt4mob_platform.Prelude.Chain.{◌>>=◌}
use dt4mob_platform.Prelude.Text.{String, lookup, ◌==◌ as str_eq}
use dt4mob_platform.Prelude.Text.Split.{split_on}
use dt4mob_platform.Json.{Json, get, Fields, null, obj, str, end, entries}
use dt4mob_platform.Historical.Event.{Action, parse_action}

-- src/models/ditto_events.py: a table model of SQLModel, which checks no field, so the fields keep
-- what the message has. The column `index`, which the database counts, is left out.
pub record DittoEvent : Type 0 where
  pub time : Json
  pub thing_id : String
  pub action : Action
  pub revision : Json
  pub path : Json
  pub value : Json

-- `msg[key]`; `none` is the KeyError, or the TypeError of a value that is no dictionary.
abbrev pub item : String → Json → Option Json
item key (obj fields) = lookup key (entries fields)
item key _ = none

-- `value.split`, which only a text has.
abbrev text_of : Json → Option String
text_of (str s) = some s
text_of _ = none

-- `parts[n]`; `none` is the IndexError.
abbrev pub nth : ℕ → List String → Option String
nth n [] = none
nth zero (part ∷ parts) = some part
nth (suc n) (part ∷ parts) = nth n parts

-- `text.replace("Z", "+00:00")`
unfoldable pub replace_z : String → String
replace_z String.[] = ""
replace_z (String.◌∷◌ c s) =
    let rest = replace_z s in if code c == 90 then "+00:00" <> rest else String.◌∷◌ c rest

module _ (from_isoformat : String → Option String) where
  -- The time that the header gives: `none` where it is missing, empty, no text or malformed. The
  -- parameter is `datetime.fromisoformat(…).isoformat()`, with `none` for its ValueError.
  override_time : Json → Option String
  override_time (str s) = if str_eq s "" then none else from_isoformat (replace_z s)
  override_time _ = none

  -- `if not event_time: event_time = msg["timestamp"]`
  event_time : Option String → Json → Option Json
  event_time none msg = item "timestamp" msg
  event_time (some time) msg = if str_eq time "" then item "timestamp" msg else some (str time)

  -- `none` is any exception: the consumer logs them all and goes on.
  unfoldable pub parse_message : Json → Option DittoEvent
  unfolding override_time event_time
  parse_message msg = do
    topic ← item "topic" msg
    topic_text ← text_of topic
    let topic_processed = split_on b'/' topic_text
    headers ← get "headers" (obj end) msg
    override ← get "dt4mob-historic-timestamp-override" null headers
    time ← event_time (override_time override) msg
    namespace ← nth 0 topic_processed
    name ← nth 1 topic_processed
    action_text ← nth 5 topic_processed
    action ← parse_action action_text
    path ← item "path" msg
    revision ← item "revision" msg
    value ← get "value" (obj end) msg
    some (record {
      time = time;
      thing_id = namespace <> ":" <> name;
      action = action;
      revision = revision;
      path = path;
      value = value;
    })

-- What `poll` returns: nothing in time, a message with an error, or one with its bytes, if any.
pub data Polled (Bytes : Type 0) : Type 0 where
  nothing : Polled Bytes
  with_error : Polled Bytes
  message : Option Bytes → Polled Bytes

-- The variables of `consume`; a time counts the clock's smallest steps.
pub record Consumer (Event : Type 0) : Type 0 where
  pub batch : List Event
  pub last_flush_time : ℕ

abbrev pub parsed : {Bytes Event : Type 0} → (Bytes → Option Event) → Polled Bytes → Option Event
parsed parse nothing = none
parsed parse with_error = none
parsed parse (message none) = none
parsed parse (message (some bytes)) = parse bytes

-- `batch.append(event)`
abbrev pub append : {Event : Type 0} → List Event → Option Event → List Event
append batch none = batch
append batch (some event) = batch ++ (event ∷ [])

-- Whether the batch is flushed: it is not empty, and full or overdue.
abbrev pub is_due : {Event : Type 0} → ℕ → ℕ → ℕ → Consumer Event → Bool
is_due batch_size batch_timeout now c =
    not (is_empty c.batch)
    && (leb batch_size (length c.batch) || leb (c.last_flush_time + batch_timeout) now)

abbrev kept : {World : Type 0} → World → Option World → World
kept world none = world
kept world (some stored) = stored

-- DittoEventsManager.write_batch inside the `try` of `consume`: a failing commit is rolled back and
-- its exception logged.
abbrev pub write_batch :
    {Event World : Type 0} → (List Event → World → Option World) → List Event → World → World
write_batch commit events world = kept world (commit events world)

module _ {Bytes Event World : Type 0} (parse : Bytes → Option Event)
    (commit : List Event → World → Option World) (batch_size batch_timeout : ℕ) where
  pub flush : ℕ → Consumer Event → World → Consumer Event × World
  flush now c world =
      if is_due batch_size batch_timeout now c
      then (record { batch = []; last_flush_time = now }, write_batch commit c.batch world)
      else (c, world)

  -- One round of the loop: what it polls, and the time it reads after.
  pub round : Polled Bytes → ℕ → Consumer Event → World → Consumer Event × World
  unfolding flush
  round polled now c world =
      flush now (record c { batch = append c.batch (parsed parse polled) }) world

  -- The rounds until the KeyboardInterrupt, which leaves the last batch unwritten.
  pub consume : List (Polled Bytes × ℕ) → Consumer Event → World → Consumer Event × World
  consume [] c world = (c, world)
  consume ((polled, now) ∷ rounds) c world =
      let next = round polled now c world in consume rounds next.0 next.1
