-- ===== src/Historical/Writer/Topic.antt =====
-- How the writer reads the topic of Ditto's protocol.
use Prim.Native.Char.{code}
use Prim.Native.String.{String, [], ◌∷◌, ◌++◌}
use text.Mathlib.TextLemmas.{nil-append, cons-append}
use dt4mob_platform.Prelude.{◌≡◌, refl, Bool, true, ◌&&◌, not, Option, some, List, ◌==◌, arith}
use dt4mob_platform.Prelude.Text.Split.{split_on}
use dt4mob_platform.Json.{Json, obj, str, object}
use dt4mob_platform.Historical.Event.{
  Action, modified, create, delete, merged, action_value, parse_action,
}
use dt4mob_platform.Historical.Writer.{nth, parse_message}

-- A text without a slash.
abbrev pub is_segment : String → Bool
is_segment [] = true
is_segment (c ∷ s) = not (code c == 47) && is_segment s

split_on-slash : (rest : String) → split_on 47 ("/" ++ rest) ≡ List.◌∷◌ "" (split_on 47 rest)
unfolding split_on
split_on-slash rest = rw (cons-append, nil-append) refl

pub split_on-segment :
    (s rest : String)
    → is_segment s ≡ true
    → split_on 47 (s ++ ("/" ++ rest)) ≡ List.◌∷◌ s (split_on 47 rest)
unfolding split_on
split_on-segment [] rest h = rw nil-append (split_on-slash rest)
split_on-segment (c ∷ s) rest h = rw cons-append (ground (arith, split_on-segment s rest))

-- The topic of an event of Ditto's twin.
abbrev pub twin_topic : String → String → Action → String
twin_topic namespace name action =
    namespace ++ ("/" ++ (name ++ ("/" ++ ("things/twin/events/" ++ action_value action))))

split_on-topic :
    (namespace name : String) (action : Action)
    → is_segment namespace ≡ true
    → is_segment name ≡ true
    → split_on 47 (twin_topic namespace name action)
      ≡ List.◌∷◌ namespace
          (List.◌∷◌ name (split_on 47 ("things/twin/events/" ++ action_value action)))
split_on-topic namespace name action h k =
    rw (split_on-segment namespace _ h, split_on-segment name _ k) refl

-- The sixth part of the topic.
nth-action :
    (namespace name : String) (action : Action)
    → nth 5 (
        List.◌∷◌ namespace
          (List.◌∷◌ name (split_on 47 ("things/twin/events/" ++ action_value action))))
      ≡ some (action_value action)
unfolding split_on
nth-action namespace name modified = refl
nth-action namespace name create = refl
nth-action namespace name delete = refl
nth-action namespace name merged = refl

parse_action-value : (action : Action) → parse_action (action_value action) ≡ some action
unfolding parse_action
parse_action-value modified = refl
parse_action-value create = refl
parse_action-value delete = refl
parse_action-value merged = refl

-- A message of Ditto about an event of its twin.
abbrev pub twin_message : String → String → Action → Json → Json → Json → Json → Json
twin_message namespace name action time path revision value = obj (
    object (
      List.◌∷◌ ("topic", str (twin_topic namespace name action))
        (List.◌∷◌ ("timestamp", time)
          (List.◌∷◌ ("path", path)
            (List.◌∷◌ ("revision", revision) (List.◌∷◌ ("value", value) List.[]))))))

-- A message about an event of a twin is read as an event of the thing whose id is the namespace and
-- the name, joined by a colon, with the action of the topic and the message's time, path, revision
-- and value; neither the namespace nor the name has a slash.
pub parse_message-twin :
    (from_isoformat : String → Option String) (namespace name : String) (action : Action)
    (time path revision value : Json)
    → is_segment namespace ≡ true
    → is_segment name ≡ true
    → parse_message from_isoformat (twin_message namespace name action time path revision value)
      ≡ some (record {
        time = time;
        thing_id = namespace ++ ":" ++ name;
        action = action;
        revision = revision;
        path = path;
        value = value;
      })
unfolding parse_message
parse_message-twin from_isoformat namespace name action time path revision value h k =
    rw
      (
        split_on-topic namespace name action h k,
        nth-action namespace name action,
        parse_action-value action,
      )
      refl
