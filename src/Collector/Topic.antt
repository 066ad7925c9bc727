-- ===== src/Collector/Topic.antt =====
-- How Ditto, and the writer after it, read the topic of the collector's deletion message.
use Prim.Native.Char.{code}
use Prim.Native.String.{String, [], ◌∷◌, ◌++◌}
use text.Mathlib.TextLemmas.{nil-append, cons-append, append_assoc}
use dt4mob_platform.Prelude.{◌≡◌, refl, Bool, true, ◌&&◌, not, List, ◌==◌, arith}
use dt4mob_platform.Prelude.Text.Split.{split_on}
use dt4mob_platform.Collector.{replace_colon, delete_topic}
use dt4mob_platform.Historical.Writer.Topic.{is_segment, split_on-segment}

-- A text without a colon.
abbrev pub has_no_colon : String → Bool
has_no_colon [] = true
has_no_colon (c ∷ s) = not (code c == 58) && has_no_colon s

replace_colon-head : (rest : String) → replace_colon (":" ++ rest) ≡ "/" ++ rest
unfolding replace_colon
replace_colon-head rest = rw (cons-append, nil-append) refl

replace_colon-first :
    (namespace rest : String)
    → has_no_colon namespace ≡ true
    → replace_colon (namespace ++ (":" ++ rest)) ≡ namespace ++ ("/" ++ rest)
unfolding replace_colon
replace_colon-first [] rest h = rw (nil-append, nil-append) (replace_colon-head rest)
replace_colon-first (c ∷ s) rest h =
    rw (cons-append c s (":" ++ rest), cons-append c s ("/" ++ rest))
      (ground (arith, replace_colon-first s rest))

command : "/things/twin/commands/delete" ≡ "/" ++ "things/twin/commands/delete"
command = refl

-- The topic of the deletion of a thing has six parts: the namespace and the name of the thing, which
-- its id joins by the first colon, and those of the command; if the namespace has neither a colon nor
-- a slash, and the name no slash.
pub delete_topic-parts :
    (namespace name : String)
    → has_no_colon namespace ≡ true
    → is_segment namespace ≡ true
    → is_segment name ≡ true
    → split_on 47 (delete_topic (namespace ++ (":" ++ name)))
      ≡ List.◌∷◌ namespace (
          List.◌∷◌ name
            (List.◌∷◌ "things" (List.◌∷◌ "twin" (List.◌∷◌ "commands" (List.◌∷◌ "delete" List.[])))))
unfolding delete_topic split_on
delete_topic-parts namespace name plain h k =
    rw
      (
        replace_colon-first namespace name plain,
        append_assoc namespace ("/" ++ name) "/things/twin/commands/delete",
        append_assoc "/" name "/things/twin/commands/delete",
        command,
        split_on-segment namespace (name ++ ("/" ++ "things/twin/commands/delete")) h,
        split_on-segment name "things/twin/commands/delete" k,
      )
      refl
