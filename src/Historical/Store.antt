-- ===== src/Historical/Store.antt =====
-- The queries that app/services/events_service.py of services/dt4mob-historical-api builds, as data,
-- and what it relies on of the SQLModel session and the database that run them.
use mathlib.Core.List.{Perm, flat_map}
use Prim.Native.Char.{code}
use dt4mob_platform.Prelude.{
  ℕ, ◌≤◌, ◌≡◌, leb, Bool, true, false, is_some, none, not, ◌&&◌, ◌||◌, Option, some, List, [], ◌∷◌,
  ◌++◌, ◌==◌, all, any, keep, length,
}
use dt4mob_platform.Prelude.Text.{String, ◌==◌ as str_eq}
use dt4mob_platform.Prelude.Text.Prefix.{has_prefix}
use dt4mob_platform.Json.{Json}
use dt4mob_platform.Historical.Event.{Action, DittoEvent, same_action}

-- A condition of a WHERE clause. `startswith` is SQL's LIKE with `%` behind the text.
pub data Cond : Type 0 where
  time_ge time_le : ℕ → Cond
  thing_id_eq thing_id_startswith path_startswith : String → Cond
  action_eq : Action → Cond
  path_startswith_any : List String → Cond

-- `select(DittoEvent).where(…)`, and whether `.order_by(time.desc())` is on it.
pub record Select : Type 0 where
  pub where_ : List Cond
  pub newest_first : Bool

-- A text with no character that LIKE reads specially: "%", "_" and the escape "\".
abbrev pub is_plain : String → Bool
is_plain String.[] = true
is_plain (String.◌∷◌ c s) = not (code c == 37 || code c == 95 || code c == 92) && is_plain s

-- The meaning of the conditions, over the database's LIKE for `startswith`.
abbrev pub holds : (String → String → Bool) → Cond → DittoEvent → Bool
holds like (time_ge t) e = leb t e.time
holds like (time_le t) e = leb e.time t
holds like (thing_id_eq id) e = str_eq e.thing_id id
holds like (thing_id_startswith p) e = like p e.thing_id
holds like (path_startswith p) e = like p e.path
holds like (action_eq a) e = same_action e.action a
holds like (path_startswith_any ps) e = any (λ p. like p e.path) ps

abbrev pub selects : (String → String → Bool) → List Cond → DittoEvent → Bool
selects like conds e = all (λ c. holds like c e) conds

abbrev pub IsNewestFirst : List DittoEvent → Type 0
IsNewestFirst [] = Unit {0}
IsNewestFirst (e ∷ []) = Unit {0}
IsNewestFirst (e ∷ f ∷ rest) = (f.time ≤ e.time) × IsNewestFirst (f ∷ rest)

abbrev pub no_repeat {ℓ} : {A : Type ℓ} → (A → A → Bool) → List A → Bool
no_repeat same [] = true
no_repeat same (x ∷ xs) = not (any (same x) xs) && no_repeat same xs

-- What a column holds, each value once.
abbrev pub IsDistinct :
    {A : Type 0} → (A → A → Bool) → (DittoEvent → A) → List A → List DittoEvent → Type 0
IsDistinct {A = A} same column found rows =
    ((a : A) → any (same a) found ≡ any (λ e. same a (column e)) rows)
    × (no_repeat same found ≡ true)

abbrev pub same_entry : String × Action → String × Action → Bool
same_entry (path, action) (other_path, other_action) =
    str_eq path other_path && same_action action other_action

abbrev pub or_none : Option (List Json) → List Json
or_none none = []
or_none (some found) = found

pub data Agg : Type 0 where
  agg_count agg_sum agg_avg agg_min agg_max : Agg

-- `select(time_bucket, agg(value))`: a width of `none` is the bucket MIN(time) of everything.
pub record BucketQuery : Type 0 where
  pub json_path : String
  pub cast_float : Bool
  pub agg : Agg
  pub width_minutes : Option ℕ
  pub where_ : List Cond
  pub by_path : Bool

pub record BucketRow : Type 0 where
  pub path : String
  pub bucket : ℕ
  pub value : Json

-- The rows, or an exception: DataError with its text and that of its origin, or ProgrammingError.
pub data BucketResult : Type 0 where
  bucket_rows : List BucketRow → BucketResult
  data_error : String → String → BucketResult
  programming_error : String → BucketResult

-- What jsonb_path_query finds in the value of one row; nothing where it raises.
abbrev pub found_in : (String → Json → Option (List Json)) → String → DittoEvent → List Json
found_in json_path_query path e = or_none (json_path_query path e.value)

-- The path is one, and jsonb_path_query raises on none of the rows, as a strict path can.
abbrev pub is_readable :
    (String → Bool) → (String → Json → Option (List Json)) → String → List DittoEvent → Bool
is_readable is_json_path json_path_query path rows =
    is_json_path path && all (λ (e : DittoEvent). is_some (json_path_query path e.value)) rows

-- The session and the database, over a connection that stands. The laws say what SQL promises: a SELECT returns the rows that meet
-- its conditions, each as often as it is stored, in the order that it asks for; a DELETE removes
-- these rows and counts them; a committed INSERT adds its rows. A failing commit raises and leaves
-- the table as it was. A projection raises (`none`) if its path does not parse or
-- jsonb_path_query raises on a selected row, and only then. DISTINCT rows are those of the selected rows, each once.
pub record Store (Table : Type 0) : Type 0 where
  pub like : String → String → Bool
  pub rows : Table → List DittoEvent
  pub select : Select → Table → List DittoEvent
  pub select_things : List Cond → Table → List String
  pub select_paths : List Cond → Table → List (String × Action)
  pub is_json_path : String → Bool
  pub json_path_query : String → Json → Option (List Json)
  pub select_projection : String → List Cond → Table → Option (List Json)
  pub select_buckets : BucketQuery → Table → BucketResult
  pub isoformat : ℕ → String
  pub delete_where : List Cond → Table → ℕ × Table
  pub insert_all : List DittoEvent → Table → Option Table

pub record IsSql {Table : Type 0} (s : Store Table) : Type 0 where
  pub like_plain : (p text : String) → is_plain p ≡ true → s.like p text ≡ has_prefix text p
  pub select_rows :
      (q : Select) (t : Table) → Perm (s.select q t) (keep (selects s.like q.where_) (s.rows t))
  pub select_order : (q : Select) (t : Table) → q.newest_first ≡ true → IsNewestFirst (s.select q t)
  pub projection_rows :
      (path : String) (c : List Cond) (t : Table)
      → is_readable s.is_json_path s.json_path_query path (keep (selects s.like c) (s.rows t))
        ≡ true
      → (found : List Json) × (s.select_projection path c t ≡ some found)
        × Perm found
            (flat_map (found_in s.json_path_query path) (keep (selects s.like c) (s.rows t)))
  pub projection_raises :
      (path : String) (c : List Cond) (t : Table)
      → is_readable s.is_json_path s.json_path_query path (keep (selects s.like c) (s.rows t))
        ≡ false
      → s.select_projection path c t ≡ none
  pub things_distinct :
      (c : List Cond) (t : Table)
      → IsDistinct str_eq
          (λ e. e.thing_id)
          (s.select_things c t)
          (keep (selects s.like c) (s.rows t))
  pub paths_distinct :
      (c : List Cond) (t : Table)
      → IsDistinct same_entry
          (λ e. (e.path, e.action))
          (s.select_paths c t)
          (keep (selects s.like c) (s.rows t))
  pub delete_rows :
      (c : List Cond) (t : Table)
      → Perm (s.rows (s.delete_where c t).1) (keep (λ e. not (selects s.like c e)) (s.rows t))
  pub delete_count :
      (c : List Cond) (t : Table)
      → (s.delete_where c t).0 ≡ length (keep (selects s.like c) (s.rows t))
  pub insert_rows :
      (es : List DittoEvent) (t u : Table)
      → s.insert_all es t ≡ some u
      → Perm (s.rows u) (es ++ s.rows t)
