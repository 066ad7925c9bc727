-- ===== src/Historical/Service.antt =====
-- app/services/events_service.py of services/dt4mob-historical-api: the methods of EventsService, as
-- the queries that they build and what they make of the result.
pub mod Events
pub mod Deletion
pub mod Buckets
pub mod Projection
pub mod Tests
use Prim.Native.String.{◌++◌ as ◌<>◌}
use dt4mob_platform.Prelude.{
  ℕ, Bool, true, false, not, ◌||◌, Option, none, some, List, [], ◌∷◌, ◌++◌, map, if◌then◌else◌,
}
use dt4mob_platform.Prelude.Int.{ℤ, pos, negsuc, pos_part}
use dt4mob_platform.Prelude.Text.{String, ◌==◌}
use dt4mob_platform.Prelude.Text.Prefix.{has_prefix}
use dt4mob_platform.Prelude.Text.Split.{split_on}
use dt4mob_platform.Json.{Json}
use dt4mob_platform.Historical.Event.{Action, DittoEvent, PathResponseObject}
use dt4mob_platform.Historical.Store.{
  Cond, time_ge, time_le, thing_id_eq, thing_id_startswith, path_startswith, action_eq,
  path_startswith_any, Select, Store, Agg, agg_count, agg_sum, agg_avg, agg_min, agg_max,
  BucketQuery, BucketRow, BucketResult, bucket_rows, data_error, programming_error,
}

-- `if x is not None: query = query.where(…)`
abbrev pub when_given {ℓ} : {A : Type ℓ} → (A → Cond) → Option A → List Cond
when_given f none = []
when_given f (some a) = f a ∷ []

-- `if x: query = query.where(…)`, for a text that may be None: the empty text adds nothing either.
abbrev pub when_truthy : (String → Cond) → Option String → List Cond
when_truthy f none = []
when_truthy f (some s) = if s == "" then [] else f s ∷ []

-- A default argument, which Python evaluates once, when the class is defined.
abbrev pub or_default {ℓ} : {A : Type ℓ} → A → Option A → A
or_default d none = d
or_default d (some a) = a

abbrev pub window : ℕ → ℕ → List Cond
window since until = time_ge since ∷ time_le until ∷ []

abbrev pub path_response : String × Action → PathResponseObject
path_response (path, action) = record { path = path; action = action }

module _ {Table : Type 0} (store : Store Table) (loaded_at : ℕ) where
  unfoldable pub get_available_things : Option String → Table → List String
  get_available_things thing_id_prefix table =
      store.select_things (when_truthy thing_id_startswith thing_id_prefix) table

  unfoldable pub get_event_paths_with_action : String → ℕ → ℕ → Table → List PathResponseObject
  get_event_paths_with_action thing_id since until table =
      map path_response (store.select_paths (thing_id_eq thing_id ∷ window since until) table)

  -- The parameter `limit` is not read.
  pub get_events :
      ℕ
      → Option ℕ
      → Option String
      → Option String
      → Option Action
      → Option ℕ
      → Table
      → List DittoEvent
  get_events since until thing_id_prefix path_prefix action limit table =
      store.select
        (record {
          where_ =
              window since (or_default loaded_at until)
              ++ when_given thing_id_startswith thing_id_prefix
              ++ when_given action_eq action
              ++ when_given path_startswith path_prefix;
          newest_first = true;
        })
        table

  pub get_events_by_thing :
      String → ℕ → Option ℕ → Option String → Option Action → Table → List DittoEvent
  get_events_by_thing thing_id since until path_prefix action table =
      store.select
        (record {
          where_ =
              (thing_id_eq thing_id ∷ window since (or_default loaded_at until))
              ++ when_given path_startswith path_prefix
              ++ when_given action_eq action;
          newest_first = true;
        })
        table

  -- The loop of `session.add`, and the commit; `none` is the exception of a failing commit.
  unfoldable pub insert_events : List DittoEvent → Table → Option Table
  insert_events events table = store.insert_all events table

  pub delete_events : String → ℕ → ℕ → Table → ℕ × Table
  delete_events thing_id since until table =
      store.delete_where (thing_id_eq thing_id ∷ window since until) table

  -- `none` is the exception of the query, which the method does not catch.
  pub get_jsonpath_projection :
      String → String → ℕ → Option String → Option ℕ → Table → Option (List Json)
  get_jsonpath_projection json_path thing_id since path_prefix until table =
      store.select_projection json_path
        (window since (or_default loaded_at until)
          ++ when_truthy thing_id_eq (some thing_id)
          ++ when_truthy path_startswith path_prefix)
        table

-- `{'bucket': …, 'value': …}`, with the path where the query groups by it.
pub record Bucket : Type 0 where
  pub path : Option String
  pub bucket : String
  pub value : Option Json

-- A reply of a method that catches exceptions: rows, an HTTPException, or an exception that escapes;
-- and whether the session was rolled back.
pub data BucketReply : Type 0 where
  buckets : List Bucket → BucketReply
  http_exception : ℕ → String → BucketReply
  raised : BucketReply

-- `bucket_minutes is None or bucket_minutes <= 0`, as the width that is left of it.
abbrev pub width_of : Option ℤ → Option ℕ
width_of none = none
width_of (some (negsuc n)) = none
width_of (some (pos ℕ.zero)) = none
width_of (some (pos (ℕ.suc n))) = some (ℕ.suc n)

-- `agg_type in ["sum", "avg", "min", "max"]`
abbrev pub is_numeric : Agg → Bool
is_numeric agg_count = false
is_numeric _ = true

abbrev pub agg_name : Agg → String
agg_name agg_count = "count"
agg_name agg_sum = "sum"
agg_name agg_avg = "avg"
agg_name agg_min = "min"
agg_name agg_max = "max"

-- `part in text`
pub is_infix : String → String → Bool
is_infix part String.[] = has_prefix "" part
is_infix part (String.◌∷◌ c s) = has_prefix (String.◌∷◌ c s) part || is_infix part s

abbrev cast_error : String
cast_error = "cannot cast jsonb object to type double precision"

abbrev numeric_needed : String → Agg → String
numeric_needed json_path agg =
    "Aggregation type '"
    <> agg_name agg
    <> "' requires a numeric value. "
    <> "The provided JSONPath '"
    <> json_path
    <> "' resolved to an object or dictionary instead. "
    <> "Please update your path to target a numeric field, or switch your agg_type to 'count'."

module _ {Table : Type 0} (store : Store Table) where
  abbrev plain_bucket : BucketRow → Bucket
  plain_bucket row = record {
    path = none;
    bucket = store.isoformat row.bucket;
    value = some row.value;
  }

  -- `val = result[0][1] if result else None`
  abbrev first_value : List BucketRow → Option Json
  first_value [] = none
  first_value (row ∷ rows) = some row.value

  shape : ℕ → Option ℕ → List BucketRow → List Bucket
  shape since none rows =
      record { path = none; bucket = store.isoformat since; value = first_value rows } ∷ []
  shape since (some width) rows = map plain_bucket rows

  -- The result, or what the two `except` branches raise; and whether they rolled back.
  reply : String → Agg → ℕ → Option ℕ → BucketResult → BucketReply × Bool
  unfolding shape is_infix
  reply json_path agg since width (bucket_rows rows) = (buckets (shape since width rows), false)
  reply json_path agg since width (data_error text orig) = (
    http_exception 400 (
        if is_infix cast_error text
        then numeric_needed json_path agg
        else "Data processing error: " <> orig),
    true,
  )
  reply json_path agg since width (programming_error orig) = (
    http_exception 400
        ("Invalid JSONPath expression syntax: '" <> json_path <> "'. Details: " <> orig),
    true,
  )

  pub get_events_custom_time_buckets :
      String → ℕ → ℕ → Option ℤ → Agg → Option String → Table → BucketReply × Bool
  unfolding reply
  get_events_custom_time_buckets json_path since until bucket_minutes agg thing_id table =
      reply json_path agg since (width_of bucket_minutes) (
        store.select_buckets
          (record {
            json_path = json_path;
            cast_float = is_numeric agg;
            agg = agg;
            width_minutes = width_of bucket_minutes;
            where_ = window since until ++ when_truthy thing_id_eq thing_id;
            by_path = false;
          })
          table)

  abbrev path_bucket : ℕ → Option ℕ → BucketRow → Bucket
  path_bucket since none row = record {
    path = some row.path;
    bucket = store.isoformat since;
    value = some row.value;
  }
  path_bucket since (some width) row = record {
    path = some row.path;
    bucket = store.isoformat row.bucket;
    value = some row.value;
  }

  -- Here both `except` branches roll back and raise the exception again.
  reply_by_path : ℕ → Option ℕ → BucketResult → BucketReply × Bool
  reply_by_path since width (bucket_rows rows) =
      (buckets (map (path_bucket since width) rows), false)
  reply_by_path since width (data_error text orig) = (raised, true)
  reply_by_path since width (programming_error orig) = (raised, true)

  -- An empty `path_prefixes` leaves `path_prefixes_arr` unbound, which raises before any query.
  pub get_events_custom_time_buckets_with_path :
      String → ℕ → ℕ → String → Option ℤ → Agg → Option String → Table → BucketReply × Bool
  unfolding reply_by_path
  get_events_custom_time_buckets_with_path json_path since until path_prefixes bucket_minutes agg
        thing_id table =
      if path_prefixes == ""
      then (raised, false)
      else reply_by_path since (width_of bucket_minutes) (
          store.select_buckets
            (record {
              json_path = json_path;
              cast_float = is_numeric agg;
              agg = agg;
              width_minutes = width_of bucket_minutes;
              where_ =
                  window since until
                  ++ when_truthy thing_id_eq thing_id
                  ++ path_startswith_any (split_on b',' path_prefixes) ∷ [];
              by_path = true;
            })
            table)
