-- ===== src/Historical/Router/Replies.antt =====
-- The replies of the endpoints of app/routers/events.py, by their `response_model` and `status_code`.
use dt4mob_platform.Prelude.{
  ℕ, ◌≡◌, refl, Bool, true, false, Option, none, some, List, ◌⊎◌, inl, inr,
}
use dt4mob_platform.Prelude.Int.{ℤ}
use dt4mob_platform.Prelude.Text.{String}
use dt4mob_platform.Json.{Json}
use dt4mob_platform.Historical.Event.{DittoEvent, PathResponseObject}
use dt4mob_platform.Historical.Store.{Store, Agg}
use dt4mob_platform.Historical.Service.{Bucket, BucketReply, buckets, http_exception, raised}
use dt4mob_platform.Historical.Service.Buckets.{
  get_events_custom_time_buckets-IsSettled, get_events_custom_time_buckets_with_path-IsRaised,
}
use dt4mob_platform.Historical.Router.{
  AuthSettings, Checked, KeycloakToken, Response, things, paths, events, created, no_content,
  values, bucket_list, http_error, server_error, Request, get_things, get_paths, get_all,
  get_by_thing, post_events, delete_by_thing, get_projection, get_time_buckets, has_text, or_empty,
  read_events_custom_time_buckets, read_available_things, read_event_paths, read_events,
  read_events_by_thing, read_jsonpath_projection, insert_events, delete_events, bucket_response,
  bucket_endpoint, committed, values_or_error,
}
use dt4mob_platform.Historical.Router.Access.{endpoint}

-- The replies that a request can have: those of its endpoint's model and status, and those of the
-- exceptions that it lets through.
abbrev pub IsReply : Request → Response → Type 0
IsReply (get_things _) r = (ids : List String) × (r ≡ things ids)
IsReply (get_paths _ _ _) r = (found : List PathResponseObject) × (r ≡ paths found)
IsReply (get_all _ _ _ _ _) r = (found : List DittoEvent) × (r ≡ events found)
IsReply (get_by_thing _ _ _ _ _) r = (found : List DittoEvent) × (r ≡ events found)
IsReply (post_events _) r = (r ≡ created) ⊎ (r ≡ server_error)
IsReply (delete_by_thing _ _ _) r = r ≡ no_content
IsReply (get_projection _ _ _ _ _) r =
    ((found : List Json) × (r ≡ values found)) ⊎ (r ≡ server_error)
IsReply (get_time_buckets _ _ _ _ _ _ path_prefix) r =
    ((found : List Bucket) × (r ≡ bucket_list found))
    ⊎ ((has_text (or_empty path_prefix) ≡ false) × (detail : String) × (r ≡ http_error 400 detail))
    ⊎ ((has_text (or_empty path_prefix) ≡ true) × (r ≡ server_error))

module _ {Table : Type 0} (store : Store Table) (loaded_at now : ℕ) where
  abbrev IsBucketReply : Bool → Response → Type 0
  IsBucketReply by_path r =
      ((found : List Bucket) × (r ≡ bucket_list found))
      ⊎ ((by_path ≡ false) × (detail : String) × (r ≡ http_error 400 detail))
      ⊎ ((by_path ≡ true) × (r ≡ server_error))

  raised-IsBucketReply :
      (r : BucketReply × Bool)
      → ((bs : List Bucket) × (r.0 ≡ buckets bs)) ⊎ (r.0 ≡ raised)
      → IsBucketReply true (bucket_response r)
  raised-IsBucketReply (buckets bs, back) h = inl (bs, refl)
  raised-IsBucketReply (http_exception status detail, back) (inl (bs, e)) = cc e
  raised-IsBucketReply (http_exception status detail, back) (inr e) = cc e
  raised-IsBucketReply (raised, back) h = inr (inr (refl, refl))

  bucket_endpoint-IsBucketReply :
      (by_path : Bool) (json_path : String) (since until : ℕ) (thing_id : String)
      (bucket_minutes : Option ℤ) (agg : Agg) (prefixes : String) (table : Table)
      → IsBucketReply by_path (
          bucket_response (
            bucket_endpoint store loaded_at now by_path json_path since until thing_id
              bucket_minutes agg prefixes table))
  bucket_endpoint-IsBucketReply true json_path since until thing_id bucket_minutes agg prefixes
        table =
      raised-IsBucketReply _ (
        get_events_custom_time_buckets_with_path-IsRaised store json_path since until prefixes
          bucket_minutes agg (some thing_id) table)
  bucket_endpoint-IsBucketReply false json_path since until thing_id bucket_minutes agg prefixes
        table =
      elim (get_events_custom_time_buckets-IsSettled store json_path since until bucket_minutes agg
        (some thing_id) table) [
          | inl (bs, e) ↦ inl (bs, rw e refl)
          | inr (detail, e) ↦ inr (inl (refl, detail, rw e refl))
        ]

  values_or_error-IsReply :
      (found : Option (List Json))
      → let r = values_or_error found in
        ((found_values : List Json) × (r ≡ values found_values)) ⊎ (r ≡ server_error)
  values_or_error-IsReply none = inr refl
  values_or_error-IsReply (some found) = inl (found, refl)

  committed-IsReply :
      (table : Table) (stored : Option Table)
      → let r = (committed store loaded_at now table stored).0 in (r ≡ created) ⊎ (r ≡ server_error)
  committed-IsReply table none = inr refl
  committed-IsReply table (some stored) = inl refl

module _ {Table : Type 0} (store : Store Table) (loaded_at now : ℕ) (settings : AuthSettings)
    (auth : String → Checked KeycloakToken) where
  pub endpoint-IsReply :
      (request : Request) (table : Table)
      → IsReply request (endpoint store loaded_at now settings auth request table).0
  unfolding read_available_things read_event_paths read_events read_events_by_thing
      read_jsonpath_projection insert_events delete_events read_events_custom_time_buckets
  endpoint-IsReply (get_things thing_id_prefix) table = (_, refl)
  endpoint-IsReply (get_paths thing_id since until) table = (_, refl)
  endpoint-IsReply (get_all since until thing_id_prefix path_prefix action) table = (_, refl)
  endpoint-IsReply (get_by_thing thing_id since until action path_prefix) table = (_, refl)
  endpoint-IsReply (post_events new) table = committed-IsReply store loaded_at now table _
  endpoint-IsReply (delete_by_thing thing_id since until) table = refl
  endpoint-IsReply (get_projection json_path since thing_id none path_prefix) table =
      values_or_error-IsReply store loaded_at now _
  endpoint-IsReply (get_projection json_path since thing_id (some until) path_prefix) table =
      values_or_error-IsReply store loaded_at now _
  endpoint-IsReply (get_time_buckets json_path since until thing_id bucket_minutes agg path_prefix)
        table =
      bucket_endpoint-IsBucketReply store loaded_at now (has_text (or_empty path_prefix)) json_path
        since until thing_id bucket_minutes agg (or_empty path_prefix) table
