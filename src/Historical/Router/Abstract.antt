-- ===== src/Historical/Router/Abstract.antt =====
-- The abstract server behind app/routers/events.py: a bag of events, and what it may answer to each
-- request.
use dt4mob_platform.Prelude.{
  ℕ, ◌≡◌, not, ◌&&◌, Bool, true, false, is_some, keep, map, Option, none, List, [], ◌∷◌, ◌⊎◌,
}
use dt4mob_platform.Prelude.Text.{String, ◌==◌, ◌==◌ as str_eq}
use dt4mob_platform.Prelude.Text.Prefix.{has_prefix}
use dt4mob_platform.Json.{Json}
use dt4mob_platform.Historical.Bag.{Bag, bag, put, pick, every, read_all}
use dt4mob_platform.Historical.Event.{Action, DittoEvent}
use dt4mob_platform.Historical.Store.{IsNewestFirst, IsDistinct, same_entry, found_in}
use dt4mob_platform.Historical.Service.{or_default, path_response}
use dt4mob_platform.Historical.Service.Events.{is_wanted, passes, IsPlainPrefix}
use dt4mob_platform.Historical.Service.Deletion.{in_window}
use dt4mob_platform.Historical.Service.Projection.{is_projected}
use dt4mob_platform.Historical.Router.{
  AuthSettings, KeycloakToken, Checked, Response, events, created, no_content, values, things,
  paths, server_error, Request, get_things, get_paths, get_all, get_by_thing, post_events,
  delete_by_thing, get_projection, get_time_buckets,
}
use dt4mob_platform.Historical.Router.Access.{HoldsRole, refusal, needed_roles}
use dt4mob_platform.Historical.Router.Replies.{IsReply}

-- A request with its time and the credentials of its caller.
pub record Incoming : Type 0 where
  pub now : ℕ
  pub credentials : String
  pub request : Request

-- The prefixes of a request are free of LIKE's special characters.
abbrev pub IsPlainRequest : Request → Type 0
IsPlainRequest (get_all since until thing_id_prefix path_prefix action) =
    IsPlainPrefix thing_id_prefix × IsPlainPrefix path_prefix
IsPlainRequest (get_by_thing thing_id since until action path_prefix) = IsPlainPrefix path_prefix
IsPlainRequest (get_projection json_path since thing_id until path_prefix) =
    IsPlainPrefix path_prefix
IsPlainRequest (get_things thing_id_prefix) = IsPlainPrefix thing_id_prefix
IsPlainRequest _ = Unit {0}

module _ (is_json_path : String → Bool) (json_path_query : String → Json → Option (List Json))
    (loaded_at : ℕ) (settings : AuthSettings) (auth : String → Checked KeycloakToken) where
  -- A list of events, newest first, that are those of a bag.
  abbrev IsAnswer : Bag DittoEvent → Bag DittoEvent → Response × Bag DittoEvent → Type 0
  IsAnswer b wanted end =
      (found : List DittoEvent) × (end ≡ (events found, b))
      × (bag found ≡ wanted)
      × IsNewestFirst found

  -- The path parses, and raises on no event of a bag.
  abbrev answers : String → Bag DittoEvent → Bool
  answers json_path b =
      is_json_path json_path
      && every (λ (e : DittoEvent). is_some (json_path_query json_path e.value)) b

  -- What a permitted request does. The things and the paths are listed each once; of the buckets, only
  -- the kind of the reply is told.
  abbrev pub Served : ℕ → Request → Bag DittoEvent → Response × Bag DittoEvent → Type 0
  Served now (post_events new) b end = (end ≡ (created, put new b)) ⊎ (end ≡ (server_error, b))
  Served now (delete_by_thing thing_id since until) b end =
      end ≡ (no_content, pick (λ e. not (in_window thing_id since until e)) b)
  Served now (get_all since until thing_id_prefix path_prefix action) b end =
      IsAnswer b
        (pick (is_wanted since (or_default now until) thing_id_prefix path_prefix action) b) end
  Served now (get_by_thing thing_id since until action path_prefix) b end =
      IsAnswer b
        (pick
          (λ e.
            e.thing_id == thing_id
            && is_wanted since (or_default now until) none path_prefix action e)
          b)
        end
  Served now (get_projection json_path since thing_id until path_prefix) b end =
      let wanted = pick (is_projected thing_id since (or_default loaded_at until) path_prefix) b in
      ((answers json_path wanted ≡ true)
        × (found : List Json) × (end ≡ (values found, b))
        × (bag found ≡ read_all (found_in json_path_query json_path) wanted))
      ⊎ ((answers json_path wanted ≡ false) × (end ≡ (server_error, b)))
  Served now (get_things thing_id_prefix) b end =
      (ids : List String) × (rows : List DittoEvent) × (end ≡ (things ids, b))
      × (bag rows ≡ b)
      × IsDistinct str_eq (λ e. e.thing_id) ids
          (keep (λ e. passes (has_prefix e.thing_id) thing_id_prefix) rows)
  Served now (get_paths thing_id since until) b end =
      (entries : List (String × Action)) × (rows : List DittoEvent) × (end
        ≡ (paths (map path_response entries), b))
      × (bag rows ≡ b)
      × IsDistinct same_entry (λ e. (e.path, e.action)) entries
          (keep (in_window thing_id since (or_default now until)) rows)
  Served now (get_time_buckets json_path since until thing_id minutes agg path_prefix) b end =
      (response : Response) × (end ≡ (response, b))
      × IsReply (get_time_buckets json_path since until thing_id minutes agg path_prefix) response

  -- One request of the abstract server: it is refused, or its caller holds a role and it is served.
  abbrev pub Step : Incoming → Bag DittoEvent → Response × Bag DittoEvent → Type 0
  Step i b end =
      (end ≡ (refusal settings auth i.credentials, b))
      ⊎ (HoldsRole settings auth (needed_roles settings i.request) i.credentials
          × Served i.now i.request b end)

  -- Requests one after the other.
  abbrev pub Trace : List Incoming → Bag DittoEvent → List Response → Bag DittoEvent → Type 0
  Trace [] b responses end = (responses ≡ []) × (end ≡ b)
  Trace (i ∷ rest) b responses end =
      (response : Response) × (later : List Response) × (middle : Bag DittoEvent) × (responses
        ≡ response ∷ later)
      × Step i b (response, middle)
      × Trace rest middle later end
