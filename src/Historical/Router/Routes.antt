-- ===== src/Historical/Router/Routes.antt =====
-- The routes of app/routers/events.py, as Starlette matches them: in their order, each placeholder with
-- one segment of the path that is not empty.
use dt4mob_platform.Prelude.{
  ◌≡◌, ◌≢◌, refl, sym, Bool, true, false, not, ◌&&◌, Option, none, some, List, [], ◌∷◌, ◌⊎◌, inl,
  inr, Bool-cases, if◌then◌else◌, arith,
}
use dt4mob_platform.Prelude.Text.{String, ◌==◌, eq_iff}

pub data Endpoint : Type 0 where
  available_things event_paths all_events events_by_thing new_events old_events jsonpath_projection
        time_buckets :
      Endpoint

pub data Segment : Type 0 where
  literal : String → Segment
  thing_id : Segment

pub record Route : Type 0 where
  pub method : String
  pub path : List Segment
  pub endpoint : Endpoint

-- The decorators of the endpoints.
abbrev pub routes : List Route
routes =
    record { method = "GET"; path = literal "things" ∷ []; endpoint = available_things }
    ∷ record {
      method = "GET";
      path = literal "events" ∷ thing_id ∷ literal "paths" ∷ [];
      endpoint = event_paths;
    }
    ∷ record { method = "GET"; path = literal "events" ∷ []; endpoint = all_events }
    ∷ record { method = "GET"; path = literal "events" ∷ thing_id ∷ []; endpoint = events_by_thing }
    ∷ record { method = "POST"; path = literal "events" ∷ []; endpoint = new_events }
    ∷ record { method = "DELETE"; path = literal "events" ∷ thing_id ∷ []; endpoint = old_events }
    ∷ record {
      method = "GET";
      path = literal "events" ∷ literal "projection" ∷ thing_id ∷ [];
      endpoint = jsonpath_projection;
    }
    ∷ record {
      method = "GET";
      path = literal "events" ∷ literal "time-buckets" ∷ thing_id ∷ [];
      endpoint = time_buckets;
    }
    ∷ []

-- Does a segment of a path fit that of a route?
abbrev pub fits : Segment → String → Bool
fits (literal text) segment = text == segment
fits thing_id segment = not (segment == "")

abbrev pub matches : List Segment → List String → Bool
matches [] [] = true
matches [] (segment ∷ segments) = false
matches (part ∷ parts) [] = false
matches (part ∷ parts) (segment ∷ segments) = fits part segment && matches parts segments

-- The endpoint of the first route that fits a request.
abbrev pub first_match : List Route → String → List String → Option Endpoint
first_match [] method segments = none
first_match (route ∷ others) method segments =
    let later = first_match others method segments in
    if matches route.path segments && route.method == method then some route.endpoint else later

-- What the client asks for, of a thing.
abbrev pub method_of : Endpoint → String
method_of new_events = "POST"
method_of old_events = "DELETE"
method_of _ = "GET"

abbrev pub url : Endpoint → String → List String
url available_things id = "things" ∷ []
url event_paths id = "events" ∷ id ∷ "paths" ∷ []
url all_events id = "events" ∷ []
url events_by_thing id = "events" ∷ id ∷ []
url new_events id = "events" ∷ []
url old_events id = "events" ∷ id ∷ []
url jsonpath_projection id = "events" ∷ "projection" ∷ id ∷ []
url time_buckets id = "events" ∷ "time-buckets" ∷ id ∷ []

abbrev pub IsRouted : Endpoint → String → Type 0
IsRouted endpoint id =
    (first_match routes (method_of endpoint) (url endpoint id) ≡ some endpoint)
    ⊎ ((id ≡ "paths")
        × (first_match routes (method_of endpoint) (url endpoint id) ≡ some event_paths))

-- A request for an endpoint is answered by that endpoint, whatever thing it names, or by the one of the
-- paths if the thing's id is `paths`. The id is not empty, and it is one segment.
pub first_match-url : (endpoint : Endpoint) (id : String) → id ≢ "" → IsRouted endpoint id
first_match-url available_things id h = inl refl
first_match-url event_paths id h = inl (ground (arith, eq_iff id ""))
first_match-url all_events id h = inl refl
first_match-url events_by_thing id h = inl (ground (arith, eq_iff id ""))
first_match-url new_events id h = inl refl
first_match-url old_events id h = inl (ground (arith, eq_iff id ""))
first_match-url jsonpath_projection id h = elim (Bool-cases ("paths" == id)) [
  | inl e ↦ inr (sym ((eq_iff "paths" id).0 e), rw e refl)
  | inr e ↦ inl (ground (arith, eq_iff id ""))
]
first_match-url time_buckets id h = elim (Bool-cases ("paths" == id)) [
  | inl e ↦ inr (sym ((eq_iff "paths" id).0 e), rw e refl)
  | inr e ↦ inl (ground (arith, eq_iff id ""))
]
