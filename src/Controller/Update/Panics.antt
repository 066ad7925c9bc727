-- ===== src/Controller/Update/Panics.antt =====
-- When an update cannot panic.
use dt4mob_platform.Prelude.{◌≡◌, ◌≢◌, refl, ap, true, false, Option, none, some, ◌==◌}
use dt4mob_platform.Prelude.Text.{String, ◌==◌ as str_eq}
use dt4mob_platform.Json.{Json}
use dt4mob_platform.Controller.State.{
  Config, KeyPair, State, missing_initialization, ditto_hono_connection_url,
  ditto_export_connection_url, ditto_piggy_back_url, hono_tenant_url,
}
use dt4mob_platform.Controller.Http.{
  Request, Reply, Unmarshalled, bad_json, nil_map, a_map, Net, Codec, Http, ◌>>=◌, pure,
}
use dt4mob_platform.Controller.Http.Bind.{Returns, Anything, Returns-pure, Returns->>=, Returns-if}
use dt4mob_platform.Controller.Update.{
  Fallible, ok, err, update, update_hono_tenant, put_tenant, after_post, after_put, tenant_body,
  send, json_request, get_connection, read_connection, from_template, from_body, parse_connection,
  update_connection, update_with, with_key, assign, put_connection, is_success, update_found,
  sync_connection, update_policy,
}

-- What the update takes for granted: addresses that parse, a trust certificate in PEM, a key pair,
-- and templates that execute to a text which is not the JSON null.
pub record IsUsable (codec : Codec) (config : Config) (state : State) : Type 0 where
  pub tenant_url : codec.is_url (hono_tenant_url state config) ≡ true
  pub hono_url : codec.is_url (ditto_hono_connection_url state config) ≡ true
  pub export_url : codec.is_url (ditto_export_connection_url state config) ≡ true
  pub policy_url : codec.is_url (ditto_piggy_back_url codec.decimal config "policies") ≡ true
  pub trust_pem : codec.pem_decode state.trust_crt ≢ none
  pub key_pair : state.key_pair ≢ none
  pub hono_template : state.hono_connection_template state.tenant state.kafka_host ≢ none
  pub export_template : state.export_connection_template state.tenant state.kafka_host ≢ none
  pub hono_not_null :
      (text : String)
      → state.hono_connection_template state.tenant state.kafka_host ≡ some text
      → codec.unmarshal text ≢ nil_map
  pub export_not_null :
      (text : String)
      → state.export_connection_template state.tenant state.kafka_host ≡ some text
      → codec.unmarshal text ≢ nil_map

-- A reply whose body is not the JSON null, which Go decodes to a nil map.
abbrev pub IsNotNull : Codec → Option Reply → Type 0
IsNotNull codec reply =
    (res : Reply) (text : String)
    → reply ≡ some res
    → res.body ≡ some text
    → codec.unmarshal text ≢ nil_map

-- The map of a connection that is no JSON null.
abbrev NotNil : Fallible Unmarshalled → Type 0
NotNil found = found ≢ ok nil_map

module _ {World : Type 0} (net : Net World) (codec : Codec) (config : Config) (state : State) where
  Returns-send : (request : Request) → Returns Anything (send net codec config state request)
  unfolding send
  Returns-send request = record {
    at = λ w. ((net.send w request).0, (net.send w request).1, refl, tt);
  }

  Returns-request :
      {A : Type 0} (Q : A → Type 0) (method url : String) (authorization : Option String)
      (body : Json) (f : Option Reply → Http World A)
      → codec.is_url url ≡ true
      → ((reply : Option Reply) → Returns Q (f reply))
      → Returns Q (
          json_request net codec config state method url authorization body >>= λ request.
          send net codec config state request >>= f)
  unfolding json_request
  Returns-request Q method url authorization body f e h = rw e (
      Returns->>= Q (send net codec config state _) f
        (Returns-send
          (record { method = method; url = url; authorization = authorization; body = some body }))
        (λ reply _. h reply))

  Returns-after_post :
      (body : Json) (reply : Option Reply)
      → codec.is_url (hono_tenant_url state config) ≡ true
      → Returns Anything (after_post net codec config state body reply)
  unfolding after_post
  Returns-after_post body none e = Returns-pure Anything true tt
  Returns-after_post body (some res) e =
      Returns-if (res.status_code == 201) (Returns-pure Anything false tt) (
        Returns-if (res.status_code == 409)
          (Returns-request Anything "PUT" (hono_tenant_url state config) none body
            (λ reply. pure (after_put net codec config state reply)) e
            (λ reply. Returns-pure Anything (after_put net codec config state reply) tt))
          (Returns-pure Anything true tt))

  Returns-put_tenant :
      (cert : Option String)
      → cert ≢ none
      → codec.is_url (hono_tenant_url state config) ≡ true
      → Returns Anything (put_tenant net codec config state cert)
  unfolding put_tenant
  Returns-put_tenant none h e = absurd (h refl)
  Returns-put_tenant (some cert) h e =
      let body = tenant_body net codec config state cert in
      Returns-request Anything "POST" (hono_tenant_url state config) none body
        (after_post net codec config state body) e (λ reply. Returns-after_post body reply e)

  module _
      (answers : (request : Request) (w : World) → IsNotNull codec (net.send w request).0) where
    Returns-answer :
        (request : Request) → Returns (IsNotNull codec) (send net codec config state request)
    unfolding send
    Returns-answer request = record {
      at = λ w. ((net.send w request).0, (net.send w request).1, refl, answers request w);
    }

    NotNil-parse : (found : Unmarshalled) → found ≢ nil_map → NotNil (parse_connection found)
    NotNil-parse bad_json h = λ e. cc e
    NotNil-parse nil_map h = absurd (h refl)
    NotNil-parse (a_map m) h = λ e. cc e

    NotNil-from_body :
        (body : Option String)
        → ((text : String) → body ≡ some text → codec.unmarshal text ≢ nil_map)
        → NotNil (from_body codec body)
    NotNil-from_body none h = λ e. cc e
    NotNil-from_body (some text) h = NotNil-parse (codec.unmarshal text) (h text refl)

    Returns-from_template :
        (made : Option String)
        → made ≢ none
        → ((text : String) → made ≡ some text → codec.unmarshal text ≢ nil_map)
        → Returns NotNil (from_template net codec config state made)
    Returns-from_template none h n = absurd (h refl)
    Returns-from_template (some text) h n =
        Returns-pure NotNil _ (NotNil-parse (codec.unmarshal text) (n text refl))

    Returns-read_connection :
        (fallback : String → String → Option String) (reply : Option Reply)
        → fallback state.tenant state.kafka_host ≢ none
        → ((text : String)
            → fallback state.tenant state.kafka_host ≡ some text
            → codec.unmarshal text ≢ nil_map)
        → IsNotNull codec reply
        → Returns NotNil (read_connection net codec config state fallback reply)
    unfolding read_connection
    Returns-read_connection fallback none h n a = Returns-pure NotNil err (λ e. cc e)
    Returns-read_connection fallback (some res) h n a =
        Returns-if (res.status_code == 404) (Returns-from_template _ h n) (
          Returns-if (res.status_code == 200)
            (Returns-pure NotNil (from_body codec res.body)
              (NotNil-from_body res.body (λ text same. a res text refl same)))
            (Returns-pure NotNil err (λ e. cc e)))

    Returns-get_connection :
        (url : String) (fallback : String → String → Option String)
        → codec.is_url url ≡ true
        → fallback state.tenant state.kafka_host ≢ none
        → ((text : String)
            → fallback state.tenant state.kafka_host ≡ some text
            → codec.unmarshal text ≢ nil_map)
        → Returns NotNil (get_connection net codec config state url fallback)
    unfolding get_connection
    Returns-get_connection url fallback e h n = rw e (
        Returns->>= NotNil (send net codec config state _)
          (read_connection net codec config state fallback) (Returns-answer _)
          (λ reply a. Returns-read_connection fallback reply h n a))

    Returns-assign :
        (url : String) (pair : KeyPair) (key : String) (found : Unmarshalled)
        → codec.is_url url ≡ true
        → found ≢ nil_map
        → Returns Anything (assign net codec config state url pair key found)
    unfolding assign put_connection
    Returns-assign url pair key bad_json e h = Returns-pure Anything false tt
    Returns-assign url pair key nil_map e h = absurd (h refl)
    Returns-assign url pair key (a_map connection) e h =
        Returns-request Anything "PUT" url _ _ (λ reply. pure (is_success reply)) e
          (λ reply. Returns-pure Anything (is_success reply) tt)

    Returns-with_key :
        (url : String) (found : Unmarshalled) (pair : KeyPair) (der : Option String)
        → codec.is_url url ≡ true
        → found ≢ nil_map
        → Returns Anything (with_key net codec config state url found pair der)
    unfolding with_key
    Returns-with_key url found pair none e h = Returns-pure Anything false tt
    Returns-with_key url found pair (some der) e h = Returns-assign url pair _ found e h

    Returns-update_with :
        (url : String) (found : Unmarshalled) (held : Option KeyPair)
        → codec.is_url url ≡ true
        → found ≢ nil_map
        → held ≢ none
        → Returns Anything (update_with net codec config state url found held)
    unfolding update_with
    Returns-update_with url found none e h k = absurd (k refl)
    Returns-update_with url found (some pair) e h k = Returns-with_key url found pair _ e h

    Returns-update_found :
        (url : String) (found : Fallible Unmarshalled)
        → codec.is_url url ≡ true
        → state.key_pair ≢ none
        → NotNil found
        → Returns Anything (update_found net codec config state url found)
    unfolding update_found update_connection
    Returns-update_found url err e k h = Returns-pure Anything false tt
    Returns-update_found url (ok connection) e k h =
        Returns-update_with url connection state.key_pair e (λ same. h (ap ok same)) k

    Returns-sync_connection :
        (url : String) (fallback : String → String → Option String)
        → codec.is_url url ≡ true
        → fallback state.tenant state.kafka_host ≢ none
        → ((text : String)
            → fallback state.tenant state.kafka_host ≡ some text
            → codec.unmarshal text ≢ nil_map)
        → state.key_pair ≢ none
        → Returns Anything (sync_connection net codec config state url fallback)
    unfolding sync_connection
    Returns-sync_connection url fallback e h n k =
        Returns->>= Anything (get_connection net codec config state url fallback)
          (update_found net codec config state url) (Returns-get_connection url fallback e h n)
          (λ found q. Returns-update_found url found e k q)

  -- With addresses that parse, a trust certificate in PEM, a key pair and templates that execute to
  -- a text other than the JSON null, an update returns as long as no service answers with the JSON
  -- null: on every status, on a body that is no JSON, and where a request fails.
  pub update-Returns :
      IsUsable codec config state
      → ((request : Request) (w : World) → IsNotNull codec (net.send w request).0)
      → Returns Anything (update net codec config state)
  unfolding update update_hono_tenant update_policy
  update-Returns u answers =
      Returns-if (str_eq (missing_initialization state) "")
        (Returns->>= Anything _ _ (Returns-put_tenant _ u.trust_pem u.tenant_url) λ tenant_failed _.
          Returns->>= Anything _ _
            (Returns-sync_connection answers _ _ u.hono_url u.hono_template u.hono_not_null
              u.key_pair)
            λ hono _.
              Returns->>= Anything _ _
                (Returns-sync_connection answers _ _ u.export_url u.export_template
                  u.export_not_null u.key_pair)
                λ exported _.
                  Returns->>= Anything _ _
                    (Returns-request Anything "POST" _ _ _ (λ reply. pure (is_success reply))
                      u.policy_url (λ reply. Returns-pure Anything (is_success reply) tt))
                    λ policy _. Returns-pure Anything _ tt)
        (Returns-pure Anything false tt)
