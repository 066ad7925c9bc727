-- ===== src/Controller/Update.antt =====
-- services/dt4mob-controller/main.go (updateHonoTenant, getConnection, updateConnection,
-- updatePolicy, update) and utils/utils.go (PemPrivateKey, PemCertificateChain).
pub mod Patch
pub mod Fetch
pub mod Put
pub mod Connection
pub mod Retry
pub mod Delivered
pub mod Panics
mod Tests
use Prim.Native.String.{◌++◌}
use dt4mob_platform.Prelude.{
  ℕ, ltb, ◌==◌, Bool, true, false, not, ◌||◌, Option, none, some, List, [], ◌∷◌, if◌then◌else◌,
}
use dt4mob_platform.Prelude.Text.{String, insert, ◌==◌ as str_eq}
use dt4mob_platform.Json.{Json, bool, str, arr, obj, nil, cons, object}
use dt4mob_platform.Controller.State.{
  Config, KeyPair, State, missing_initialization, auth_header, ditto_hono_connection_url,
  ditto_export_connection_url, ditto_piggy_back_url, hono_tenant_url,
}
use dt4mob_platform.Controller.Http.{
  Request, Reply, Unmarshalled, bad_json, nil_map, a_map, Net, Codec, Outcome, returned, panicked,
  Http, ◌>>=◌, ◌>>◌, pure, panic,
}

-- A value, or an error that the caller logs.
pub data Fallible (A : Type 0) : Type 0 where
  ok : A → Fallible A
  err : Fallible A

-- PemCertificateChain
pub pem_certificate_chain : Codec → List String → String
pem_certificate_chain codec [] = ""
pem_certificate_chain codec (cert ∷ chain) =
    codec.pem_encode "CERTIFICATE" cert ++ pem_certificate_chain codec chain

pub credentials : Codec → KeyPair → String → Json
credentials codec pair key = obj (
    object (
      ("type", str "client-cert")
      ∷ ("cert", str (pem_certificate_chain codec pair.certificate))
      ∷ ("key", str key)
      ∷ []))

-- The four assignments of updateConnection.
pub patch_connection :
    Codec → State → KeyPair → String → List (String × Json) → List (String × Json)
patch_connection codec state pair key connection = insert "validateCertificates" (bool true) (
    insert "uri" (str ("ssl://" ++ state.kafka_host)) (
      insert "credentials" (credentials codec pair key)
        (insert "ca" (str state.ca_crt) connection)))

-- `res.StatusCode < 200 || res.StatusCode > 299` is an error.
abbrev pub is_success : Option Reply → Bool
is_success none = false
is_success (some res) = not (ltb res.status_code 200 || ltb 299 res.status_code)

abbrev pub parse_connection : Unmarshalled → Fallible Unmarshalled
parse_connection bad_json = err
parse_connection connection = ok connection

abbrev pub from_body : Codec → Option String → Fallible Unmarshalled
from_body codec none = err
from_body codec (some text) = parse_connection (codec.unmarshal text)

module _ {World : Type 0} (net : Net World) (codec : Codec) (config : Config) (state : State) where
  pub send : Request → Http World (Option Reply)
  send request w = let (reply, w') = net.send w request in (returned reply, w')

  -- State.JsonRequest and the `Authorization` header set on it; a URL that does not parse is a
  -- panic, and the bodies that are built here always marshal.
  json_request : String → String → Option String → Json → Http World Request
  json_request method url authorization body =
      if codec.is_url url
      then pure
          (record { method = method; url = url; authorization = authorization; body = some body })
      else panic

  auth : Option String
  auth = some (auth_header codec.base64 state)

  pub tenant_body : String → Json
  tenant_body cert = obj (
      object (
        (
          "trusted-ca",
          arr (
              cons
                (obj (
                  object (
                    ("id", str "operator-managed-ca")
                    ∷ ("cert", str (codec.base64 cert))
                    ∷ ("auto-provisioning-enabled", bool true)
                    ∷ ("auto-provisioning-device-id-template", str "{{subject-cn}}")
                    ∷ [])))
                nil),
        )
        ∷ []))

  -- Whether the tenant was left in doubt, from the reply to PUT.
  after_put : Option Reply → Bool
  after_put none = true
  after_put (some res) = if res.status_code == 204 then false else true

  after_post : Json → Option Reply → Http World Bool
  unfolding send json_request after_put
  after_post body none = pure true
  after_post body (some res) =
      if res.status_code == 201
      then pure false
      else if res.status_code == 409
      then (do
        request ← json_request "PUT" (hono_tenant_url state config) none body
        reply ← send request
        pure (after_put reply))
      else pure true

  put_tenant : Option String → Http World Bool
  unfolding send json_request tenant_body after_post
  put_tenant none = panic
  put_tenant (some cert) = do
    request ← json_request "POST" (hono_tenant_url state config) none (tenant_body cert)
    reply ← send request
    after_post (tenant_body cert) reply

  -- updateHonoTenant: whether it should be retried. A trust certificate that is no PEM is a nil
  -- block, which the body dereferences.
  unfoldable pub update_hono_tenant : Http World Bool
  unfolding put_tenant
  update_hono_tenant = put_tenant (codec.pem_decode state.trust_crt)

  abbrev from_template : Option String → Http World (Fallible Unmarshalled)
  from_template none = panic
  from_template (some text) = pure (parse_connection (codec.unmarshal text))

  pub read_connection :
      (String → String → Option String) → Option Reply → Http World (Fallible Unmarshalled)
  read_connection fallback none = pure err
  read_connection fallback (some res) =
      if res.status_code == 404
      then from_template (fallback state.tenant state.kafka_host)
      else if res.status_code == 200
      then pure (from_body codec res.body)
      else pure err

  -- getConnection
  unfoldable pub get_connection :
      String → (String → String → Option String) → Http World (Fallible Unmarshalled)
  unfolding send auth read_connection
  get_connection url fallback =
      if codec.is_url url
      then (do
        reply ← send (record { method = "GET"; url = url; authorization = auth; body = none })
        read_connection fallback reply)
      else panic

  put_connection : String → List (String × Json) → Http World Bool
  unfolding send json_request auth
  put_connection url connection = do
    request ← json_request "PUT" url auth (obj (object connection))
    reply ← send request
    pure (is_success reply)

  -- The first assignment to a nil map panics.
  assign : String → KeyPair → String → Unmarshalled → Http World Bool
  unfolding put_connection
  assign url pair key bad_json = pure false
  assign url pair key nil_map = panic
  assign url pair key (a_map connection) =
      put_connection url (patch_connection codec state pair key connection)

  pub with_key : String → Unmarshalled → KeyPair → Option String → Http World Bool
  unfolding assign
  with_key url connection pair none = pure false
  with_key url connection pair (some der) =
      assign url pair (codec.pem_encode "PRIVATE KEY" der) connection

  -- updateConnection: whether it succeeded. A nil key pair is dereferenced.
  pub update_with : String → Unmarshalled → Option KeyPair → Http World Bool
  unfolding with_key
  update_with url connection none = panic
  update_with url connection (some pair) =
      with_key url connection pair (codec.marshal_private_key pair.private_key)

  unfoldable pub update_connection : String → Unmarshalled → Http World Bool
  unfolding update_with
  update_connection url connection = update_with url connection state.key_pair

  pub policy_body : Json
  policy_body = obj (
      object (
        ("targetActorSelection", str "/system/sharding/policy")
        ∷ (
          "headers",
          obj (
              object (
                ("aggregate", bool false)
                ∷ ("is-group-topic", bool true)
                ∷ ("ditto-sudo", bool true)
                ∷ [])),
        )
        ∷ (
          "piggybackCommand",
          obj (
              object (
                ("type", str "policies.commands:modifyPolicy")
                ∷ (
                  "policy",
                  obj (
                      object (
                        ("policyId", str config.system_service_policy)
                        ∷ ("entries", state.system_service_policy)
                        ∷ [])),
                )
                ∷ [])),
        )
        ∷ []))

  -- updatePolicy: whether it succeeded.
  unfoldable pub update_policy : Http World Bool
  unfolding send json_request auth policy_body
  update_policy = do
    request ←
        json_request "POST" (ditto_piggy_back_url codec.decimal config "policies") auth policy_body
    reply ← send request
    pure (is_success reply)

  pub update_found : String → Fallible Unmarshalled → Http World Bool
  update_found url err = pure false
  update_found url (ok connection) = update_connection url connection

  -- One connection of `update`: fetch it, or make it from the template, and write it back.
  unfoldable pub sync_connection : String → (String → String → Option String) → Http World Bool
  unfolding update_found
  sync_connection url fallback = do found ← get_connection url fallback; update_found url found

  -- update: whether it should be retried.
  unfoldable pub update : Http World Bool
  update =
      if str_eq (missing_initialization state) ""
      then (do
        tenant_failed ← update_hono_tenant
        hono ←
            sync_connection (ditto_hono_connection_url state config) state.hono_connection_template
        exported ←
            sync_connection (ditto_export_connection_url state config)
              state.export_connection_template
        policy ← update_policy
        pure (tenant_failed || not hono || not exported || not policy))
      else pure false
