-- ===== src/Controller/Update/Put.antt =====
-- updateConnection of the controller's main.go: the PUT behind a result without error.
use dt4mob_platform.Prelude.{
  ◌≤◌, ◌≡◌, inl, inr, refl, Bool, true, Option, none, some, List, arith, Bool-cases,
}
use dt4mob_platform.Prelude.Text.{String}
use dt4mob_platform.Json.{Json, obj, object}
use dt4mob_platform.Controller.State.{Config, KeyPair, State, auth_header}
use dt4mob_platform.Controller.Http.{
  Request, Reply, Unmarshalled, bad_json, nil_map, a_map, Net, Codec, Http, ◌>>=◌, pure,
}
use dt4mob_platform.Controller.Http.Bind.{Runs, returned_value}
use dt4mob_platform.Controller.Update.{
  Fallible, ok, err, patch_connection, update_connection, update_found, update_with, with_key,
  assign, put_connection, send, json_request, auth, is_success,
}
use dt4mob_platform.Controller.Update.Fetch.{send_then}

module _ {World : Type 0} (net : Net World) (codec : Codec) (config : Config) (state : State)
    (url : String) where
  request-Runs :
      (method : String) (body : Json) (f : Request → Http World Bool) {w w' : World}
      → Runs
          (json_request net codec config state method url (auth net codec config state) body >>= f)
          w
          true
          w'
      → Runs
          (f (record {
            method = method;
            url = url;
            authorization = some (auth_header codec.base64 state);
            body = some body;
          }))
          w
          true
          w'
  unfolding json_request auth
  request-Runs method body f h = elim (Bool-cases (codec.is_url url)) [
    | inl e ↦ rw e at h
    | inr e ↦ cc ((returned_value (rw e at h)).0)
  ]

  pub success_status :
      (reply : Option Reply)
      → is_success reply ≡ true
      → (put : Reply) × (reply ≡ some put) × (200 ≤ put.status_code) × (put.status_code ≤ 299)
  success_status none h = cc
  success_status (some put) h = (put, refl, ground arith, ground arith)

  -- The PUT that `put_connection` makes was answered with a status of success.
  abbrev pub IsPut : List (String × Json) → World → World → Type 0
  IsPut connection w w' =
      (put : Reply) × (net.send w (record {
        method = "PUT";
        url = url;
        authorization = some (auth_header codec.base64 state);
        body = some (obj (object connection));
      })
        ≡ (some put, w'))
      × (200 ≤ put.status_code)
      × (put.status_code ≤ 299)

  put_connection-true :
      (connection : List (String × Json)) {w w' : World}
      → Runs (put_connection net codec config state url connection) w true w'
      → IsPut connection w w'
  unfolding put_connection
  put_connection-true connection h =
      let (reply, u, asked, rest) =
        send_then net codec config state _ (λ reply. pure (is_success reply))
          (request-Runs "PUT" (obj (object connection))
            (λ request. send net codec config state request >>= λ reply. pure (is_success reply))
            h) in
      let (good, same) = returned_value rest in
      let (put, replied, low, high) = success_status reply (cc good) in
      (put, cc (asked, replied, same), low, high)

  assign-true :
      (pair : KeyPair) (key : String) (found : Unmarshalled) {w w' : World}
      → Runs (assign net codec config state url pair key found) w true w'
      → (connection : List (String × Json)) × (found ≡ a_map connection)
        × IsPut (patch_connection codec state pair key connection) w w'
  unfolding assign
  assign-true pair key bad_json h = cc ((returned_value h).0)
  assign-true pair key nil_map h = cc ((returned_value h).0)
  assign-true pair key (a_map connection) h = (connection, refl, put_connection-true _ h)

  pub with_key-true :
      (found : Unmarshalled) (pair : KeyPair) (der : Option String) {w w' : World}
      → Runs (with_key net codec config state url found pair der) w true w'
      → (bytes : String) × (der ≡ some bytes)
        × (connection : List (String × Json)) × (found ≡ a_map connection)
        × IsPut
            (patch_connection codec state pair (codec.pem_encode "PRIVATE KEY" bytes) connection)
            w
            w'
  unfolding with_key
  with_key-true found pair none h = cc ((returned_value h).0)
  with_key-true found pair (some bytes) h =
      let (connection, same, put) = assign-true pair _ found h in
      (bytes, refl, connection, same, put)

  pub update_found-true :
      (found : Fallible Unmarshalled) (w w' : World)
      → Runs (update_found net codec config state url found) w true w'
      → (connection : Unmarshalled) × (found ≡ ok connection)
        × Runs (update_with net codec config state url connection state.key_pair) w true w'
  unfolding update_found update_connection
  update_found-true err w w' h = cc ((returned_value h).0)
  update_found-true (ok connection) w w' h = (connection, refl, h)

  pub update_with-true :
      (connection : Unmarshalled) (held : Option KeyPair) (w w' : World)
      → Runs (update_with net codec config state url connection held) w true w'
      → (pair : KeyPair) × (held ≡ some pair)
        × Runs
            (with_key net codec config state url connection pair
              (codec.marshal_private_key pair.private_key))
            w
            true
            w'
  unfolding update_with
  update_with-true connection none w w' h = cc ((returned_value h).0)
  update_with-true connection (some pair) w w' h = (pair, refl, h)
