-- ===== src/Controller/Update/Connection.antt =====
-- When a connection counts as synchronised: getConnection and updateConnection of the controller's
-- main.go.
use dt4mob_platform.Prelude.{◌≤◌, ◌≡◌, true, Option, none, some, List}
use dt4mob_platform.Prelude.Text.{String}
use dt4mob_platform.Json.{Json, obj, object}
use dt4mob_platform.Controller.State.{Config, KeyPair, State, auth_header}
use dt4mob_platform.Controller.Http.{Reply, a_map, Net, Codec}
use dt4mob_platform.Controller.Http.Bind.{Runs, >>=-Runs}
use dt4mob_platform.Controller.Update.{
  ok, patch_connection, get_connection, sync_connection, update_found,
}
use dt4mob_platform.Controller.Update.Fetch.{ConnectionSource, get_connection-ok}
use dt4mob_platform.Controller.Update.Put.{with_key-true, update_found-true, update_with-true}

module _ {World : Type 0} (net : Net World) (codec : Codec) (config : Config) (state : State)
    (url : String) (fallback : String → String → Option String) where
  -- The two exchanges of a connection that was synchronised.
  pub record IsSynced (w w' : World) : Type 0 where
    pub got : Reply
    pub middle : World
    pub asked :
        net.send w (record {
          method = "GET";
          url = url;
          authorization = some (auth_header codec.base64 state);
          body = none;
        })
        ≡ (some got, middle)
    pub found : List (String × Json)
    pub source : ConnectionSource codec state fallback (a_map found) got
    pub pair : KeyPair
    pub der : String
    pub held : state.key_pair ≡ some pair
    pub marshalled : codec.marshal_private_key pair.private_key ≡ some der
    pub put : Reply
    pub written :
        net.send middle (record {
          method = "PUT";
          url = url;
          authorization = some (auth_header codec.base64 state);
          body = some (
              obj (
                object
                  (patch_connection codec state pair (codec.pem_encode "PRIVATE KEY" der) found)));
        })
        ≡ (some put, w')
    pub accepted : (200 ≤ put.status_code) × (put.status_code ≤ 299)

  -- A connection is reported as synchronised only if its settings were read from Ditto, or made
  -- from the template where Ditto answered 404, and a PUT of them, patched with the controller's
  -- credentials, was answered with a status from 200 to 299; nothing else was sent.
  pub sync_connection-true :
      {w w' : World}
      → Runs (sync_connection net codec config state url fallback) w true w'
      → IsSynced w w'
  unfolding sync_connection
  sync_connection-true {w} {w'} h =
      let (found, u, fetched, rest) =
        >>=-Runs (get_connection net codec config state url fallback)
          (update_found net codec config state url) h in
      let (connection, is_ok, updated) =
        update_found-true net codec config state url found u w' rest in
      let (pair, held, keyed) =
        update_with-true net codec config state url connection state.key_pair u w' updated in
      let (bytes, marshalled, entries, same, put) =
        with_key-true net codec config state url connection pair
          (codec.marshal_private_key pair.private_key) keyed in
      let is_map : found ≡ ok (a_map entries) = cc (is_ok, same) in
      let (got, asked, source) =
        get_connection-ok net codec config state url fallback (rw is_map at fetched) in
      record {
        got = got;
        middle = u;
        asked = asked;
        found = entries;
        source = source;
        pair = pair;
        der = bytes;
        held = held;
        marshalled = marshalled;
        put = put.0;
        written = put.1;
        accepted = (put.2, put.3);
      }
