-- ===== src/Controller/Update/Patch.antt =====
-- What updateConnection of the controller's main.go writes into a connection.
use Prim.Native.String.{◌++◌}
use dt4mob_platform.Prelude.{◌≡◌, true, Option, some, List, if◌then◌else◌}
use dt4mob_platform.Prelude.Text.{String, lookup, lookup-insert, ◌==◌}
use dt4mob_platform.Json.{Json, bool, str}
use dt4mob_platform.Controller.State.{KeyPair, State}
use dt4mob_platform.Controller.Http.{Codec}
use dt4mob_platform.Controller.Update.{patch_connection, credentials}

module _ (codec : Codec) (state : State) (pair : KeyPair) (key : String)
    (connection : List (String × Json)) where
  -- The setting that a key should have after the update.
  abbrev pub managed_or_old : String → Option Json
  managed_or_old k =
      if "validateCertificates" == k
      then some (bool true)
      else if "uri" == k
      then some (str ("ssl://" ++ state.kafka_host))
      else if "credentials" == k
      then some (credentials codec pair key)
      else if "ca" == k
      then some (str state.ca_crt)
      else lookup k connection

  -- The connection that is written has the controller's CA, credentials, address and validation,
  -- whatever it had there before, and all its other settings as they were.
  pub lookup-patch_connection :
      (k : String) → lookup k (patch_connection codec state pair key connection) ≡ managed_or_old k
  unfolding patch_connection
  lookup-patch_connection k = simp lookup-insert
