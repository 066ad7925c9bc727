-- ===== src/Controller/Http.antt =====
-- What the controller uses from outside: the HTTP client, and the codecs of Go's standard library.
-- A computation threads the world that answers the requests; it returns a value or panics.
pub mod Bind
use dt4mob_platform.Prelude.{ℕ, Bool, Option, List}
use dt4mob_platform.Prelude.Text.{String}
use dt4mob_platform.Json.{Json}
use dt4mob_platform.Controller.State.{KeyPair}

pub record Request : Type 0 where
  pub method : String
  pub url : String
  pub authorization : Option String
  pub body : Option Json

-- A body of `none` is one that `io.ReadAll` fails on.
pub record Reply : Type 0 where
  pub status_code : ℕ
  pub body : Option String

-- `json.Unmarshal` into a `map[string]any`: an error, the nil map that `null` leaves, or a map.
pub data Unmarshalled : Type 0 where
  bad_json : Unmarshalled
  nil_map : Unmarshalled
  a_map : List (String × Json) → Unmarshalled

-- `send` is `Client.Do`: `none` is an error of the transport.
pub record Net (World : Type 0) : Type 0 where
  pub send : World → Request → Option Reply × World

pub record Codec : Type 0 where
  pub base64 : String → String
  pub decimal : ℕ → String
  pub is_url : String → Bool  -- `http.NewRequest` accepts the URL
  pub pem_decode : String → Option String
  pub pem_encode : String → String → String
  pub marshal_private_key : String → Option String
  pub unmarshal : String → Unmarshalled
  pub x509_key_pair : String → String → Option KeyPair

pub data Outcome (A : Type 0) : Type 0 where
  returned : A → Outcome A
  panicked : Outcome A

abbrev pub Http : Type 0 → Type 0 → Type 0
Http World A = World → Outcome A × World

abbrev pub continue : {World A B : Type 0} → Outcome A → (A → Http World B) → Http World B
continue (returned a) f w = f a w
continue panicked f w = (panicked, w)

infixl 5 ◌>>=◌ ◌>>◌
abbrev pub ◌>>=◌ : {World A B : Type 0} → Http World A → (A → Http World B) → Http World B
◌>>=◌ m f w = let (r, w') = m w in continue r f w'

abbrev pub ◌>>◌ : {World B : Type 0} → Http World (Unit {0}) → Http World B → Http World B
m >> n = m >>= λ _. n

abbrev pub pure : {World A : Type 0} → A → Http World A
pure a w = (returned a, w)

abbrev pub panic : {World A : Type 0} → Http World A
panic w = (panicked, w)
