-- ===== src/Controller/Update/Fetch.antt =====
-- getConnection of the controller's main.go: where the settings that it returns are from.
use dt4mob_platform.Prelude.{
  ℕ, ◌≡◌, inl, inr, refl, true, Option, none, some, arith, ◌==◌, Bool-cases,
}
use dt4mob_platform.Prelude.Text.{String}
use dt4mob_platform.Controller.State.{Config, State, auth_header}
use dt4mob_platform.Controller.Http.{
  Request, Reply, Unmarshalled, bad_json, nil_map, a_map, Net, Codec, Outcome, returned, Http,
  ◌>>=◌,
}
use dt4mob_platform.Controller.Http.Bind.{Runs, >>=-Runs, returned_value}
use dt4mob_platform.Controller.Update.{
  ok, err, get_connection, send, auth, read_connection, from_template, from_body, parse_connection,
}

==-eq : (a b : ℕ) → (a == b) ≡ true → a ≡ b
==-eq a b h = ground arith

-- A connection that the controller could use: Ditto's own, or the template's where Ditto has none.
pub data ConnectionSource (codec : Codec) (state : State)
    (fallback : String → String → Option String) (connection : Unmarshalled) : Reply → Type 0 where
  from_ditto :
      (res : Reply) (text : String)
      → res.status_code ≡ 200
      → res.body ≡ some text
      → codec.unmarshal text ≡ connection
      → ConnectionSource codec state fallback connection res
  from_fallback :
      (res : Reply) (text : String)
      → res.status_code ≡ 404
      → fallback state.tenant state.kafka_host ≡ some text
      → codec.unmarshal text ≡ connection
      → ConnectionSource codec state fallback connection res

module _ {World : Type 0} (net : Net World) (codec : Codec) (config : Config) (state : State) where
  sent :
      (p : Option Reply × World) {reply : Option Reply} {u : World}
      → ◌≡◌ {A = Outcome (Option Reply) × World} (returned p.0, p.1) (returned reply, u)
      → p ≡ (reply, u)
  sent p h = ground arith

  send-Runs :
      (request : Request) {w u : World} {reply : Option Reply}
      → Runs (send net codec config state request) w reply u
      → net.send w request ≡ (reply, u)
  unfolding send
  send-Runs request {w} h = sent (net.send w request) h

  pub send_then :
      {B : Type 0} (request : Request) (f : Option Reply → Http World B) {w w' : World} {b : B}
      → Runs (send net codec config state request >>= f) w b w'
      → (reply : Option Reply) × (u : World) × (net.send w request ≡ (reply, u))
        × Runs (f reply) u b w'
  send_then request f h =
      let (reply, u, asked, rest) = >>=-Runs (send net codec config state request) f h in
      (reply, u, send-Runs request asked, rest)

module _ {World : Type 0} (net : Net World) (codec : Codec) (config : Config) (state : State)
    (url : String) (fallback : String → String → Option String) where
  parse-ok :
      (found : Unmarshalled) {connection : Unmarshalled}
      → parse_connection found ≡ ok connection
      → found ≡ connection
  parse-ok bad_json h = cc
  parse-ok nil_map h = cc
  parse-ok (a_map m) h = cc

  from_body-ok :
      (body : Option String) {connection : Unmarshalled}
      → from_body codec body ≡ ok connection
      → (text : String) × (body ≡ some text) × (codec.unmarshal text ≡ connection)
  from_body-ok none h = cc
  from_body-ok (some text) h = (text, refl, parse-ok _ h)

  from_template-ok :
      (made : Option String) {connection : Unmarshalled} {w u : World}
      → Runs (from_template net codec config state made) w (ok connection) u
      → (text : String) × (made ≡ some text) × (codec.unmarshal text ≡ connection) × (w ≡ u)
  from_template-ok none h = cc ((returned_value h).0)
  from_template-ok (some text) h =
      let (parsed, same) = returned_value h in (text, refl, parse-ok _ (cc parsed), same)

  read_connection-ok :
      (reply : Option Reply) {connection : Unmarshalled} {w u : World}
      → Runs (read_connection net codec config state fallback reply) w (ok connection) u
      → (got : Reply) × (reply ≡ some got)
        × ConnectionSource codec state fallback connection got
        × (w ≡ u)
  unfolding read_connection
  read_connection-ok none h = cc ((returned_value h).0)
  read_connection-ok (some res) {connection} h = elim (Bool-cases (res.status_code == 404)) [
    | inl e ↦
        let (text, made, parsed, same) = from_template-ok _ (rw e at h) in
        (res, refl, from_fallback res text (==-eq _ _ e) made parsed, same)
    | inr e ↦ elim (Bool-cases (res.status_code == 200)) [
      | inl f ↦
          let (parsed, same) = returned_value (rw (e, f) at h) in
          let (text, read, parsed') = from_body-ok res.body (cc parsed) in
          (res, refl, from_ditto res text (==-eq _ _ f) read parsed', same)
      | inr f ↦
          let (parsed, same) = returned_value (rw (e, f) at h) in
          let failed : err ≡ ok connection = cc parsed in cc failed
    ]
  ]

  pub get_connection-ok :
      {connection : Unmarshalled} {w u : World}
      → Runs (get_connection net codec config state url fallback) w (ok connection) u
      → (got : Reply) × (net.send w (record {
        method = "GET";
        url = url;
        authorization = some (auth_header codec.base64 state);
        body = none;
      })
          ≡ (some got, u))
        × ConnectionSource codec state fallback connection got
  unfolding get_connection auth
  get_connection-ok h = elim (Bool-cases (codec.is_url url)) [
    | inl e ↦
        let (reply, v, asked, rest) =
          send_then net codec config state _ (read_connection net codec config state fallback)
            (rw e at h) in
        let (got, replied, source, same) = read_connection-ok reply rest in
        (got, cc (asked, replied, same), source)
    | inr e ↦ cc ((returned_value (rw e at h)).0)
  ]
