-- ===== src/Controller/Update/Delivered.antt =====
-- What the services have answered when `update` of main.go asks for no retry: updateHonoTenant,
-- updatePolicy and the two connections.
use dt4mob_platform.Prelude.{
  ◌≤◌, ◌==◌, ◌≡◌, ◌⊎◌, inl, inr, refl, Bool, true, false, not, ◌||◌, Option, none, some, Bool-cases,
  arith,
}
use dt4mob_platform.Prelude.Text.{String}
use dt4mob_platform.Json.{Json}
use dt4mob_platform.Controller.State.{
  Config, State, auth_header, ditto_hono_connection_url, ditto_export_connection_url,
  ditto_piggy_back_url, hono_tenant_url,
}
use dt4mob_platform.Controller.State.Missing.{IsInitialized}
use dt4mob_platform.Controller.Http.{Reply, Net, Codec, Http, ◌>>=◌, pure}
use dt4mob_platform.Controller.Http.Bind.{Runs, returned_value}
use dt4mob_platform.Controller.Update.{
  update, update_hono_tenant, put_tenant, after_post, after_put, tenant_body, update_policy,
  policy_body, send, json_request, auth, is_success,
}
use dt4mob_platform.Controller.Update.Fetch.{send_then}
use dt4mob_platform.Controller.Update.Put.{success_status}
use dt4mob_platform.Controller.Update.Connection.{IsSynced, sync_connection-true}
use dt4mob_platform.Controller.Update.Retry.{update-UpdateParts}

nothing_failed :
    (a b c d : Bool)
    → false ≡ (a || not b || not c || not d)
    → (a ≡ false) × (b ≡ true) × (c ≡ true) × (d ≡ true)
nothing_failed false true true true h = (refl, refl, refl, refl)
nothing_failed true b c d h = cc h
nothing_failed false false c d h = cc h
nothing_failed false true false d h = cc h
nothing_failed false true true false h = cc h

module _ {World : Type 0} (net : Net World) (codec : Codec) (config : Config) (state : State) where
  -- One request with a JSON body was sent, and answered with `reply`.
  abbrev pub IsAnswered :
      String → String → Option String → Json → World → Option Reply → World → Type 0
  IsAnswered method url authorization body w reply w' =
      net.send w
        (record { method = method; url = url; authorization = authorization; body = some body })
      ≡ (reply, w')

  request_then :
      (method url : String) (authorization : Option String) (body : Json)
      (f : Option Reply → Http World Bool) {b : Bool} {w w' : World}
      → Runs
          (json_request net codec config state method url authorization body >>= λ request.
            send net codec config state request >>= f)
          w
          b
          w'
      → (reply : Option Reply) × (u : World) × IsAnswered method url authorization body w reply u
        × Runs (f reply) u b w'
  unfolding json_request
  request_then method url authorization body f h = elim (Bool-cases (codec.is_url url)) [
    | inl e ↦ send_then net codec config state _ f (rw e at h)
    | inr e ↦ cc ((returned_value (rw e at h)).0)
  ]

  -- The tenant was made, or was there and has been replaced: POST answered with 201, or with 409 and
  -- then PUT with 204.
  pub record IsRegistered (w w' : World) : Type 0 where
    pub cert : String
    pub is_pem : codec.pem_decode state.trust_crt ≡ some cert
    pub post : Reply
    pub between : World
    pub posted :
        IsAnswered "POST"
          (hono_tenant_url state config)
          none
          (tenant_body net codec config state cert)
          w
          (some post)
          between
    pub accepted :
        ((post.status_code ≡ 201) × (between ≡ w'))
        ⊎ ((post.status_code ≡ 409)
            × (put : Reply) × IsAnswered "PUT"
                (hono_tenant_url state config)
                none
                (tenant_body net codec config state cert)
                between
                (some put)
                w'
            × (put.status_code ≡ 204))

  after_put-false :
      (reply : Option Reply)
      → after_put net codec config state reply ≡ false
      → (put : Reply) × (reply ≡ some put) × (put.status_code ≡ 204)
  unfolding after_put
  after_put-false none h = cc h
  after_put-false (some put) h = (put, refl, ground arith)

  after_post-false :
      (body : Json) (reply : Option Reply) {u w' : World}
      → Runs (after_post net codec config state body reply) u false w'
      → (post : Reply) × (reply ≡ some post)
        × (((post.status_code ≡ 201) × (u ≡ w'))
            ⊎ ((post.status_code ≡ 409)
                × (put : Reply) × IsAnswered "PUT"
                    (hono_tenant_url state config)
                    none
                    body
                    u
                    (some put)
                    w'
                × (put.status_code ≡ 204)))
  unfolding after_post
  after_post-false body none h = cc ((returned_value h).0)
  after_post-false body (some post) h = elim (Bool-cases (post.status_code == 201)) [
    | inl e ↦ (post, refl, inl (ground arith, (returned_value (rw e at h)).1))
    | inr e ↦ elim (Bool-cases (post.status_code == 409)) [
      | inl f ↦
          let (reply, u, asked, rest) =
            request_then "PUT" (hono_tenant_url state config) none body
              (λ reply. pure (after_put net codec config state reply)) (rw (e, f) at h) in
          let (good, same) = returned_value rest in
          let (put, replied, status) = after_put-false reply (cc good) in
          (post, refl, inr (ground arith, put, cc (asked, replied, same), status))
      | inr f ↦ cc ((returned_value (rw (e, f) at h)).0)
    ]
  ]

  put_tenant-false :
      (cert : Option String) {w w' : World}
      → codec.pem_decode state.trust_crt ≡ cert
      → Runs (put_tenant net codec config state cert) w false w'
      → IsRegistered w w'
  unfolding put_tenant
  put_tenant-false none e h = cc ((returned_value h).0)
  put_tenant-false (some cert) {w} {w'} e h =
      let body = tenant_body net codec config state cert in
      let (reply, u, asked, rest) =
        request_then "POST" (hono_tenant_url state config) none body
          (after_post net codec config state body) h in
      let (post, replied, accepted) = after_post-false body reply rest in
      record {
        cert = cert;
        is_pem = e;
        post = post;
        between = u;
        posted = cc (asked, replied);
        accepted = accepted;
      }

  -- The policy was posted to Ditto, which answered with a status of success.
  abbrev pub IsPosted : World → World → Type 0
  IsPosted w w' =
      (post : Reply) × IsAnswered "POST" (ditto_piggy_back_url codec.decimal config "policies")
        (some (auth_header codec.base64 state)) (policy_body net codec config state) w (some post)
        w'
      × (200 ≤ post.status_code)
      × (post.status_code ≤ 299)

  update_policy-true :
      {w w' : World} → Runs (update_policy net codec config state) w true w' → IsPosted w w'
  unfolding update_policy auth
  update_policy-true h =
      let (reply, u, asked, rest) =
        request_then "POST" (ditto_piggy_back_url codec.decimal config "policies")
          (some (auth_header codec.base64 state)) (policy_body net codec config state)
          (λ reply. pure (is_success reply)) h in
      let (good, same) = returned_value rest in
      let (post, replied, low, high) = success_status net codec config state "" reply (cc good) in
      (post, cc (asked, replied, same), low, high)

  -- The exchanges of an update that delivered all four of its parts, one after the other.
  pub record IsDelivered (w w' : World) : Type 0 where
    pub after_tenant : World
    pub after_hono : World
    pub after_export : World
    pub tenant : IsRegistered w after_tenant
    pub hono :
        IsSynced net codec config state
          (ditto_hono_connection_url state config)
          state.hono_connection_template
          after_tenant
          after_hono
    pub export :
        IsSynced net codec config state
          (ditto_export_connection_url state config)
          state.export_connection_template
          after_hono
          after_export
    pub policy : IsPosted after_export w'

  -- An update of an initialised state that returns without asking for a retry has delivered its four
  -- parts in order, and sent nothing else: the tenant was accepted with 201, or with 409 and then
  -- 204; both connections were read, or made where Ditto answered 404, and put back with a status of
  -- success; and so was the policy posted (IsDelivered).
  pub update-IsDelivered :
      {w w' : World}
      → IsInitialized state
      → Runs (update net codec config state) w false w'
      → IsDelivered w w'
  unfolding update_hono_tenant
  update-IsDelivered {w} {w'} init h =
      let parts = update-UpdateParts net codec config state w w' false init h in
      let (tenant, hono, export, policy) =
        nothing_failed parts.tenant_failed parts.hono parts.exported parts.policy parts.retry_eq in
      record {
        after_tenant = parts.after_tenant;
        after_hono = parts.after_hono;
        after_export = parts.after_export;
        tenant =
            put_tenant-false (codec.pem_decode state.trust_crt) refl
              (rw tenant at parts.tenant_ran);
        hono = sync_connection-true net codec config state _ _ (rw hono at parts.hono_ran);
        export = sync_connection-true net codec config state _ _ (rw export at parts.export_ran);
        policy = update_policy-true (rw policy at parts.policy_ran);
      }
