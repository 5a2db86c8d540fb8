-- ===== src/Api/Handlers.antt =====
-- The handlers of server-package/crates/frp-game-server/src/app.rs, over the state that they share.
-- The clocks, the nonce of the answer and whether FRPS is online are arguments of a request;
-- `Storage::save` and the serde of tunnel lists and answers are parameters.
pub mod Saving
pub mod Stored
pub mod Tests
use orange_frp.Prelude.{
  ℕ, zero, suc, Bool, true, false, not, ◌||◌, Option, none, some, List, [], ◌∷◌, ltb, if◌then◌else◌,
  Eq, ◌==◌, nat_eq, list_eq, pair_eq, get_elem?, map_values, upsert, ok, err, Text, codes,
}
use orange_frp.Json.{Value, get, get_str, as_u64, and_then}
use orange_frp.Tunnel.{Tunnel}
use orange_frp.Tunnel.Profile.{TrafficSummary}
use orange_frp.Crypto.{Bytes, Primitives, Envelope, encrypt_payload}
use orange_frp.Config.{ServerConfig, ServerUser, ProxyTrafficRecord, Error, Argon2}
use orange_frp.Floats.{Float}
use orange_frp.Replay.{ReplayGuard, accept, Key}
use orange_frp.RateLimit.{ApiRateLimiter, allow}
use orange_frp.Controller.{TrafficController}
use orange_frp.Api.{
  Answer, reject, unchanged, traffic_summary, decrypt_and_auth, plugin_login_response,
  plugin_proxy_response,
}

-- `unwrap_or_default`.
abbrev pub text_at : Option Text → Text
text_at none = []
text_at (some s) = s

-- `u16::try_from(port).ok()`, then `unwrap_or_default`.
abbrev pub port_at : Option ℕ → ℕ
port_at none = 0
port_at (some n) = if ltb n 65536 then n else 0

-- The answers, one for each body or message.
pub data Reply : Type 0 where
  session : ℕ → Text → List Tunnel → ℕ → TrafficSummary → Reply
  tunnel_list : List Tunnel → ℕ → TrafficSummary → Reply
  usage_report : ℕ → TrafficSummary → Reply
  greeting : Text → ℕ → ℕ → Bool → Reply
  repeated_request quota_used_up bad_tunnel_list storage_failed unknown_action : Reply
  refused listen_failed : Error → Reply
  too_many_requests unauthenticated internal_error : Reply

-- A status with a body, in the clear or sealed for a user.
pub data Response : Type 0 where
  plain : ℕ → Reply → Response
  sealed : ℕ → Envelope → Response

-- What the environment adds to a request.
pub record Context (IpAddr : Type 0) : Type 0 where
  pub ip : IpAddr
  pub instant : ℕ
  pub unix : ℕ
  pub nonce : Bytes
  pub online : Bool

pub record ApiState (F IpAddr S : Type 0) : Type 0 where
  pub config : ServerConfig
  pub storage : S
  pub controller : Option (TrafficController F)
  pub replay : ReplayGuard
  pub rate_limit : ApiRateLimiter F IpAddr
  pub issued : ℕ

-- `for record in traffic_by_proxy.values_mut() { record.active = false; }`.
abbrev pub deactivate : ProxyTrafficRecord → ProxyTrafficRecord
deactivate r = record r { active = false }

-- `entry(...).or_insert_with(...).active = true` for each tunnel.
unfoldable pub activate :
    List Tunnel → List (Text × ProxyTrafficRecord) → List (Text × ProxyTrafficRecord)
activate [] records = records
activate (t ∷ ts) records = activate ts (
    upsert t.proxy_name
      (record {
        protocol = t.protocol;
        remote_port = t.remote_port;
        traffic_in_bytes = 0;
        traffic_out_bytes = 0;
        active = true;
      })
      (λ r. record r { active = true }) records)

-- The user with the new tunnels.
unfoldable pub with_tunnels : ℕ → List Tunnel → ServerUser → ServerUser
unfolding activate
with_tunnels unix tunnels user = record user {
  traffic_by_proxy = activate tunnels (map_values deactivate user.traffic_by_proxy);
  tunnels = tunnels;
  updated_at = unix;
}

abbrev pub update_at {ℓ} : {A : Type ℓ} → ℕ → (A → A) → List A → List A
update_at i f [] = []
update_at zero f (x ∷ xs) = f x ∷ xs
update_at (suc i) f (x ∷ xs) = x ∷ update_at i f xs

-- `candidate`, before it is saved.
unfoldable pub candidate_of : ℕ → ℕ → List Tunnel → ServerConfig → ServerConfig
unfolding with_tunnels
candidate_of unix user_index tunnels config = record config {
  users = update_at user_index (with_tunnels unix tunnels) config.users;
  updated_at = unix;
}

module _ (S IpAddr : Type 0) ⦃e : Eq IpAddr⦄ (fl : Float) (prims : Primitives)
    (to_json : Reply → Value) where
  open fl use {F, of_ℕ}

  abbrev pub State : Type 0
  State = ApiState F IpAddr S

  unfoldable pub encrypted_response : Context IpAddr → Text → ServerUser → ℕ → Reply → Response
  encrypted_response m api_salt user status body =
      elim (encrypt_payload prims m.unix m.nonce user.secret api_salt (to_json body)) [
        | ok envelope ↦ sealed status envelope
        | err error ↦ plain 500 internal_error
      ]

  -- `check_rate`.
  unfoldable pub check_rate : Context IpAddr → ℕ → State → State × Bool
  check_rate m cost s =
      let (limiter, allowed) = allow fl m.instant m.ip (of_ℕ cost) s.rate_limit in
      (record s { rate_limit = limiter }, allowed)

  unfoldable pub hello : Context IpAddr → State → State × Response
  unfolding check_rate
  hello m s =
      let (s1, allowed) = check_rate m 1 s in
      if not allowed then (s1, plain 429 too_many_requests) else (
        s1,
        plain 200
            (greeting s1.config.api_salt s1.config.api_port s1.config.frps_bind_port m.online),
      )

  module _ (sha256 : List ℕ → Key) (ct_eq : Bytes → Bytes → Bool) (argon : Argon2) where
    unfoldable pub accept_replay :
        Context IpAddr → ServerUser → Text → Envelope → State → State × Bool
    accept_replay m user operation envelope s =
        let (guard, fresh) = accept sha256 m.instant user.id operation envelope.nonce s.replay in
        (record s { replay = guard }, fresh)

    -- The token is withheld without quota or while FRPS is down.
    unfoldable pub login_reply : Context IpAddr → ServerConfig → ServerUser → Reply
    unfolding traffic_summary
    login_reply m config user =
        session config.frps_bind_port
          (if (traffic_summary user).exhausted || not m.online then [] else config.frps_token)
          user.tunnels user.tunnel_limit (traffic_summary user)

    -- What follows the authentication, for the user at the index.
    abbrev pub for_user : State → ℕ → (ServerUser → State × Response) → State × Response
    for_user s index k = elim (get_elem? s.config.users index) [
      | none ↦ (s, plain 500 internal_error)
      | some user ↦ k user
    ]

    unfoldable pub login : Context IpAddr → Envelope → State → State × Response
    unfolding check_rate accept_replay encrypted_response login_reply
    login m envelope s =
        let (s1, allowed) = check_rate m 8 s in
        if not allowed
        then (s1, plain 429 too_many_requests)
        else elim (decrypt_and_auth ct_eq prims argon m.unix s1.config envelope (codes "login")) [
          | err error ↦ (s1, plain 401 unauthenticated)
          | ok auth ↦ for_user s1 auth.user_index λ user.
              let (s2, fresh) = accept_replay m user (codes "login") envelope s1 in
              if not fresh then (s2, plain 409 repeated_request) else (
                s2,
                encrypted_response m s2.config.api_salt user 200 (login_reply m s2.config user),
              )
        ]

    unfoldable pub usage : Context IpAddr → Envelope → State → State × Response
    unfolding check_rate accept_replay encrypted_response traffic_summary
    usage m envelope s =
        let (s1, allowed) = check_rate m 2 s in
        if not allowed
        then (s1, plain 429 too_many_requests)
        else elim (decrypt_and_auth ct_eq prims argon m.unix s1.config envelope (codes "usage")) [
          | err error ↦ (s1, plain 401 unauthenticated)
          | ok auth ↦ for_user s1 auth.user_index λ user.
              let (s2, fresh) = accept_replay m user (codes "usage") envelope s1 in
              if not fresh
              then (s2, encrypted_response m s2.config.api_salt user 409 repeated_request)
              else (
                s2,
                encrypted_response m s2.config.api_salt user 200
                    (usage_report user.tunnel_limit (traffic_summary user)),
              )
        ]

    -- The part of `frps_plugin` behind the reading of the request.
    unfoldable pub frps_plugin : Text → Value → ServerConfig → Answer
    unfolding plugin_login_response plugin_proxy_response
    frps_plugin operation content config =
        if operation == codes "Login"
        then plugin_login_response ct_eq config (text_at (get_str content (codes "user"))) (
            text_at (
              and_then (get content (codes "metas"))
                (λ metas. get_str metas (codes "orange_secret"))))
        else if operation == codes "NewProxy"
        then plugin_proxy_response ct_eq config
            (text_at (and_then (get content (codes "user")) (λ user. get_str user (codes "user"))))
            (text_at (
              and_then (and_then (get content (codes "user")) (λ user. get user (codes "metas")))
                (λ metas. get_str metas (codes "orange_secret"))))
            (text_at (get_str content (codes "proxy_name")))
            (text_at (get_str content (codes "proxy_type")))
            (port_at (and_then (get content (codes "remote_port")) as_u64))
        else if operation == codes "CloseProxy"
        then unchanged
        else reject (codes "unsupported operation")
