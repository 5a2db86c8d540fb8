-- ===== src/Api/Handlers/Saving.antt =====
-- The handler `tunnels` of server-package/crates/frp-game-server/src/app.rs: listing, and saving with
-- the rollback when a port cannot be bound.
use orange_frp.Prelude.{
  ℕ, Bool, false, not, Option, none, some, List, if◌then◌else◌, Eq, ◌==◌, nat_eq, list_eq, pair_eq,
  get_elem?, or_default, Result, ok, err, Text, codes,
}
use orange_frp.Json.{Value, null, get, get_str}
use orange_frp.Tunnel.{Tunnel}
use orange_frp.Crypto.{Bytes, Primitives, Envelope}
use orange_frp.Config.{ServerConfig, ServerUser, Error, Argon2}
use orange_frp.Floats.{Float}
use orange_frp.Replay.{Key}
use orange_frp.Controller.{TunnelSpec, reconcile}
use orange_frp.Api.{traffic_summary, decrypt_and_auth}
use orange_frp.Api.Tunnels.{normalize_user_tunnels}
use orange_frp.Api.Handlers.{
  Reply, Response, Context, ApiState, plain, tunnel_list, repeated_request, quota_used_up,
  bad_tunnel_list, storage_failed, unknown_action, refused, listen_failed, too_many_requests,
  unauthenticated, internal_error, candidate_of, encrypted_response, check_rate, accept_replay,
}

-- `cloned().unwrap_or(Value::Null)`.
abbrev pub value_at : Option Value → Value
value_at none = null
value_at (some v) = v

-- `&config.users[index]`; the save keeps the index in range, and the old user stands for the panic.
abbrev pub user_at : ℕ → ServerConfig → ServerUser → ServerUser
user_at index config user = or_default user (get_elem? config.users index)

abbrev pub listing : ServerUser → Reply
listing user = tunnel_list user.tunnels user.tunnel_limit (traffic_summary user)

abbrev pub is_action : Option Text → Text → Bool
is_action none name = false
is_action (some action) name = action == name

module _ (S IpAddr : Type 0) ⦃e : Eq IpAddr⦄ (fl : Float) (prims : Primitives)
    (to_json : Reply → Value) (save : S → ServerConfig → S × Result Error ServerConfig)
    (bind : ℕ → TunnelSpec → Bool) where
  open fl use {F}

  -- The state and the status with the body after the first save has succeeded.
  unfoldable pub apply_saved :
      Context IpAddr
      → ServerConfig
      → ServerUser
      → ℕ
      → ApiState F IpAddr S
      → ApiState F IpAddr S × ℕ × Reply
  apply_saved m candidate user index s = elim s.controller [
    | none ↦ (record s { config = candidate }, 200, listing (user_at index candidate user))
    | some controller ↦
        let (controller1, started) = reconcile fl bind m.instant candidate controller in
        elim started [
          | ok done ↦ (
            record s { config = candidate; controller = some controller1 },
            200,
            listing (user_at index candidate user),
          )
          | err error ↦
              let (storage1, rolled_back) =
                save s.storage (record s.config { revision = candidate.revision }) in
              elim rolled_back [
                | ok rollback ↦ (
                  record s {
                    config = rollback;
                    storage = storage1;
                    controller = some (reconcile fl bind m.instant rollback controller1).0;
                  },
                  409,
                  listen_failed error,
                )
                | err failure ↦ (
                  record s { storage = storage1; controller = some controller1 },
                  409,
                  listen_failed error,
                )
              ]
        ]
  ]

  -- The branch "save" behind the normalisation.
  unfoldable pub save_tunnels :
      Context IpAddr
      → List Tunnel
      → ServerUser
      → ℕ
      → ApiState F IpAddr S
      → ApiState F IpAddr S × ℕ × Reply
  unfolding apply_saved
  save_tunnels m normalized user index s =
      let (storage1, saved) = save s.storage (candidate_of m.unix index normalized s.config) in
      elim saved [
        | err error ↦ (record s { storage = storage1 }, 500, storage_failed)
        | ok candidate ↦ apply_saved m candidate user index (record s { storage = storage1 })
      ]

  module _ (sha256 : List ℕ → Key) (ct_eq : Bytes → Bytes → Bool) (argon : Argon2) (uuid : ℕ → Text)
      (parse_tunnels : Value → Option (List Tunnel)) where
    -- The branch "save".
    unfoldable pub save_action :
        Context IpAddr
        → Value
        → ServerUser
        → ℕ
        → ApiState F IpAddr S
        → ApiState F IpAddr S × ℕ × Reply
    unfolding save_tunnels
    save_action m payload user index s =
        if (traffic_summary user).exhausted
        then (s, 403, quota_used_up)
        else elim (parse_tunnels (value_at (get payload (codes "tunnels")))) [
          | none ↦ (s, 400, bad_tunnel_list)
          | some tunnels ↦ elim (normalize_user_tunnels uuid s.issued s.config index tunnels) [
            | err error ↦ (s, 400, refused error)
            | ok (normalized, issued) ↦
                save_tunnels m normalized user index (record s { issued = issued })
          ]
        ]

    unfoldable pub tunnels_action :
        Context IpAddr
        → Value
        → ServerUser
        → ℕ
        → ApiState F IpAddr S
        → ApiState F IpAddr S × ℕ × Reply
    unfolding save_action
    tunnels_action m payload user index s =
        let action = get_str payload (codes "action") in
        if is_action action (codes "list")
        then (s, 200, listing user)
        else if is_action action (codes "save")
        then save_action m payload user index s
        else (s, 400, unknown_action)

    unfoldable pub tunnels :
        Context IpAddr → Envelope → ApiState F IpAddr S → ApiState F IpAddr S × Response
    unfolding tunnels_action
    tunnels m envelope s =
        let (s1, allowed) = check_rate S IpAddr fl prims to_json m 3 s in
        if not allowed
        then (s1, plain 429 too_many_requests)
        else elim (decrypt_and_auth ct_eq prims argon m.unix s1.config envelope (codes "tunnels")) [
          | err error ↦ (s1, plain 401 unauthenticated)
          | ok auth ↦ elim (get_elem? s1.config.users auth.user_index) [
            | none ↦ (s1, plain 500 internal_error)
            | some user ↦
                let (s2, fresh) =
                  accept_replay S IpAddr fl prims to_json sha256 ct_eq argon m user
                    (codes "tunnels") envelope s1 in
                if not fresh
                then (
                  s2,
                  encrypted_response S IpAddr fl prims to_json m s2.config.api_salt user 409
                      repeated_request,
                )
                else let (s3, status, body) =
                    tunnels_action m auth.payload user auth.user_index s2 in
                  (
                    s3,
                    encrypted_response S IpAddr fl prims to_json m s3.config.api_salt
                        (user_at auth.user_index s3.config user) status body,
                  )
          ]
        ]
