-- ===== src/Api.antt =====
-- The requests of server-package/crates/frp-game-server/src/app.rs: who is authenticated, what a
-- user's summary says, and what the FRPS plugin answers. `subtle` belongs to another crate: the
-- comparison of two byte strings of one length is an argument.
pub mod Equal
pub mod Summary
pub mod Auth
pub mod Plugin
pub mod Tunnels
pub mod Handlers
pub mod Tests
use orange_frp.Prelude.{
  ℕ, ◌+◌, ◌-◌, Bool, false, not, ◌&&◌, ◌||◌, Option, none, some, List, [], ◌∷◌, ◌++◌, map, ltb, leb,
  nat_beq, if◌then◌else◌, ◌==◌, nat_eq, list_eq, pair_eq, any, find, Result, ok, err, Text, codes,
  to_ascii_uppercase, byte_len,
}
use orange_frp.Utf8.{as_bytes}
use orange_frp.Json.{Value, get_str}
use orange_frp.Tunnel.{Tunnel}
use orange_frp.Tunnel.Profile.{PortTrafficUsage, TrafficSummary}
use orange_frp.Crypto.{Bytes, Primitives, Envelope, decrypt_payload}
use orange_frp.Config.{
  ServerConfig, ServerUser, ProxyTrafficRecord, Error, auth_failed, Argon2, verify_password,
}
use orange_frp.Config.Sort.{text_leb, sort}

-- The order of the ports in a summary.
unfoldable pub port_leb : PortTrafficUsage → PortTrafficUsage → Bool
port_leb left right =
    ltb left.remote_port right.remote_port
    || (nat_beq left.remote_port right.remote_port && text_leb left.protocol right.protocol)

abbrev pub port_usage : Text × ProxyTrafficRecord → PortTrafficUsage
port_usage (proxy_name, r) = record {
  proxy_name = proxy_name;
  protocol = r.protocol;
  remote_port = r.remote_port;
  traffic_in_bytes = r.traffic_in_bytes;
  traffic_out_bytes = r.traffic_out_bytes;
}

unfoldable pub traffic_summary : ServerUser → TrafficSummary
traffic_summary user = record {
  limit_bytes = user.traffic_limit_bytes;
  used_bytes = user.traffic_used_bytes;
  remaining_bytes =
      if nat_beq user.traffic_limit_bytes 0
      then 0
      else user.traffic_limit_bytes - user.traffic_used_bytes;
  speed_limit_mbps = user.speed_limit_mbps;
  exhausted =
      ltb 0 user.traffic_limit_bytes && leb user.traffic_limit_bytes user.traffic_used_bytes;
  ports = sort port_leb (map port_usage user.traffic_by_proxy);
}

pub record AuthContext : Type 0 where
  pub user_index : ℕ
  pub payload : Value

-- What the plugin answers to FRPS.
pub data Answer : Type 0 where
  reject : Text → Answer
  unchanged : Answer

-- `eq_ignore_ascii_case`.
abbrev pub eq_ignore_ascii_case : Text → Text → Bool
eq_ignore_ascii_case s t = to_ascii_uppercase s == to_ascii_uppercase t

-- The test of one tunnel in `plugin_proxy_response`.
unfoldable pub is_registered : Text → Text → Text → ℕ → Tunnel → Bool
is_registered account proxy_name proxy_type remote_port tunnel =
    (tunnel.proxy_name == proxy_name || (account ++ (codes "." ++ tunnel.proxy_name)) == proxy_name)
    && eq_ignore_ascii_case tunnel.protocol proxy_type
    && nat_beq tunnel.backend_port remote_port

abbrev pub user_by_account : Text → List ServerUser → Option ServerUser
user_by_account account users = find (λ user. user.account == account) users

module _ (ct_eq : Bytes → Bytes → Bool) where
  unfoldable pub secure_equal : Text → Text → Bool
  secure_equal left right =
      nat_beq (byte_len left) (byte_len right) && ct_eq (as_bytes left) (as_bytes right)

  unfoldable pub plugin_login_response : ServerConfig → Text → Text → Answer
  unfolding secure_equal traffic_summary
  plugin_login_response config account secret = elim (user_by_account account config.users) [
    | none ↦ reject (codes "invalid user")
    | some user ↦
        if not (secure_equal secret user.secret)
        then reject (codes "invalid user secret")
        else if (traffic_summary user).exhausted
        then reject (codes "traffic quota exhausted")
        else unchanged
  ]

  unfoldable pub plugin_proxy_response : ServerConfig → Text → Text → Text → Text → ℕ → Answer
  unfolding secure_equal traffic_summary is_registered
  plugin_proxy_response config account secret proxy_name proxy_type remote_port =
      elim (user_by_account account config.users) [
        | none ↦ reject (codes "invalid user")
        | some user ↦
            if not (secure_equal secret user.secret) || (traffic_summary user).exhausted
            then reject (codes "user is not authorized")
            else if not (any (is_registered account proxy_name proxy_type remote_port) user.tunnels)
            then reject (codes "proxy is not registered in Orange FRP")
            else unchanged
      ]

  module _ (prims : Primitives) (argon : Argon2) where
    -- `map(...).unwrap_or(false)` on a field that is a text.
    abbrev pub tests_str : Option Text → (Text → Bool) → Bool
    tests_str none p = false
    tests_str (some s) p = p s

    -- The four tests of a decrypted payload.
    unfoldable pub is_authentic : Text → ServerUser → Value → Bool
    unfolding secure_equal verify_password
    is_authentic expected_operation user payload =
        tests_str (get_str payload (codes "op")) (λ s. s == expected_operation)
        && tests_str (get_str payload (codes "account")) (λ s. s == user.account)
        && tests_str (get_str payload (codes "key")) (λ key. secure_equal key user.secret)
        && tests_str (get_str payload (codes "password")) (verify_password argon user.password_hash)

    -- The loop over the users from an index on.
    unfoldable pub auth_from :
        ℕ → Text → Envelope → Text → ℕ → List ServerUser → Result Error AuthContext
    unfolding is_authentic
    auth_from now api_salt envelope expected_operation index [] = err auth_failed
    auth_from now api_salt envelope expected_operation index (user ∷ users) =
        let rest = auth_from now api_salt envelope expected_operation (index + 1) users in
        elim (decrypt_payload prims now user.secret api_salt envelope) [
          | err e ↦ rest
          | ok payload ↦
              if is_authentic expected_operation user payload
              then ok (record { user_index = index; payload = payload })
              else rest
        ]

    unfoldable pub decrypt_and_auth : ℕ → ServerConfig → Envelope → Text → Result Error AuthContext
    unfolding auth_from
    decrypt_and_auth now config envelope expected_operation =
        auth_from now config.api_salt envelope expected_operation 0 config.users
