-- ===== src/Config.antt =====
-- The server's configuration: the types, the passwords and the port allocation of
-- server-package/crates/frp-game-server/src/storage.rs. Revisions and times are not negative.
-- Argon2 belongs to another crate: `Argon2` holds what is called of it.
pub mod Ports
pub mod Sort
pub mod Normalize
pub mod Valid
pub mod Tests
use orange_frp.Prelude.{
  ℕ, zero, suc, ◌+◌, ◌-◌, ◌^◌, min, Bool, Option, none, some, List, [], ◌∷◌, ltb, if◌then◌else◌,
  nat_eq, list_eq, pair_eq, take, contains, Result, ok, err, ◌>>=◌, ◌>>◌, map_err, ok_or, Text,
  codes, is_empty, trim,
}
use orange_frp.Tunnel.{Tunnel, FrpGameError, max_tunnel_limit}
use orange_frp.Crypto.{CryptoError, Primitives, Bytes, encrypt_stored_text, decrypt_stored_text}

pub record ProxyTrafficRecord : Type 0 where
  pub protocol : Text
  pub remote_port : ℕ
  pub traffic_in_bytes : ℕ
  pub traffic_out_bytes : ℕ
  pub active : Bool

pub record ServerUser : Type 0 where
  pub id : Text
  pub account : Text
  pub password_hash : Text
  pub password_encrypted : Text
  pub secret : Text
  pub tunnels : List Tunnel
  pub tunnel_limit : ℕ
  pub traffic_limit_bytes : ℕ
  pub traffic_used_bytes : ℕ
  pub speed_limit_mbps : ℕ
  pub traffic_by_proxy : List (Text × ProxyTrafficRecord)
  pub created_at : ℕ
  pub updated_at : ℕ

pub record ServerConfig : Type 0 where
  pub revision : ℕ
  pub api_salt : Text
  pub api_bind : Text
  pub api_port : ℕ
  pub frps_bind_port : ℕ
  pub frps_token : Text
  pub frps_binary : Text
  pub plugin_port : ℕ
  pub public_bind : Text
  pub users : List ServerUser
  pub created_at : ℕ
  pub updated_at : ℕ

-- The failures of storage.rs and app.rs, one for each message.
pub data Error : Type 0 where
  zero_port port_clash blank_bind bad_salt incomplete_auth : Error
  bad_account duplicate_user_id blank_hash bad_secret bad_password : Error
  limit_too_large too_many_tunnels duplicate_tunnel reserved_port : Error
  public_port_taken bad_backend_port public_backend_clash no_backend_port : Error
  empty_password hash_failed counter_too_large : Error
  not_initialized already_initialized stale_revision constraint_failed : Error
  over_tunnel_limit bad_tunnel_id backend_clash proxy_name_taken : Error
  column_out_of_range unreadable_legacy input_ended bad_number number_too_large : Error
  unreachable_protocol index_out_of_range auth_failed invalid_account invalid_password account_taken
        no_such_gate bind_failed :
      Error
  tunnel_error : FrpGameError → Error
  crypto_error : CryptoError → Error

abbrev pub default_plugin_port : ℕ
default_plugin_port = 7632

abbrev pub default_public_bind : Text
default_public_bind = codes "0.0.0.0"

abbrev pub backend_port_start : ℕ
backend_port_start = 20000

abbrev pub backend_port_end : ℕ
backend_port_end = 59999

abbrev pub max_tunnels_per_user : ℕ
max_tunnels_per_user = max_tunnel_limit

abbrev pub u64_max : ℕ
u64_max = 2 ^ 64 - 1

abbrev pub i64_max : ℕ
i64_max = 2 ^ 63 - 1

-- `u64::saturating_add`.
unfoldable pub saturating_add : ℕ → ℕ → ℕ
saturating_add a b = min (a + b) u64_max

-- The ports that the server itself listens on.
abbrev pub reserved_ports : ServerConfig → List ℕ
reserved_ports c = c.api_port ∷ c.frps_bind_port ∷ c.plugin_port ∷ []

-- `for port in start..=end { if used_ports.insert(port) { return Ok(port) } }`, on the number of
-- ports that are left.
unfoldable pub allocate_from : ℕ → ℕ → List ℕ → Option (ℕ × List ℕ)
allocate_from zero port used = none
allocate_from (suc left) port used =
    let rest = allocate_from left (port + 1) used in
    if contains used port then rest else some (port, port ∷ used)

-- The port, and the set with it.
unfoldable pub allocate_backend_port : List ℕ → Result Error (ℕ × List ℕ)
allocate_backend_port used =
    ok_or (allocate_from (backend_port_end + 1 - backend_port_start) backend_port_start used)
      no_backend_port

-- `i64::try_from` of a counter that goes into SQLite.
unfoldable pub sql_i64 : ℕ → Result Error ℕ
sql_i64 value = if ltb i64_max value then err counter_too_large else ok value

-- `argon2`: the hash of a password with a random salt, and the test of a password. A text that is no
-- hash fails the test.
pub record Argon2 : Type 0 where
  pub hash : Bytes → Text → Option Text
  pub verify : Text → Text → Bool

module _ (argon : Argon2) where
  unfoldable pub hash_password : Bytes → Text → Result Error Text
  hash_password salt password =
      if is_empty password then err empty_password else ok_or (argon.hash salt password) hash_failed

  unfoldable pub verify_password : Text → Text → Bool
  verify_password password_hash password = argon.verify password_hash password

module _ (prims : Primitives) where
  unfoldable pub encrypt_user_password : Bytes → Text → Text → Text → Result Error Text
  encrypt_user_password nonce api_salt secret password =
      if is_empty password
      then err empty_password
      else map_err crypto_error (encrypt_stored_text prims nonce secret api_salt password)

  unfoldable pub decrypt_user_password : Text → Text → Text → Result Error (Option Text)
  decrypt_user_password api_salt secret password_encrypted =
      if is_empty (trim password_encrypted) then ok none else do
        password ←
            map_err crypto_error (decrypt_stored_text prims secret api_salt password_encrypted)
        ok (some password)

-- `new_user_id`.
abbrev pub new_user_id : (ℕ → Text) → ℕ → Text
new_user_id uuid n = take 16 (uuid n)
