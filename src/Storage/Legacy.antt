-- ===== src/Storage/Legacy.antt =====
-- `migrate_legacy_config` of server-package/crates/frp-game-server/src/storage.rs, on what the
-- derived `serde` instances read of the old file. Absent fields have got their defaults there.
use orange_frp.Prelude.{
  ℕ, ◌+◌, Option, none, some, List, [], ◌∷◌, ◌++◌, map, nat_eq, list_eq, pair_eq, contains, Result,
  ok, ◌>>=◌, map_err, ok_or, Text, codes, trim,
}
use orange_frp.Json.{Value, get}
use orange_frp.Tunnel.{Tunnel, proxy_name_for, normalize_tunnels}
use orange_frp.Crypto.{Primitives, Bytes}
use orange_frp.Config.{
  ServerConfig, ServerUser, ProxyTrafficRecord, Error, unreadable_legacy, tunnel_error, Argon2,
  hash_password, encrypt_user_password, allocate_backend_port, new_user_id, default_plugin_port,
  default_public_bind,
}

pub record LegacyTrafficRecord : Type 0 where
  pub protocol : Text
  pub remote_port : ℕ
  pub traffic_in_bytes : ℕ
  pub traffic_out_bytes : ℕ

pub record LegacyUser : Type 0 where
  pub account : Text
  pub password : Text
  pub secret : Text
  pub tunnels : List Tunnel
  pub tunnel_limit : ℕ
  pub traffic_limit_bytes : ℕ
  pub traffic_used_bytes : ℕ
  pub speed_limit_mbps : ℕ
  pub traffic_by_proxy : List (Text × LegacyTrafficRecord)
  pub created_at : ℕ
  pub updated_at : ℕ

pub record LegacyServerConfig : Type 0 where
  pub api_salt : Text
  pub api_bind : Text
  pub api_port : ℕ
  pub frps_bind_port : ℕ
  pub frps_token : Text
  pub frps_binary : Text
  pub users : List LegacyUser
  pub created_at : ℕ
  pub updated_at : ℕ

pub record LegacySingleConfig : Type 0 where
  pub account : Text
  pub password : Text
  pub secret : Text
  pub api_salt : Text
  pub api_bind : Text
  pub api_port : ℕ
  pub frps_bind_port : ℕ
  pub frps_token : Text
  pub frps_binary : Text
  pub tunnels : List Tunnel
  pub tunnel_limit : ℕ
  pub created_at : ℕ
  pub updated_at : ℕ

-- The derived `Deserialize`.
pub record LegacyReader : Type 0 where
  pub server_config : Value → Option LegacyServerConfig
  pub single_config : Value → Option LegacySingleConfig

-- The configuration of one user as that of a server.
unfoldable pub of_single : LegacySingleConfig → LegacyServerConfig
of_single single = record {
  api_salt = single.api_salt;
  api_bind = single.api_bind;
  api_port = single.api_port;
  frps_bind_port = single.frps_bind_port;
  frps_token = single.frps_token;
  frps_binary = single.frps_binary;
  users =
      (record {
        account = single.account;
        password = single.password;
        secret = single.secret;
        tunnels = single.tunnels;
        tunnel_limit = single.tunnel_limit;
        traffic_limit_bytes = 0;
        traffic_used_bytes = 0;
        speed_limit_mbps = 0;
        traffic_by_proxy = [];
        created_at = single.created_at;
        updated_at = single.updated_at;
      })
      ∷ [];
  created_at = single.created_at;
  updated_at = single.updated_at;
}

unfoldable pub read_legacy : LegacyReader → Value → Result Error LegacyServerConfig
unfolding of_single get
read_legacy reader value = elim (get value (codes "users")) [
  | some users ↦ ok_or (reader.server_config value) unreadable_legacy
  | none ↦ do single ← ok_or (reader.single_config value) unreadable_legacy; ok (of_single single)
]

-- `used_ports` before the loop.
unfoldable pub public_ports_of : List LegacyUser → List ℕ
public_ports_of [] = []
public_ports_of (u ∷ us) = map (λ t. t.remote_port) u.tunnels ++ public_ports_of us

unfoldable pub used_ports_of : LegacyServerConfig → List ℕ
unfolding public_ports_of
used_ports_of legacy =
    legacy.api_port ∷ legacy.frps_bind_port ∷ default_plugin_port ∷ public_ports_of legacy.users

unfoldable pub migrate_traffic :
    List Text → List (Text × LegacyTrafficRecord) → List (Text × ProxyTrafficRecord)
migrate_traffic active [] = []
migrate_traffic active ((name, r) ∷ m) =
    (
      name,
      record {
        protocol = r.protocol;
        remote_port = r.remote_port;
        traffic_in_bytes = r.traffic_in_bytes;
        traffic_out_bytes = r.traffic_out_bytes;
        active = contains active name;
      },
    )
    ∷ migrate_traffic active m

module _ (prims : Primitives) (argon : Argon2) (uuid : ℕ → Text) (random : ℕ → Bytes) where
  -- Proxy names and backend ports, with the ports in use and the number of the next identifier.
  unfoldable pub assign_ports : ℕ → List ℕ → List Tunnel → Result Error (List Tunnel × List ℕ × ℕ)
  unfolding allocate_backend_port proxy_name_for
  assign_ports issued used [] = ok ([], used, issued)
  assign_ports issued used (t ∷ ts) = do
    (port, used1) ← allocate_backend_port used
    (rest, used2, issued') ← assign_ports (proxy_name_for uuid issued t.id).1 used1 ts
    ok (
      record t { proxy_name = (proxy_name_for uuid issued t.id).0; backend_port = port } ∷ rest,
      used2,
      issued',
    )

  -- A user draws a salt and a nonce, and gets an identifier last.
  unfoldable pub migrate_user :
      Text → ℕ → ℕ → List ℕ → LegacyUser → Result Error (ServerUser × List ℕ × ℕ)
  unfolding assign_ports migrate_traffic hash_password encrypt_user_password normalize_tunnels
  migrate_user api_salt issued drawn used u = do
    (tunnels, issued1) ← map_err tunnel_error (normalize_tunnels uuid issued u.tunnels)
    (assigned, used', issued2) ← assign_ports issued1 used tunnels
    password_hash ← hash_password argon (random drawn) u.password
    password_encrypted ←
        encrypt_user_password prims (random (drawn + 1)) api_salt u.secret u.password
    ok (
      record {
        id = new_user_id uuid issued2;
        account = trim u.account;
        password_hash = password_hash;
        password_encrypted = password_encrypted;
        secret = u.secret;
        tunnels = assigned;
        tunnel_limit = u.tunnel_limit;
        traffic_limit_bytes = u.traffic_limit_bytes;
        traffic_used_bytes = u.traffic_used_bytes;
        speed_limit_mbps = u.speed_limit_mbps;
        traffic_by_proxy =
            migrate_traffic (map (λ (t : Tunnel). t.proxy_name) assigned) u.traffic_by_proxy;
        created_at = u.created_at;
        updated_at = u.updated_at;
      },
      used',
      issued2 + 1,
    )

  unfoldable pub migrate_users :
      Text → ℕ → ℕ → List ℕ → List LegacyUser → Result Error (List ServerUser × ℕ × ℕ)
  unfolding migrate_user
  migrate_users api_salt issued drawn used [] = ok ([], issued, drawn)
  migrate_users api_salt issued drawn used (u ∷ us) = do
    (user, used', issued1) ← migrate_user api_salt issued drawn used u
    (users, issued2, drawn') ← migrate_users api_salt issued1 (drawn + 2) used' us
    ok (user ∷ users, issued2, drawn')

  unfoldable pub migrate_legacy_config :
      LegacyReader → Option Value → ℕ → ℕ → Result Error (ServerConfig × ℕ × ℕ)
  unfolding read_legacy used_ports_of migrate_users
  migrate_legacy_config reader contents issued drawn = do
    value ← ok_or contents unreadable_legacy
    legacy ← read_legacy reader value
    (users, issued', drawn') ←
        migrate_users legacy.api_salt issued drawn (used_ports_of legacy) legacy.users
    ok (
      record {
        revision = 0;
        api_salt = legacy.api_salt;
        api_bind = legacy.api_bind;
        api_port = legacy.api_port;
        frps_bind_port = legacy.frps_bind_port;
        frps_token = legacy.frps_token;
        frps_binary = legacy.frps_binary;
        plugin_port = default_plugin_port;
        public_bind = default_public_bind;
        users = users;
        created_at = legacy.created_at;
        updated_at = legacy.updated_at;
      },
      issued',
      drawn',
    )
