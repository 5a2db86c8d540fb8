-- ===== src/Storage/Tables.antt =====
-- The tables that `create_schema` of server-package/crates/frp-game-server/src/storage.rs declares,
-- with their constraints, and the statements of `write_snapshot` on them. A table is a map from its
-- primary key; `settings` has one row. A statement that violates a constraint fails.
use orange_frp.Prelude.{
  ℕ, Bool, false, not, ◌&&◌, ◌||◌, Option, none, some, List, [], ◌∷◌, if◌then◌else◌, ◌==◌, nat_eq,
  list_eq, pair_eq, any, retain, lookup, insert, remove, contains_key, Result, ok, ◌>>◌, fail_if,
  Text,
}
use orange_frp.Tunnel.{Tunnel, tcp, udp}
use orange_frp.Config.{ServerConfig, ServerUser, ProxyTrafficRecord, Error, constraint_failed}

pub record SettingsRow : Type 0 where
  pub revision : ℕ
  pub api_salt : Text
  pub api_bind : Text
  pub api_port : ℕ
  pub frps_bind_port : ℕ
  pub frps_token : Text
  pub frps_binary : Text
  pub plugin_port : ℕ
  pub public_bind : Text
  pub created_at : ℕ
  pub updated_at : ℕ

pub record UserRow : Type 0 where
  pub account : Text
  pub password_hash : Text
  pub password_encrypted : Text
  pub secret : Text
  pub tunnel_limit : ℕ
  pub traffic_limit_bytes : ℕ
  pub traffic_used_bytes : ℕ
  pub speed_limit_mbps : ℕ
  pub created_at : ℕ
  pub updated_at : ℕ

pub record TunnelRow : Type 0 where
  pub user_id : Text
  pub proxy_name : Text
  pub protocol : Text
  pub name : Text
  pub remark : Text
  pub local_ip : Text
  pub local_port : ℕ
  pub public_port : ℕ
  pub backend_port : ℕ

pub record TrafficRow : Type 0 where
  pub user_id : Text
  pub protocol : Text
  pub public_port : ℕ
  pub traffic_in_bytes : ℕ
  pub traffic_out_bytes : ℕ
  pub active : Bool

pub record Database : Type 0 where
  pub settings : Option SettingsRow
  pub users : List (Text × UserRow)
  pub tunnels : List (Text × TunnelRow)
  pub traffic_records : List (Text × TrafficRow)

-- The rows that are written for a configuration.
abbrev pub settings_row : ServerConfig → SettingsRow
settings_row c = record {
  revision = c.revision;
  api_salt = c.api_salt;
  api_bind = c.api_bind;
  api_port = c.api_port;
  frps_bind_port = c.frps_bind_port;
  frps_token = c.frps_token;
  frps_binary = c.frps_binary;
  plugin_port = c.plugin_port;
  public_bind = c.public_bind;
  created_at = c.created_at;
  updated_at = c.updated_at;
}

abbrev pub user_row : ServerUser → UserRow
user_row u = record {
  account = u.account;
  password_hash = u.password_hash;
  password_encrypted = u.password_encrypted;
  secret = u.secret;
  tunnel_limit = u.tunnel_limit;
  traffic_limit_bytes = u.traffic_limit_bytes;
  traffic_used_bytes = u.traffic_used_bytes;
  speed_limit_mbps = u.speed_limit_mbps;
  created_at = u.created_at;
  updated_at = u.updated_at;
}

abbrev pub tunnel_row : Text → Tunnel → TunnelRow
tunnel_row user_id t = record {
  user_id = user_id;
  proxy_name = t.proxy_name;
  protocol = t.protocol;
  name = t.name;
  remark = t.remark;
  local_ip = t.local_ip;
  local_port = t.local_port;
  public_port = t.remote_port;
  backend_port = t.backend_port;
}

abbrev pub traffic_row : Text → Bool → ProxyTrafficRecord → TrafficRow
traffic_row user_id active r = record {
  user_id = user_id;
  protocol = r.protocol;
  public_port = r.remote_port;
  traffic_in_bytes = r.traffic_in_bytes;
  traffic_out_bytes = r.traffic_out_bytes;
  active = active;
}

-- `account TEXT UNIQUE`, `secret TEXT UNIQUE`.
unfoldable pub user_clash : UserRow → UserRow → Bool
user_clash r s = r.account == s.account || r.secret == s.secret

-- `proxy_name TEXT UNIQUE`, `backend_port INTEGER UNIQUE`, `UNIQUE(protocol, public_port)`.
unfoldable pub tunnel_clash : TunnelRow → TunnelRow → Bool
tunnel_clash r s =
    r.proxy_name == s.proxy_name
    || r.backend_port == s.backend_port
    || (r.protocol == s.protocol && r.public_port == s.public_port)

-- Another row clashes with the one that is written.
abbrev pub taken {ℓ} : {R : Type ℓ} → (R → R → Bool) → Text → R → List (Text × R) → Bool
taken clash id row table = any (λ entry. not (entry.0 == id) && clash entry.1 row) table

-- `INSERT INTO settings ... ON CONFLICT(id) DO UPDATE`.
abbrev pub upsert_settings : SettingsRow → Database → Database
upsert_settings row db = record db { settings = some row }

-- `INSERT INTO users ... ON CONFLICT(id) DO UPDATE`.
unfoldable pub upsert_user : Text → UserRow → Database → Result Error Database
unfolding user_clash
upsert_user id row db = do
  fail_if (taken user_clash id row db.users) constraint_failed
  ok (record db { users = insert id row db.users })

-- `INSERT INTO tunnels ... ON CONFLICT(id) DO UPDATE`.
unfoldable pub upsert_tunnel : Text → TunnelRow → Database → Result Error Database
unfolding tunnel_clash
upsert_tunnel id row db = do
  fail_if (not (row.protocol == tcp) && not (row.protocol == udp)) constraint_failed
  fail_if (not (contains_key row.user_id db.users)) constraint_failed
  fail_if (taken tunnel_clash id row db.tunnels) constraint_failed
  ok (record db { tunnels = insert id row db.tunnels })

-- `INSERT INTO traffic_records ... ON CONFLICT(proxy_name) DO UPDATE`.
unfoldable pub upsert_traffic : Text → TrafficRow → Database → Result Error Database
upsert_traffic proxy_name row db = do
  fail_if (not (contains_key row.user_id db.users)) constraint_failed
  ok (record db { traffic_records = insert proxy_name row db.traffic_records })

-- `DELETE FROM users WHERE id = ?1`, with `ON DELETE CASCADE`.
unfoldable pub delete_user_row : Text → Database → Database
delete_user_row id db = record db {
  users = remove id db.users;
  tunnels = retain (λ entry. not (entry.1.user_id == id)) db.tunnels;
  traffic_records = retain (λ entry. not (entry.1.user_id == id)) db.traffic_records;
}

-- `UPDATE traffic_records SET active = 0 WHERE proxy_name = ?1`.
unfoldable pub deactivate_traffic : Text → List (Text × TrafficRow) → List (Text × TrafficRow)
deactivate_traffic proxy_name [] = []
deactivate_traffic proxy_name ((k, r) ∷ m) =
    let rest = deactivate_traffic proxy_name m in
    if k == proxy_name then (k, record r { active = false }) ∷ rest else (k, r) ∷ rest

-- `SELECT proxy_name FROM tunnels WHERE id = ?1`, `DELETE FROM tunnels WHERE id = ?1`, and the
-- update of the traffic record.
unfoldable pub delete_tunnel_row : Text → Database → Database
unfolding deactivate_traffic
delete_tunnel_row id db = record db {
  tunnels = remove id db.tunnels;
  traffic_records = elim (lookup id db.tunnels) [
    | none ↦ db.traffic_records
    | some row ↦ deactivate_traffic row.proxy_name db.traffic_records
  ];
}
