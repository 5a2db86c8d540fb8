-- ===== src/Storage/Read.antt =====
-- The queries of `Storage::read` in server-package/crates/frp-game-server/src/storage.rs. The
-- columns of a number are not negative, so that `sql_u64` never fails.
use orange_frp.Prelude.{
  ℕ, ◌^◌, Bool, ◌&&◌, ◌||◌, List, [], ◌∷◌, ◌++◌, ltb, nat_beq, if◌then◌else◌, ◌==◌, nat_eq, list_eq,
  pair_eq, insert, Result, ok, err, ◌>>=◌, ok_or, Text,
}
use orange_frp.Tunnel.{Tunnel}
use orange_frp.Config.{
  ServerConfig, ServerUser, ProxyTrafficRecord, Error, not_initialized, column_out_of_range,
}
use orange_frp.Config.Sort.{sort, text_leb}
use orange_frp.Storage.Tables.{Database, SettingsRow, UserRow, TunnelRow, TrafficRow}

unfoldable pub sql_u32 : ℕ → Result Error ℕ
sql_u32 value = if ltb value (2 ^ 32) then ok value else err column_out_of_range

unfoldable pub sql_u16 : ℕ → Result Error ℕ
sql_u16 value = if ltb value (2 ^ 16) then ok value else err column_out_of_range

unfoldable pub read_settings : SettingsRow → Result Error ServerConfig
unfolding sql_u16
read_settings row = do
  api_port ← sql_u16 row.api_port
  frps_bind_port ← sql_u16 row.frps_bind_port
  plugin_port ← sql_u16 row.plugin_port
  ok (record {
    revision = row.revision;
    api_salt = row.api_salt;
    api_bind = row.api_bind;
    api_port = api_port;
    frps_bind_port = frps_bind_port;
    frps_token = row.frps_token;
    frps_binary = row.frps_binary;
    plugin_port = plugin_port;
    public_bind = row.public_bind;
    users = [];
    created_at = row.created_at;
    updated_at = row.updated_at;
  })

-- A user without the rows of the other tables.
unfoldable pub read_user : Text → UserRow → Result Error ServerUser
unfolding sql_u32
read_user id row = do
  tunnel_limit ← sql_u32 row.tunnel_limit
  speed_limit_mbps ← sql_u32 row.speed_limit_mbps
  ok (record {
    id = id;
    account = row.account;
    password_hash = row.password_hash;
    password_encrypted = row.password_encrypted;
    secret = row.secret;
    tunnels = [];
    tunnel_limit = tunnel_limit;
    traffic_limit_bytes = row.traffic_limit_bytes;
    traffic_used_bytes = row.traffic_used_bytes;
    speed_limit_mbps = speed_limit_mbps;
    traffic_by_proxy = [];
    created_at = row.created_at;
    updated_at = row.updated_at;
  })

unfoldable pub read_tunnel : Text → TunnelRow → Result Error Tunnel
unfolding sql_u16
read_tunnel id row = do
  local_port ← sql_u16 row.local_port
  remote_port ← sql_u16 row.public_port
  backend_port ← sql_u16 row.backend_port
  ok (record {
    id = id;
    proxy_name = row.proxy_name;
    protocol = row.protocol;
    name = row.name;
    remark = row.remark;
    local_ip = row.local_ip;
    local_port = local_port;
    remote_port = remote_port;
    backend_port = backend_port;
  })

-- `config.users[*index].tunnels.push(tunnel)` for the user with the identifier, if there is one.
unfoldable pub push_tunnel : Text → Tunnel → List ServerUser → List ServerUser
push_tunnel user_id t [] = []
push_tunnel user_id t (u ∷ us) =
    if u.id == user_id
    then record u { tunnels = u.tunnels ++ t ∷ [] } ∷ us
    else u ∷ push_tunnel user_id t us

unfoldable pub put_record : Text → Text → ProxyTrafficRecord → List ServerUser → List ServerUser
put_record user_id name r [] = []
put_record user_id name r (u ∷ us) =
    if u.id == user_id
    then record u { traffic_by_proxy = insert name r u.traffic_by_proxy } ∷ us
    else u ∷ put_record user_id name r us

-- `ORDER BY account`.
abbrev pub by_account : Text × UserRow → Text × UserRow → Bool
by_account a b = text_leb a.1.account b.1.account

-- `ORDER BY user_id, public_port, protocol`.
abbrev pub by_owner : Text × TunnelRow → Text × TunnelRow → Bool
by_owner a b =
    if a.1.user_id == b.1.user_id
    then ltb a.1.public_port b.1.public_port
      || (nat_beq a.1.public_port b.1.public_port && text_leb a.1.protocol b.1.protocol)
    else text_leb a.1.user_id b.1.user_id

unfoldable pub read_users : List (Text × UserRow) → Result Error (List ServerUser)
unfolding read_user
read_users [] = ok []
read_users ((id, row) ∷ rows) = do u ← read_user id row; us ← read_users rows; ok (u ∷ us)

unfoldable pub read_tunnels :
    List (Text × TunnelRow) → List ServerUser → Result Error (List ServerUser)
unfolding read_tunnel push_tunnel
read_tunnels [] us = ok us
read_tunnels ((id, row) ∷ rows) us = do
  t ← read_tunnel id row
  read_tunnels rows (push_tunnel row.user_id t us)

unfoldable pub read_traffic :
    List (Text × TrafficRow) → List ServerUser → Result Error (List ServerUser)
unfolding sql_u16 put_record
read_traffic [] us = ok us
read_traffic ((name, row) ∷ rows) us = do
  remote_port ← sql_u16 row.public_port
  read_traffic rows (
      put_record row.user_id name
        (record {
          protocol = row.protocol;
          remote_port = remote_port;
          traffic_in_bytes = row.traffic_in_bytes;
          traffic_out_bytes = row.traffic_out_bytes;
          active = row.active;
        })
        us)

-- `read` before `normalize_loaded_config`.
unfoldable pub load : Database → Result Error ServerConfig
unfolding read_settings read_users read_tunnels read_traffic sort
load db = do
  row ← ok_or db.settings not_initialized
  config ← read_settings row
  users ← read_users (sort by_account db.users)
  with_tunnels ← read_tunnels (sort by_owner db.tunnels) users
  with_traffic ← read_traffic db.traffic_records with_tunnels
  ok (record config { users = with_traffic })
