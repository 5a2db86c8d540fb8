-- ===== src/Storage/Snapshot.antt =====
-- `write_snapshot` of server-package/crates/frp-game-server/src/storage.rs: the configuration is
-- written over what the database holds, in one transaction.
use orange_frp.Prelude.{
  ◌||◌, List, [], ◌∷◌, map, if◌then◌else◌, nat_eq, list_eq, pair_eq, contains, keys, Result, ok,
  ◌>>=◌, Text,
}
use orange_frp.Tunnel.{Tunnel}
use orange_frp.Config.{ServerConfig, ServerUser, ProxyTrafficRecord, Error, sql_i64}
use orange_frp.Config.Valid.{all_tunnels}
use orange_frp.Storage.Tables.{
  Database, settings_row, user_row, tunnel_row, traffic_row, upsert_settings, upsert_user,
  upsert_tunnel, upsert_traffic, delete_user_row, delete_tunnel_row,
}

-- The users, in the order of `SELECT id FROM users`, that the configuration does not have.
unfoldable pub delete_missing_users : List Text → List Text → Database → Database
unfolding delete_user_row
delete_missing_users current [] db = db
delete_missing_users current (id ∷ ids) db =
    delete_missing_users current ids (if contains current id then db else delete_user_row id db)

unfoldable pub delete_missing_tunnels : List Text → List Text → Database → Database
unfolding delete_tunnel_row
delete_missing_tunnels current [] db = db
delete_missing_tunnels current (id ∷ ids) db =
    delete_missing_tunnels current ids (if contains current id then db else delete_tunnel_row id db)

unfoldable pub write_tunnels : Text → List Tunnel → Database → Result Error Database
unfolding upsert_tunnel
write_tunnels user_id [] db = ok db
write_tunnels user_id (t ∷ ts) db = do
  db' ← upsert_tunnel t.id (tunnel_row user_id t) db
  write_tunnels user_id ts db'

-- A record is active if it was or if a tunnel has its name.
unfoldable pub write_traffic :
    Text → List Text → List (Text × ProxyTrafficRecord) → Database → Result Error Database
unfolding upsert_traffic
write_traffic user_id active_proxies [] db = ok db
write_traffic user_id active_proxies ((proxy_name, r) ∷ m) db = do
  bytes_in ← sql_i64 r.traffic_in_bytes
  bytes_out ← sql_i64 r.traffic_out_bytes
  db' ←
      upsert_traffic proxy_name
        (record (traffic_row user_id (contains active_proxies proxy_name || r.active) r) {
          traffic_in_bytes = bytes_in;
          traffic_out_bytes = bytes_out;
        })
        db
  write_traffic user_id active_proxies m db'

unfoldable pub write_user : ServerUser → Database → Result Error Database
unfolding upsert_user write_tunnels write_traffic
write_user u db = do
  limit ← sql_i64 u.traffic_limit_bytes
  used ← sql_i64 u.traffic_used_bytes
  db1 ←
      upsert_user u.id
        (record (user_row u) { traffic_limit_bytes = limit; traffic_used_bytes = used }) db
  db2 ← write_tunnels u.id u.tunnels db1
  write_traffic u.id (map (λ t. t.proxy_name) u.tunnels) u.traffic_by_proxy db2

unfoldable pub write_users : List ServerUser → Database → Result Error Database
unfolding write_user
write_users [] db = ok db
write_users (u ∷ us) db = do db' ← write_user u db; write_users us db'

-- The database after the two deletions around the writing of the users.
unfoldable pub prepared : ServerConfig → Database → Database
unfolding delete_missing_users
prepared c db =
    delete_missing_users (map (λ u. u.id) c.users) (keys db.users)
      (upsert_settings (settings_row c) db)

unfoldable pub cleared : ServerConfig → Database → Database
unfolding delete_missing_tunnels
cleared c db = delete_missing_tunnels (map (λ t. t.id) (all_tunnels c.users)) (keys db.tunnels) db

unfoldable pub write_snapshot : ServerConfig → Database → Result Error Database
unfolding write_users prepared cleared
write_snapshot c db = do db' ← write_users c.users (prepared c db); ok (cleared c db')
