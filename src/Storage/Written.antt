-- ===== src/Storage/Written.antt =====
-- What the loops of `write_snapshot` in server-package/crates/frp-game-server/src/storage.rs leave
-- in the tables.
use orange_frp.Prelude.{
  ℕ, ◌≤◌, ◌≡◌, inl, inr, true, false, not, ◌&&◌, ◌||◌, List, [], ◌∷◌, ◌++◌, map, append-nil, arith,
  ltb, ltb-false-le, Bool-cases, ◌==◌, nat_eq, list_eq, pair_eq, insert_all, insert_all-append,
  contains, insert, contains_key, ok, >>=-eq-ok, fail_if-eq-ok, Text,
}
use orange_frp.Tunnel.{Tunnel, tcp, udp}
use orange_frp.Config.{ServerUser, ProxyTrafficRecord, sql_i64, constraint_failed, i64_max}
use orange_frp.Storage.Tables.{
  Database, UserRow, TunnelRow, TrafficRow, user_row, tunnel_row, traffic_row, upsert_user,
  upsert_tunnel, upsert_traffic, taken, user_clash, tunnel_clash,
}
use orange_frp.Storage.Snapshot.{write_tunnels, write_traffic, write_user, write_users}

-- The rows of a configuration.
abbrev pub users_table : List ServerUser → List (Text × UserRow)
users_table [] = []
users_table (u ∷ us) = (u.id, user_row u) ∷ users_table us

abbrev pub tunnels_of_user : Text → List Tunnel → List (Text × TunnelRow)
tunnels_of_user user_id [] = []
tunnels_of_user user_id (t ∷ ts) = (t.id, tunnel_row user_id t) ∷ tunnels_of_user user_id ts

abbrev pub tunnels_table : List ServerUser → List (Text × TunnelRow)
tunnels_table [] = []
tunnels_table (u ∷ us) = tunnels_of_user u.id u.tunnels ++ tunnels_table us

abbrev pub traffic_of_user :
    Text → List Text → List (Text × ProxyTrafficRecord) → List (Text × TrafficRow)
traffic_of_user user_id active [] = []
traffic_of_user user_id active ((name, r) ∷ m) =
    (name, traffic_row user_id (contains active name || r.active) r)
    ∷ traffic_of_user user_id active m

abbrev pub traffic_table : List ServerUser → List (Text × TrafficRow)
traffic_table [] = []
traffic_table (u ∷ us) =
    traffic_of_user u.id (map (λ t. t.proxy_name) u.tunnels) u.traffic_by_proxy ++ traffic_table us

abbrev pub written : List ServerUser → Database → Database
written us db = record db {
  users = insert_all (users_table us) db.users;
  tunnels = insert_all (tunnels_table us) db.tunnels;
  traffic_records = insert_all (traffic_table us) db.traffic_records;
}

pub sql_i64-eq-ok : (v w : ℕ) → sql_i64 v ≡ ok w → (v ≤ i64_max) × (w ≡ v)
unfolding sql_i64
sql_i64-eq-ok v w h = elim (Bool-cases (ltb i64_max v)) [
  | inl big ↦ absurd (cc (rw big at h))
  | inr fits ↦ let e : ok v ≡ ok w = rw fits at h in (ltb-false-le i64_max v fits, cc)
]

-- What a statement that succeeds has tested, and the table that it leaves.
pub upsert_user-eq-ok :
    (id : Text) (row : UserRow) (db db' : Database)
    → upsert_user id row db ≡ ok db'
    → (taken user_clash id row db.users ≡ false)
      × (db' ≡ record db { users = insert id row db.users })
unfolding upsert_user
upsert_user-eq-ok id row db db' h =
    let (a, h1) =
      fail_if-eq-ok (taken user_clash id row db.users) constraint_failed
        (ok (record db { users = insert id row db.users })) h in
    (a, cc h1)

pub upsert_tunnel-eq-ok :
    (id : Text) (row : TunnelRow) (db db' : Database)
    → upsert_tunnel id row db ≡ ok db'
    → (contains_key row.user_id db.users ≡ true)
      × (taken tunnel_clash id row db.tunnels ≡ false)
      × (db' ≡ record db { tunnels = insert id row db.tunnels })
unfolding upsert_tunnel
upsert_tunnel-eq-ok id row db db' h =
    let (a, h1) =
      fail_if-eq-ok (not (row.protocol == tcp) && not (row.protocol == udp)) constraint_failed _
        h in
    let (b, h2) = fail_if-eq-ok (not (contains_key row.user_id db.users)) constraint_failed _ h1 in
    let (d, h3) =
      fail_if-eq-ok (taken tunnel_clash id row db.tunnels) constraint_failed
        (ok (record db { tunnels = insert id row db.tunnels })) h2 in
    (ground arith, d, cc h3)

pub upsert_traffic-eq-ok :
    (name : Text) (row : TrafficRow) (db db' : Database)
    → upsert_traffic name row db ≡ ok db'
    → (contains_key row.user_id db.users ≡ true)
      × (db' ≡ record db { traffic_records = insert name row db.traffic_records })
unfolding upsert_traffic
upsert_traffic-eq-ok name row db db' h =
    let (b, h1) =
      fail_if-eq-ok (not (contains_key row.user_id db.users)) constraint_failed
        (ok (record db { traffic_records = insert name row db.traffic_records })) h in
    (ground arith, cc h1)

pub write_tunnels-eq-ok :
    (user_id : Text) (ts : List Tunnel) (db db' : Database)
    → write_tunnels user_id ts db ≡ ok db'
    → db' ≡ record db { tunnels = insert_all (tunnels_of_user user_id ts) db.tunnels }
unfolding write_tunnels
write_tunnels-eq-ok user_id [] db db' h = cc
write_tunnels-eq-ok user_id (t ∷ ts) db db' h =
    let row = tunnel_row user_id t in
    let (db1, first, rest) = >>=-eq-ok (upsert_tunnel t.id row db) _ h in
    let (there, free, e) = upsert_tunnel-eq-ok t.id row db db1 first in
    rw (write_tunnels-eq-ok user_id ts db1 db' rest) (rw e)

write_traffic-eq-ok :
    (user_id : Text) (active : List Text) (m : List (Text × ProxyTrafficRecord)) (db db' : Database)
    → write_traffic user_id active m db ≡ ok db'
    → db' ≡ record db {
      traffic_records = insert_all (traffic_of_user user_id active m) db.traffic_records;
    }
unfolding write_traffic
write_traffic-eq-ok user_id active [] db db' h = cc
write_traffic-eq-ok user_id active ((name, r) ∷ m) db db' h =
    let row = traffic_row user_id (contains active name || r.active) r in
    let (bytes_in, i, h0) = >>=-eq-ok (sql_i64 r.traffic_in_bytes) _ h in
    let (bytes_out, o, h1) = >>=-eq-ok (sql_i64 r.traffic_out_bytes) _ h0 in
    let stored : TrafficRow = record row {
      traffic_in_bytes = bytes_in;
      traffic_out_bytes = bytes_out;
    } in
    let (db1, first, rest) = >>=-eq-ok (upsert_traffic name stored db) _ h1 in
    let ei = (sql_i64-eq-ok r.traffic_in_bytes bytes_in i).1 in
    let eo = (sql_i64-eq-ok r.traffic_out_bytes bytes_out o).1 in
    let (there, e) = upsert_traffic-eq-ok name stored db db1 first in
    rw (write_traffic-eq-ok user_id active m db1 db' rest) (rw e (rw (ei, eo)))

pub write_user-eq-ok :
    (u : ServerUser) (db db' : Database) → write_user u db ≡ ok db' → db' ≡ written (u ∷ []) db
unfolding write_user
write_user-eq-ok u db db' h =
    let names = map (λ (t : Tunnel). t.proxy_name) u.tunnels in
    let (limit, l, h0) = >>=-eq-ok (sql_i64 u.traffic_limit_bytes) _ h in
    let (used, v, h1) = >>=-eq-ok (sql_i64 u.traffic_used_bytes) _ h0 in
    let stored : UserRow = record (user_row u) {
      traffic_limit_bytes = limit;
      traffic_used_bytes = used;
    } in
    let (db1, first, h2) = >>=-eq-ok (upsert_user u.id stored db) _ h1 in
    let (db2, second, third) = >>=-eq-ok (write_tunnels u.id u.tunnels db1) _ h2 in
    let el = (sql_i64-eq-ok u.traffic_limit_bytes limit l).1 in
    let ev = (sql_i64-eq-ok u.traffic_used_bytes used v).1 in
    rw (write_traffic-eq-ok u.id names u.traffic_by_proxy db2 db' third) (
      rw (write_tunnels-eq-ok u.id u.tunnels db1 db2 second) (
        rw ((upsert_user-eq-ok u.id stored db db1 first).1) (
          rw (el, ev)
            (rw (append-nil (tunnels_of_user u.id u.tunnels))
              (rw (append-nil (traffic_of_user u.id names u.traffic_by_proxy)))))))

pub written-cons :
    (u : ServerUser) (us : List ServerUser) (db : Database)
    → written us (written (u ∷ []) db) ≡ written (u ∷ us) db
written-cons u us db =
    let mine = tunnels_of_user u.id u.tunnels in
    let traffic = traffic_of_user u.id (map (λ t. t.proxy_name) u.tunnels) u.traffic_by_proxy in
    rw (insert_all-append mine (tunnels_table us) db.tunnels) (
      rw (insert_all-append traffic (traffic_table us) db.traffic_records)
        (rw (append-nil mine) (rw (append-nil traffic))))

-- The loop over the users, if it ends, has inserted the rows of all of them.
pub write_users-eq-ok :
    (us : List ServerUser) (db db' : Database) → write_users us db ≡ ok db' → db' ≡ written us db
unfolding write_users
write_users-eq-ok [] db db' h = cc
write_users-eq-ok (u ∷ us) db db' h =
    let (db1, first, rest) = >>=-eq-ok (write_user u db) _ h in
    rw (write_users-eq-ok us db1 db' rest)
      (rw (write_user-eq-ok u db db1 first) (written-cons u us db))
