-- ===== src/Storage/Invariant/Written.antt =====
-- `write_snapshot` of server-package/crates/frp-game-server/src/storage.rs keeps the invariant of the
-- database.
use orange_frp.Prelude.{
  ◌^◌, ◌<◌, ◌≡◌, sym, subst, true, List, [], ◌∷◌, map, arith, nat_eq, list_eq, list_beq_iff,
  pair_eq, AllValues, insert_all, keys-insert_all, keys-insert_all, insert_all-Nodup,
  AllValues-insert_all, AllValues-append, AllValues-mono, all, All, keys, contains_key, ok,
  >>=-eq-ok, Text,
}
use orange_frp.Tunnel.{Tunnel}
use orange_frp.Config.{ServerConfig, ServerUser, ProxyTrafficRecord}
use orange_frp.Config.Valid.{all_tunnels}
use orange_frp.Storage.Tables.{Database, UserRow, settings_row, upsert_settings}
use orange_frp.Storage.Snapshot.{write_users, prepared, cleared, write_snapshot}
use orange_frp.Storage.Written.{
  users_table, tunnels_of_user, tunnels_table, traffic_of_user, traffic_table, written,
  write_users-eq-ok,
}
use orange_frp.Storage.Invariant.{
  PortsFit, UserFits, TunnelGood, TrafficGood, IsDatabase, IsSizedUser, IsSized,
  delete_missing_users-IsDatabase, delete_missing_tunnels-IsDatabase,
}

-- The rows of a configuration.
users_table-fits : (us : List ServerUser) → All IsSizedUser us → AllValues UserFits (users_table us)
users_table-fits [] a = tt
users_table-fits (u ∷ us) a = ((a.0.tunnel_limit, a.0.speed_limit), users_table-fits us a.1)

module _ (users : List (Text × UserRow)) where
  tunnels_of_user-good :
      (id : Text) (ts : List Tunnel)
      → contains_key id users ≡ true
      → All (λ t. (t.local_port < 2 ^ 16) × (t.remote_port < 2 ^ 16) × (t.backend_port < 2 ^ 16)) ts
      → AllValues (TunnelGood users) (tunnels_of_user id ts)
  tunnels_of_user-good id [] known a = tt
  tunnels_of_user-good id (t ∷ ts) known a = ((a.0, known), tunnels_of_user-good id ts known a.1)

  traffic_of_user-good :
      (id : Text) (active : List Text) (m : List (Text × ProxyTrafficRecord))
      → contains_key id users ≡ true
      → AllValues (λ r. r.remote_port < 2 ^ 16) m
      → AllValues (TrafficGood users) (traffic_of_user id active m)
  traffic_of_user-good id active [] known a = tt
  traffic_of_user-good id active ((name, r) ∷ m) known a =
      ((a.0, known), traffic_of_user-good id active m known a.1)

  tunnels_table-good :
      (us : List ServerUser)
      → All (λ u. contains_key u.id users ≡ true) us
      → All IsSizedUser us
      → AllValues (TunnelGood users) (tunnels_table us)
  tunnels_table-good [] k a = tt
  tunnels_table-good (u ∷ us) k a =
      AllValues-append (TunnelGood users) (tunnels_of_user u.id u.tunnels) (tunnels_table us)
        (tunnels_of_user-good u.id u.tunnels k.0 a.0.tunnels) (tunnels_table-good us k.1 a.1)

  traffic_table-good :
      (us : List ServerUser)
      → All (λ u. contains_key u.id users ≡ true) us
      → All IsSizedUser us
      → AllValues (TrafficGood users) (traffic_table us)
  traffic_table-good [] k a = tt
  traffic_table-good (u ∷ us) k a =
      AllValues-append (TrafficGood users)
        (traffic_of_user u.id (map (λ t. t.proxy_name) u.tunnels) u.traffic_by_proxy)
        (traffic_table us) (traffic_of_user-good u.id _ u.traffic_by_proxy k.0 a.0.traffic)
        (traffic_table-good us k.1 a.1)

-- Each user of the list is in a table over which the users have been written.
users_known :
    (all rest : List ServerUser) (m : List (Text × UserRow))
    → ((id : Text)
        → contains_key id (users_table rest) ≡ true
        → contains_key id (users_table all) ≡ true)
    → All (λ u. contains_key u.id (insert_all (users_table all) m) ≡ true) rest
users_known all [] m f = tt
users_known all (u ∷ us) m f = (
  ground (arith, keys-insert_all u.id (users_table all) m, f u.id, list_beq_iff u.id u.id),
  users_known all us m (λ id h. f id (ground arith)),
)

written-IsDatabase :
    (us : List ServerUser) (db : Database)
    → All IsSizedUser us
    → IsDatabase db
    → IsDatabase (written us db)
written-IsDatabase us db sized v =
    let users = insert_all (users_table us) db.users in
    let known = users_known us us db.users (λ id h. h) in
    let grown : (id : Text) → contains_key id db.users ≡ true → contains_key id users ≡ true =
      λ id h. ground (arith, keys-insert_all id (users_table us) db.users) in
    record {
      user_keys = insert_all-Nodup (users_table us) db.users v.user_keys;
      tunnel_keys = insert_all-Nodup (tunnels_table us) db.tunnels v.tunnel_keys;
      traffic_keys = insert_all-Nodup (traffic_table us) db.traffic_records v.traffic_keys;
      settings = v.settings;
      users =
          AllValues-insert_all UserFits (users_table us) db.users (users_table-fits us sized)
            v.users;
      tunnels =
          AllValues-insert_all (TunnelGood users) (tunnels_table us) db.tunnels
            (tunnels_table-good users us known sized)
            (AllValues-mono (TunnelGood db.users) (TunnelGood users)
              (λ r g. (g.0, grown r.user_id g.1)) db.tunnels v.tunnels);
      traffic =
          AllValues-insert_all (TrafficGood users) (traffic_table us) db.traffic_records
            (traffic_table-good users us known sized)
            (AllValues-mono (TrafficGood db.users) (TrafficGood users)
              (λ r g. (g.0, grown r.user_id g.1)) db.traffic_records v.traffic);
    }

-- A snapshot keeps the invariant: keys occur once, tunnels and traffic records belong to users of
-- the database, and every number can be read back.
pub write_snapshot-IsDatabase :
    (c : ServerConfig) (db db' : Database)
    → IsSized c
    → IsDatabase db
    → write_snapshot c db ≡ ok db'
    → IsDatabase db'
unfolding write_snapshot prepared cleared
write_snapshot-IsDatabase c db db' sized v h =
    let (db1, loop, last) = >>=-eq-ok (write_users c.users (prepared c db)) _ h in
    let ids = map (λ (u : ServerUser). u.id) c.users in
    let start : IsDatabase (upsert_settings (settings_row c) db) = record {
      user_keys = v.user_keys;
      tunnel_keys = v.tunnel_keys;
      traffic_keys = v.traffic_keys;
      settings = λ r h. let e : settings_row c ≡ r = cc h in subst PortsFit e sized.ports;
      users = v.users;
      tunnels = v.tunnels;
      traffic = v.traffic;
    } in
    let ready : IsDatabase (prepared c db) =
      delete_missing_users-IsDatabase ids (keys db.users) _ start in
    let filled : IsDatabase db1 =
      subst IsDatabase (sym (write_users-eq-ok c.users (prepared c db) db1 loop))
        (written-IsDatabase c.users (prepared c db) sized.users ready) in
    let e : cleared c db1 ≡ db' = cc last in
    subst IsDatabase e (
      delete_missing_tunnels-IsDatabase (map (λ (t : Tunnel). t.id) (all_tunnels c.users))
        (keys db1.tunnels) db1 filled)
