-- ===== src/Storage/Open.antt =====
-- When the statements of `write_snapshot` in server-package/crates/frp-game-server/src/storage.rs
-- meet no constraint.
use orange_frp.Prelude.{
  ℕ, ◌≤◌, ◌≡◌, refl, ap, ◌∙◌, ◌⊎◌, inl, inr, Bool, true, false, not, ◌&&◌, List, [], ◌∷◌, ◌++◌, map,
  append-nil, arith, ◌==◌, nat_eq, list_eq, list_beq_iff, pair_eq, keys-insert, AllValues,
  insert_all, All-split, All, insert, contains_key, ok, Text,
}
use orange_frp.Tunnel.{Tunnel, tcp, udp}
use orange_frp.Config.{ServerUser, ProxyTrafficRecord, sql_i64, i64_max}
use orange_frp.Storage.Tables.{
  Database, UserRow, user_row, tunnel_row, upsert_user, upsert_tunnel, upsert_traffic, taken,
  user_clash, tunnel_clash,
}
use orange_frp.Storage.Snapshot.{write_tunnels, write_traffic, write_user, write_users}
use orange_frp.Storage.Written.{
  users_table, tunnels_of_user, tunnels_table, traffic_of_user, written, written-cons,
}

module _ {R : Type 0} (clash : R → R → Bool) where
  -- No row of the table stands in the way of a row that is to be written.
  abbrev pub Open : List (Text × R) → List (Text × R) → Type 0
  Open rows table = All (λ row. taken clash row.0 row.1 table ≡ false) rows

  -- The rows do not stand in each other's way.
  abbrev pub Apart : List (Text × R) → Type 0
  Apart [] = Unit
  Apart ((id, r) ∷ rows) =
      All (λ row. (not (id == row.0) && clash r row.1) ≡ false) rows × Apart rows

  taken-insert :
      (id k : Text) (row v : R) (table : List (Text × R))
      → taken clash id row table ≡ false
      → (not (k == id) && clash v row) ≡ false
      → taken clash id row (insert k v table) ≡ false
  taken-insert id k row v [] free apart = ground arith
  taken-insert id k row v ((j, w) ∷ table) free apart =
      ground (arith, taken-insert id k row v table)

  pub Open-insert :
      (k : Text) (v : R) (rows table : List (Text × R))
      → Open rows table
      → All (λ row. (not (k == row.0) && clash v row.1) ≡ false) rows
      → Open rows (insert k v table)
  Open-insert k v [] table o a = tt
  Open-insert k v ((id, r) ∷ rows) table o a =
      (taken-insert id k r v table o.0 a.0, Open-insert k v rows table o.1 a.1)

  -- Writing the first rows leaves the way open for the others.
  pub Open-insert_all :
      (xs ys table : List (Text × R))
      → Open (xs ++ ys) table
      → Apart (xs ++ ys)
      → Open ys (insert_all xs table) × Apart ys
  Open-insert_all [] ys table o a = (o, a)
  Open-insert_all ((k, v) ∷ xs) ys table o a =
      Open-insert_all xs ys (insert k v table) (Open-insert k v (xs ++ ys) table o.1 a.0) a.1

  pub Apart-left : (xs ys : List (Text × R)) → Apart (xs ++ ys) → Apart xs
  Apart-left [] ys a = tt
  Apart-left ((id, r) ∷ xs) ys a = ((All-split _ xs ys a.0).0, Apart-left xs ys a.1)

-- What the rows need besides: counters that SQLite can hold, and a known protocol.
pub record FitsUser (u : ServerUser) : Type 0 where
  pub limit : u.traffic_limit_bytes ≤ i64_max
  pub used : u.traffic_used_bytes ≤ i64_max
  pub traffic :
      AllValues
        (λ r. (r.traffic_in_bytes ≤ i64_max) × (r.traffic_out_bytes ≤ i64_max))
        u.traffic_by_proxy
  pub protocols : All (λ t. (t.protocol ≡ tcp) ⊎ (t.protocol ≡ udp)) u.tunnels

sql_i64-fits : (v : ℕ) → v ≤ i64_max → sql_i64 v ≡ ok v
unfolding sql_i64
sql_i64-fits v fits = ground arith

write_tunnels-Open :
    (user_id : Text) (ts : List Tunnel) (db : Database)
    → contains_key user_id db.users ≡ true
    → All (λ t. (t.protocol ≡ tcp) ⊎ (t.protocol ≡ udp)) ts
    → Open tunnel_clash (tunnels_of_user user_id ts) db.tunnels
    → Apart tunnel_clash (tunnels_of_user user_id ts)
    → write_tunnels user_id ts db
      ≡ ok (record db { tunnels = insert_all (tunnels_of_user user_id ts) db.tunnels })
unfolding write_tunnels upsert_tunnel
write_tunnels-Open user_id [] db there p o a = refl
write_tunnels-Open user_id (t ∷ ts) db there p o a =
    let row = tunnel_row user_id t in
    let known : (not (t.protocol == tcp) && not (t.protocol == udp)) ≡ false = elim p.0 [
      | inl e ↦ rw e refl
      | inr e ↦ rw e refl
    ] in
    rw (known, there, o.0)
      (write_tunnels-Open user_id ts (record db { tunnels = insert t.id row db.tunnels }) there p.1
        (Open-insert tunnel_clash t.id row (tunnels_of_user user_id ts) db.tunnels o.1 a.0) a.1)

write_traffic-Open :
    (user_id : Text) (active : List Text) (m : List (Text × ProxyTrafficRecord)) (db : Database)
    → contains_key user_id db.users ≡ true
    → AllValues (λ r. (r.traffic_in_bytes ≤ i64_max) × (r.traffic_out_bytes ≤ i64_max)) m
    → write_traffic user_id active m db
      ≡ ok (record db {
        traffic_records = insert_all (traffic_of_user user_id active m) db.traffic_records;
      })
unfolding write_traffic upsert_traffic
write_traffic-Open user_id active [] db there f = refl
write_traffic-Open user_id active ((name, r) ∷ m) db there f =
    rw (sql_i64-fits r.traffic_in_bytes f.0.0, sql_i64-fits r.traffic_out_bytes f.0.1, there)
      (write_traffic-Open user_id active m _ there f.1)

contains_key-insert :
    (k : Text) (v : UserRow) (m : List (Text × UserRow)) → contains_key k (insert k v m) ≡ true
contains_key-insert k v m = ground (arith, keys-insert k k v m, list_beq_iff k k)

write_user-Open :
    (u : ServerUser) (db : Database)
    → FitsUser u
    → taken user_clash u.id (user_row u) db.users ≡ false
    → Open tunnel_clash (tunnels_of_user u.id u.tunnels) db.tunnels
    → Apart tunnel_clash (tunnels_of_user u.id u.tunnels)
    → write_user u db ≡ ok (written (u ∷ []) db)
unfolding write_user upsert_user
write_user-Open u db f free o a =
    let db1 : Database = record db { users = insert u.id (user_row u) db.users } in
    let names = map (λ (t : Tunnel). t.proxy_name) u.tunnels in
    let there = contains_key-insert u.id (user_row u) db.users in
    rw (sql_i64-fits u.traffic_limit_bytes f.limit, sql_i64-fits u.traffic_used_bytes f.used, free)
      (rw (write_tunnels-Open u.id u.tunnels db1 there f.protocols o a) (
        rw
          (write_traffic-Open u.id names u.traffic_by_proxy
            (record db1 { tunnels = insert_all (tunnels_of_user u.id u.tunnels) db1.tunnels }) there
            f.traffic)
          (rw (append-nil (tunnels_of_user u.id u.tunnels))
            (rw (append-nil (traffic_of_user u.id names u.traffic_by_proxy)) refl))))

-- Where nothing stands in the way, the loop over the users ends.
pub write_users-Open :
    (us : List ServerUser) (db : Database)
    → All FitsUser us
    → Open user_clash (users_table us) db.users
    → Apart user_clash (users_table us)
    → Open tunnel_clash (tunnels_table us) db.tunnels
    → Apart tunnel_clash (tunnels_table us)
    → write_users us db ≡ ok (written us db)
unfolding write_users
write_users-Open [] db f ou au ot at = refl
write_users-Open (u ∷ us) db f ou au ot at =
    let mine = tunnels_of_user u.id u.tunnels in
    let rest = tunnels_table us in
    let (ot', at') = Open-insert_all tunnel_clash mine rest db.tunnels ot at in
    rw
      (write_user-Open u db f.0 ou.0 (All-split _ mine rest ot).0
        (Apart-left tunnel_clash mine rest at))
      (write_users-Open us (written (u ∷ []) db) f.1
          (Open-insert user_clash u.id (user_row u) (users_table us) db.users ou.1 au.0) au.1
          (rw (append-nil mine) ot') at'
        ∙ ap ok (written-cons u us db))
