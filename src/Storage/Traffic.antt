-- ===== src/Storage/Traffic.antt =====
-- The traffic records after `write_snapshot` of
-- server-package/crates/frp-game-server/src/storage.rs.
use orange_frp.Prelude.{
  ◌≡◌, refl, sym, ap, ◌∙◌, subst, ◌⊎◌, inl, inr, false, some, List, [], ◌∷◌, map, if◌then◌else◌,
  Bool-cases, Option-cases, ◌==◌, nat_eq, list_eq, pair_eq, insert_all, contains, keys, lookup,
  insert, lookup-insert, ok, >>=-eq-ok, Text,
}
use orange_frp.Tunnel.{Tunnel}
use orange_frp.Config.{ServerConfig}
use orange_frp.Config.Valid.{all_tunnels}
use orange_frp.Storage.Tables.{Database, TrafficRow, deactivate_traffic, delete_tunnel_row}
use orange_frp.Storage.Snapshot.{
  delete_missing_tunnels, write_users, prepared, cleared, write_snapshot,
}
use orange_frp.Storage.Written.{traffic_table, write_users-eq-ok}

-- The rows of the configuration, where a later one replaces an earlier one of its name.
abbrev pub last_records : ServerConfig → List (Text × TrafficRow)
last_records c = insert_all (traffic_table c.users) []

-- The row itself, or the row marked as inactive.
abbrev pub Marked : TrafficRow → TrafficRow → Type 0
Marked wanted row = (row ≡ wanted) ⊎ (row ≡ record wanted { active = false })

-- Every row of a table is in the other one, maybe marked as inactive.
abbrev pub HasRecords : List (Text × TrafficRow) → List (Text × TrafficRow) → Type 0
HasRecords wanted table =
    (name : Text) (row : TrafficRow)
    → lookup name wanted ≡ some row
    → (found : TrafficRow) × (lookup name table ≡ some found) × Marked row found

Marked-trans : (a b c : TrafficRow) → Marked a b → Marked b c → Marked a c
Marked-trans a b c (inl e) (inl f) = inl (f ∙ e)
Marked-trans a b c (inl e) (inr f) =
    inr (f ∙ ap (λ (r : TrafficRow). record r { active = false }) e)
Marked-trans a b c (inr e) (inl f) = inr (f ∙ e)
Marked-trans a b c (inr e) (inr f) =
    inr (f ∙ ap (λ (r : TrafficRow). record r { active = false }) e)

HasRecords-trans :
    (a b c : List (Text × TrafficRow)) → HasRecords a b → HasRecords b c → HasRecords a c
HasRecords-trans a b c f g name row h =
    let (row1, at1, m1) = f name row h in
    let (row2, at2, m2) = g name row1 at1 in (row2, at2, Marked-trans row row1 row2 m1 m2)

HasRecords-refl : (a : List (Text × TrafficRow)) → HasRecords a a
HasRecords-refl a name row h = (row, h, inl refl)

-- Insertion hides the same in both tables.
HasRecords-insert :
    (k : Text) (v : TrafficRow) (a b : List (Text × TrafficRow))
    → HasRecords a b
    → HasRecords (insert k v a) (insert k v b)
HasRecords-insert k v a b f name row h = elim (Bool-cases (k == name)) [
  | inl same ↦
      let e : some v ≡ some row = rw same at (rw (lookup-insert k name v a) at h) in
      (v, rw (lookup-insert k name v b) (rw same refl), inl (cc e))
  | inr other ↦
      let (found, at, m) = f name row (rw other at (rw (lookup-insert k name v a) at h)) in
      (found, rw (lookup-insert k name v b) (rw other at), m)
]

HasRecords-insert_all :
    (rows a b : List (Text × TrafficRow))
    → HasRecords a b
    → HasRecords (insert_all rows a) (insert_all rows b)
HasRecords-insert_all [] a b f = f
HasRecords-insert_all ((k, v) ∷ rows) a b f =
    HasRecords-insert_all rows (insert k v a) (insert k v b) (HasRecords-insert k v a b f)

deactivate_traffic-HasRecords :
    (name : Text) (table : List (Text × TrafficRow))
    → HasRecords table (deactivate_traffic name table)
unfolding deactivate_traffic
deactivate_traffic-HasRecords name [] k row h = absurd (cc h)
deactivate_traffic-HasRecords name ((j, r) ∷ table) k row h = elim (Bool-cases (j == name)) [
  | inl marked ↦ elim (Bool-cases (j == k)) [
    | inl here ↦
        let e : some r ≡ some row = rw here at h in
        let e' : r ≡ row = cc e in
        (
          record r { active = false },
          rw marked (rw here refl),
          inr (ap (λ (x : TrafficRow). record x { active = false }) e'),
        )
    | inr later ↦
        let (found, at, m) = deactivate_traffic-HasRecords name table k row (rw later at h) in
        (found, rw marked (rw later at), m)
  ]
  | inr kept ↦ elim (Bool-cases (j == k)) [
    | inl here ↦ (row, rw kept (rw here (rw here at h)), inl refl)
    | inr later ↦
        let (found, at, m) = deactivate_traffic-HasRecords name table k row (rw later at h) in
        (found, rw kept (rw later at), m)
  ]
]

delete_tunnel_row-HasRecords :
    (id : Text) (db : Database)
    → HasRecords db.traffic_records (delete_tunnel_row id db).traffic_records
unfolding delete_tunnel_row
delete_tunnel_row-HasRecords id db = elim (Option-cases (lookup id db.tunnels)) [
  | inl absent ↦ rw (absent, delete_tunnel_row) (HasRecords-refl db.traffic_records)
  | inr (row, there) ↦
      rw (there, delete_tunnel_row)
        (deactivate_traffic-HasRecords row.proxy_name db.traffic_records)
]

one_deleted :
    (current : List Text) (id : Text) (db : Database)
    → HasRecords db.traffic_records
        (if contains current id then db else delete_tunnel_row id db).traffic_records
one_deleted current id db = elim (Bool-cases (contains current id)) [
  | inl kept ↦ rw kept (HasRecords-refl db.traffic_records)
  | inr gone ↦ rw gone (delete_tunnel_row-HasRecords id db)
]

delete_missing_tunnels-HasRecords :
    (current ids : List Text) (db : Database)
    → HasRecords db.traffic_records (delete_missing_tunnels current ids db).traffic_records
unfolding delete_missing_tunnels
delete_missing_tunnels-HasRecords current [] db = HasRecords-refl db.traffic_records
delete_missing_tunnels-HasRecords current (id ∷ ids) db =
    let next = if contains current id then db else delete_tunnel_row id db in
    HasRecords-trans db.traffic_records next.traffic_records _ (one_deleted current id db)
      (delete_missing_tunnels-HasRecords current ids next)

-- A snapshot that succeeds leaves, for every proxy name of the configuration, the record written
-- last under it, marked as inactive if its tunnel was deleted.
pub write_snapshot-HasRecords :
    (c : ServerConfig) (db db' : Database)
    → write_snapshot c db ≡ ok db'
    → HasRecords (last_records c) db'.traffic_records
unfolding write_snapshot cleared
write_snapshot-HasRecords c db db' h =
    let tunnel_ids = map (λ (t : Tunnel). t.id) (all_tunnels c.users) in
    let (db1, loop, last) = >>=-eq-ok (write_users c.users (prepared c db)) _ h in
    let e1 = write_users-eq-ok c.users (prepared c db) db1 loop in
    let e : db' ≡ delete_missing_tunnels tunnel_ids (keys db1.tunnels) db1 = cc last in
    let rows : db1.traffic_records
        ≡ insert_all (traffic_table c.users) (prepared c db).traffic_records =
      ap (λ (d : Database). d.traffic_records) e1 in
    let inserted =
      HasRecords-insert_all (traffic_table c.users) [] (prepared c db).traffic_records
        (λ name row none_here. absurd (cc none_here)) in
    subst (λ (d : Database). HasRecords (last_records c) d.traffic_records) (sym e)
      (HasRecords-trans (last_records c) db1.traffic_records _
        (subst (HasRecords (last_records c)) (sym rows) inserted)
        (delete_missing_tunnels-HasRecords tunnel_ids (keys db1.tunnels) db1))
