-- ===== src/Storage/Represents.antt =====
-- What the tables hold after `write_snapshot` of
-- server-package/crates/frp-game-server/src/storage.rs: just the rows of the configuration.
use orange_frp.Prelude.{
  ◌≡◌, refl, sym, ap, ◌∙◌, subst, inl, inr, true, false, not, ◌&&◌, none, some, List, [], ◌∷◌, ◌++◌,
  map, arith, if◌then◌else◌, Bool-cases, ◌==◌, nat_eq, list_eq, list_beq_iff, pair_eq, insert_all,
  lookup-insert_all, contains, Nodup, keys, lookup, contains_key, lookup-remove, lookup-eq-none, ok,
  >>=-eq-ok, Text,
}
use orange_frp.Tunnel.{Tunnel}
use orange_frp.Config.{ServerConfig, ServerUser}
use orange_frp.Config.Valid.{all_tunnels}
use orange_frp.Storage.Tables.{
  Database, TunnelRow, settings_row, upsert_settings, delete_user_row, delete_tunnel_row,
}
use orange_frp.Storage.Snapshot.{
  delete_missing_users, delete_missing_tunnels, write_users, prepared, cleared, write_snapshot,
}
use orange_frp.Storage.Written.{users_table, tunnels_of_user, tunnels_table, write_users-eq-ok}

-- The database has the settings of the configuration, its users and its tunnels, under their
-- identifiers, and no others.
pub record Represents (db : Database) (c : ServerConfig) : Type 0 where
  pub settings : db.settings ≡ some (settings_row c)
  pub users : (id : Text) → lookup id db.users ≡ lookup id (users_table c.users)
  pub tunnels : (id : Text) → lookup id db.tunnels ≡ lookup id (tunnels_table c.users)

delete_missing_users-settings :
    (current ids : List Text) (db : Database)
    → (delete_missing_users current ids db).settings ≡ db.settings
unfolding delete_missing_users
delete_missing_users-settings current [] db = refl
delete_missing_users-settings current (id ∷ ids) db =
    delete_missing_users-settings current ids _ ∙ kept_settings current id db
  where
    kept_settings :
        (current : List Text) (id : Text) (db : Database)
        → (if contains current id then db else delete_user_row id db).settings ≡ db.settings
    kept_settings current id db = ground arith

delete_missing_users_step :
    (current : List Text) (id k : Text) (db : Database)
    → lookup k (if contains current id then db else delete_user_row id db).users
      ≡ (if id == k && not (contains current k) then none else lookup k db.users)
unfolding delete_user_row
delete_missing_users_step current id k db = elim (Bool-cases (contains current id)) [
  | inl kept ↦ rw kept (elim (Bool-cases (id == k)) [
    | inl e ↦ rw (e, subst (λ x. contains current x ≡ true) ((list_beq_iff id k).0 e) kept)
    | inr e ↦ rw e
  ])
  | inr gone ↦ rw gone (
      rw (lookup-remove id k db.users) (elim (Bool-cases (id == k)) [
        | inl e ↦ rw (e, subst (λ x. contains current x ≡ false) ((list_beq_iff id k).0 e) gone)
        | inr e ↦ rw e
      ]))
]

delete_missing_users-lookup :
    (current ids : List Text) (db : Database) (k : Text)
    → lookup k (delete_missing_users current ids db).users
      ≡ (if contains ids k && not (contains current k) then none else lookup k db.users)
unfolding delete_missing_users
delete_missing_users-lookup current [] db k = refl
delete_missing_users-lookup current (id ∷ ids) db k =
    rw
      (delete_missing_users-lookup current ids
        (if contains current id then db else delete_user_row id db) k)
      (rw (delete_missing_users_step current id k db) (ground arith))

-- The deletion of tunnels leaves the other tables, but for the traffic.
delete_missing_tunnels-kept :
    (current ids : List Text) (db : Database)
    → ((delete_missing_tunnels current ids db).settings ≡ db.settings)
      × ((delete_missing_tunnels current ids db).users ≡ db.users)
unfolding delete_missing_tunnels
delete_missing_tunnels-kept current [] db = (refl, refl)
delete_missing_tunnels-kept current (id ∷ ids) db =
    let next = if contains current id then db else delete_tunnel_row id db in
    let kept : (next.settings ≡ db.settings) × (next.users ≡ db.users) = ground arith in
    let rest = delete_missing_tunnels-kept current ids next in (rest.0 ∙ kept.0, rest.1 ∙ kept.1)

delete_missing_tunnels_step :
    (current : List Text) (id k : Text) (db : Database)
    → lookup k (if contains current id then db else delete_tunnel_row id db).tunnels
      ≡ (if id == k && not (contains current k) then none else lookup k db.tunnels)
unfolding delete_tunnel_row
delete_missing_tunnels_step current id k db = elim (Bool-cases (contains current id)) [
  | inl kept ↦ rw kept (elim (Bool-cases (id == k)) [
    | inl e ↦ rw (e, subst (λ x. contains current x ≡ true) ((list_beq_iff id k).0 e) kept)
    | inr e ↦ rw e
  ])
  | inr gone ↦ rw gone (
      rw (lookup-remove id k db.tunnels) (elim (Bool-cases (id == k)) [
        | inl e ↦ rw (e, subst (λ x. contains current x ≡ false) ((list_beq_iff id k).0 e) gone)
        | inr e ↦ rw e
      ]))
]

delete_missing_tunnels-lookup :
    (current ids : List Text) (db : Database) (k : Text)
    → lookup k (delete_missing_tunnels current ids db).tunnels
      ≡ (if contains ids k && not (contains current k) then none else lookup k db.tunnels)
unfolding delete_missing_tunnels
delete_missing_tunnels-lookup current [] db k = refl
delete_missing_tunnels-lookup current (id ∷ ids) db k =
    rw
      (delete_missing_tunnels-lookup current ids
        (if contains current id then db else delete_tunnel_row id db) k)
      (rw (delete_missing_tunnels_step current id k db) (ground arith))

-- The identifiers in the tables of a configuration.
keys-users_table : (us : List ServerUser) → keys (users_table us) ≡ map (λ u. u.id) us
keys-users_table [] = refl
keys-users_table (u ∷ us) = ap (◌∷◌ u.id) (keys-users_table us)

pub keys-tunnels_of_user :
    (user_id : Text) (ts : List Tunnel) (m : List (Text × TunnelRow))
    → keys (tunnels_of_user user_id ts ++ m) ≡ map (λ t. t.id) ts ++ keys m
keys-tunnels_of_user user_id [] m = refl
keys-tunnels_of_user user_id (t ∷ ts) m = ap (◌∷◌ t.id) (keys-tunnels_of_user user_id ts m)

pub map_id-append :
    (ts us : List Tunnel) → map (λ t. t.id) (ts ++ us) ≡ map (λ t. t.id) ts ++ map (λ t. t.id) us
map_id-append [] us = refl
map_id-append (t ∷ ts) us = ap (◌∷◌ t.id) (map_id-append ts us)

keys-tunnels_table :
    (us : List ServerUser) → keys (tunnels_table us) ≡ map (λ t. t.id) (all_tunnels us)
keys-tunnels_table [] = refl
keys-tunnels_table (u ∷ us) =
    keys-tunnels_of_user u.id u.tunnels (tunnels_table us)
    ∙ ap (λ ks. map (λ t. t.id) u.tunnels ++ ks) (keys-tunnels_table us)
    ∙ sym (map_id-append u.tunnels (all_tunnels us))

module _ {V : Type 0} (table old : List (Text × V)) (current : List Text)
    (same : keys table ≡ current) where
  -- Deletion of the other rows, then insertion.
  lookup_after_deletion :
      (k : Text)
      → (if contains current k
          then lookup k table
          else if contains (keys old) k && not (contains current k)
          then none
          else lookup k old)
        ≡ lookup k table
  lookup_after_deletion k = elim (Bool-cases (contains current k)) [
    | inl there ↦ rw there
    | inr absent ↦
        rw (absent, lookup-eq-none k table (rw same absent))
          (elim (Bool-cases (contains_key k old)) [
            | inl stale ↦ rw stale
            | inr clear ↦ rw (clear, lookup-eq-none k old clear)
          ])
  ]

  -- Insertion, then deletion of the other rows.
  lookup_before_deletion :
      (k : Text)
      → Nodup (keys table)
      → (if contains (keys (insert_all table old)) k && not (contains current k)
          then none
          else lookup k (insert_all table old))
        ≡ lookup k table
  lookup_before_deletion k d =
      let inserted = lookup-insert_all k table old d in
      elim (Bool-cases (contains current k)) [
        | inl there ↦ rw (there, inserted, same, there) (ground arith)
        | inr absent ↦
            rw (absent, lookup-eq-none k table (rw same absent))
              (elim (Bool-cases (contains_key k (insert_all table old))) [
                | inl stale ↦ rw stale
                | inr clear ↦ rw (clear, lookup-eq-none k (insert_all table old) clear)
              ])
      ]

-- A snapshot that succeeds leaves just the settings, users and tunnels of the configuration,
-- whatever the database held before, if the configuration has no identifier of a user or of a
-- tunnel twice.
pub write_snapshot-Represents :
    (c : ServerConfig) (db db' : Database)
    → Nodup (map (λ u. u.id) c.users)
    → Nodup (map (λ t. t.id) (all_tunnels c.users))
    → write_snapshot c db ≡ ok db'
    → Represents db' c
unfolding write_snapshot prepared cleared
write_snapshot-Represents c db db' du dt h =
    let user_ids = map (λ (u : ServerUser). u.id) c.users in
    let tunnel_ids = map (λ (t : Tunnel). t.id) (all_tunnels c.users) in
    let (db1, loop, last) = >>=-eq-ok (write_users c.users (prepared c db)) _ h in
    let e1 = write_users-eq-ok c.users (prepared c db) db1 loop in
    let e : db' ≡ delete_missing_tunnels tunnel_ids (keys db1.tunnels) db1 = cc last in
    let (same_settings, same_users) =
      delete_missing_tunnels-kept tunnel_ids (keys db1.tunnels) db1 in
    let ku = keys-users_table c.users in
    let kt = keys-tunnels_table c.users in
    record {
      settings =
          ap (λ d. d.settings) e
          ∙ same_settings
          ∙ ap (λ d. d.settings) e1
          ∙ delete_missing_users-settings user_ids (keys db.users)
              (upsert_settings (settings_row c) db);
      users = λ id.
          rw (e, same_users, e1)
            (rw
              (
                lookup-insert_all id (users_table c.users) (prepared c db).users
                    (subst Nodup (sym ku) du),
                delete_missing_users-lookup user_ids (keys db.users)
                    (upsert_settings (settings_row c) db) id,
                ku,
              )
              (lookup_after_deletion (users_table c.users) db.users user_ids ku id));
      tunnels = λ id.
          rw (e, delete_missing_tunnels-lookup tunnel_ids (keys db1.tunnels) db1 id, e1)
            (lookup_before_deletion (tunnels_table c.users) (prepared c db).tunnels tunnel_ids kt id
              (subst Nodup (sym kt) dt));
    }
