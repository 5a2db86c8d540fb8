-- ===== src/Storage/Invariant.antt =====
-- The invariant of the database: keys, foreign keys and columns that `Storage::read` of
-- server-package/crates/frp-game-server/src/storage.rs can read back.
pub mod Written
use orange_frp.Prelude.{
  ◌-◌, ◌^◌, ◌<◌, ◌≡◌, refl, ap, inl, inr, true, not, some, List, [], ◌∷◌, arith, Bool-cases,
  Option-cases, ◌==◌, nat_eq, list_eq, list_beq_iff, pair_eq, retain-Nodup, AllValues, keys-remove,
  remove-Nodup, AllValues-remove, retain, All, contains, Nodup, keys, lookup, remove, contains_key,
  Text,
}
use orange_frp.Config.{ServerConfig, ServerUser}
use orange_frp.Storage.Tables.{
  Database, SettingsRow, UserRow, TunnelRow, TrafficRow, settings_row, delete_user_row,
  deactivate_traffic, delete_tunnel_row,
}
use orange_frp.Storage.Snapshot.{delete_missing_users, delete_missing_tunnels}

abbrev pub PortsFit : SettingsRow → Type 0
PortsFit r = (r.api_port < 2 ^ 16) × (r.frps_bind_port < 2 ^ 16) × (r.plugin_port < 2 ^ 16)

abbrev pub UserFits : UserRow → Type 0
UserFits r = (r.tunnel_limit < 2 ^ 32) × (r.speed_limit_mbps < 2 ^ 32)

abbrev pub TunnelFits : TunnelRow → Type 0
TunnelFits r = (r.local_port < 2 ^ 16) × (r.public_port < 2 ^ 16) × (r.backend_port < 2 ^ 16)

abbrev pub TrafficFits : TrafficRow → Type 0
TrafficFits r = r.public_port < 2 ^ 16

-- The ports of a row fit, and its owner is a user.
abbrev pub TunnelGood : List (Text × UserRow) → TunnelRow → Type 0
TunnelGood users r = TunnelFits r × (contains_key r.user_id users ≡ true)

abbrev pub TrafficGood : List (Text × UserRow) → TrafficRow → Type 0
TrafficGood users r = TrafficFits r × (contains_key r.user_id users ≡ true)

pub record IsDatabase (db : Database) : Type 0 where
  pub user_keys : Nodup (keys db.users)
  pub tunnel_keys : Nodup (keys db.tunnels)
  pub traffic_keys : Nodup (keys db.traffic_records)
  pub settings : (r : SettingsRow) → db.settings ≡ some r → PortsFit r
  pub users : AllValues UserFits db.users
  pub tunnels : AllValues (TunnelGood db.users) db.tunnels
  pub traffic : AllValues (TrafficGood db.users) db.traffic_records

-- The numbers of a configuration are of their machine types.
pub record IsSizedUser (u : ServerUser) : Type 0 where
  pub tunnel_limit : u.tunnel_limit < 2 ^ 32
  pub speed_limit : u.speed_limit_mbps < 2 ^ 32
  pub tunnels :
      All
        (λ t. (t.local_port < 2 ^ 16) × (t.remote_port < 2 ^ 16) × (t.backend_port < 2 ^ 16))
        u.tunnels
  pub traffic : AllValues (λ r. r.remote_port < 2 ^ 16) u.traffic_by_proxy

pub record IsSized (c : ServerConfig) : Type 0 where
  pub ports : PortsFit (settings_row c)
  pub users : All IsSizedUser c.users

-- Deletion of a user, with all that is of the user.
owned_after :
    (id : Text) (users : List (Text × UserRow)) (owner : Text)
    → not (owner == id) ≡ true
    → contains_key owner users ≡ true
    → contains_key owner (remove id users) ≡ true
owned_after id users owner other known =
    ground (arith, keys-remove id owner users, list_beq_iff owner id, list_beq_iff id owner)

module _ {R : Type 0} (owner : R → Text) (Fits : R → Type 0) (id : Text)
    (users : List (Text × UserRow)) where
  -- The rows of the others still have their owner.
  cascade :
      (m : List (Text × R))
      → AllValues (λ r. Fits r × (contains_key (owner r) users ≡ true)) m
      → AllValues
          (λ r. Fits r × (contains_key (owner r) (remove id users) ≡ true))
          (retain (λ entry. not (owner entry.1 == id)) m)
  cascade [] a = tt
  cascade ((k, r) ∷ m) a = elim (Bool-cases (not (owner r == id))) [
    | inl stays ↦ rw stays ((a.0.0, owned_after id users (owner r) stays a.0.1), cascade m a.1)
    | inr goes ↦ rw goes (cascade m a.1)
  ]

delete_user_row-IsDatabase :
    (id : Text) (db : Database) → IsDatabase db → IsDatabase (delete_user_row id db)
unfolding delete_user_row
delete_user_row-IsDatabase id db v = record {
  user_keys = remove-Nodup id db.users v.user_keys;
  tunnel_keys = retain-Nodup _ db.tunnels v.tunnel_keys;
  traffic_keys = retain-Nodup _ db.traffic_records v.traffic_keys;
  settings = v.settings;
  users = AllValues-remove UserFits id db.users v.users;
  tunnels = cascade (λ r. r.user_id) TunnelFits id db.users db.tunnels v.tunnels;
  traffic = cascade (λ r. r.user_id) TrafficFits id db.users db.traffic_records v.traffic;
}

pub delete_missing_users-IsDatabase :
    (current ids : List Text) (db : Database)
    → IsDatabase db
    → IsDatabase (delete_missing_users current ids db)
unfolding delete_missing_users
delete_missing_users-IsDatabase current [] db v = v
delete_missing_users-IsDatabase current (id ∷ ids) db v =
    delete_missing_users-IsDatabase current ids _ (elim (Bool-cases (contains current id)) [
      | inl kept ↦ rw kept v
      | inr gone ↦ rw gone (delete_user_row-IsDatabase id db v)
    ])

keys-deactivate_traffic :
    (name : Text) (m : List (Text × TrafficRow)) → keys (deactivate_traffic name m) ≡ keys m
unfolding deactivate_traffic
keys-deactivate_traffic name [] = refl
keys-deactivate_traffic name ((k, r) ∷ m) = elim (Bool-cases (k == name)) [
  | inl same ↦ rw same (ap (◌∷◌ k) (keys-deactivate_traffic name m))
  | inr other ↦ rw other (ap (◌∷◌ k) (keys-deactivate_traffic name m))
]

deactivate_traffic-good :
    (users : List (Text × UserRow)) (name : Text) (m : List (Text × TrafficRow))
    → AllValues (TrafficGood users) m
    → AllValues (TrafficGood users) (deactivate_traffic name m)
unfolding deactivate_traffic
deactivate_traffic-good users name [] a = tt
deactivate_traffic-good users name ((k, r) ∷ m) a = elim (Bool-cases (k == name)) [
  | inl same ↦ rw same (a.0, deactivate_traffic-good users name m a.1)
  | inr other ↦ rw other (a.0, deactivate_traffic-good users name m a.1)
]

delete_tunnel_row-IsDatabase :
    (id : Text) (db : Database) → IsDatabase db → IsDatabase (delete_tunnel_row id db)
unfolding delete_tunnel_row
delete_tunnel_row-IsDatabase id db v = record {
  user_keys = v.user_keys;
  tunnel_keys = remove-Nodup id db.tunnels v.tunnel_keys;
  traffic_keys = elim (Option-cases (lookup id db.tunnels)) [
    | inl e ↦ rw (e, delete_tunnel_row) v.traffic_keys
    | inr (row, e) ↦
        rw (e, delete_tunnel_row)
          (rw (keys-deactivate_traffic row.proxy_name db.traffic_records) v.traffic_keys)
  ];
  settings = v.settings;
  users = v.users;
  tunnels = AllValues-remove (TunnelGood db.users) id db.tunnels v.tunnels;
  traffic = elim (Option-cases (lookup id db.tunnels)) [
    | inl e ↦ rw (e, delete_tunnel_row) v.traffic
    | inr (row, e) ↦
        rw (e, delete_tunnel_row)
          (deactivate_traffic-good db.users row.proxy_name db.traffic_records v.traffic)
  ];
}

pub delete_missing_tunnels-IsDatabase :
    (current ids : List Text) (db : Database)
    → IsDatabase db
    → IsDatabase (delete_missing_tunnels current ids db)
unfolding delete_missing_tunnels
delete_missing_tunnels-IsDatabase current [] db v = v
delete_missing_tunnels-IsDatabase current (id ∷ ids) db v =
    delete_missing_tunnels-IsDatabase current ids _ (elim (Bool-cases (contains current id)) [
      | inl kept ↦ rw kept v
      | inr gone ↦ rw gone (delete_tunnel_row-IsDatabase id db v)
    ])
