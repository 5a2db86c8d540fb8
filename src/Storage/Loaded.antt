-- ===== src/Storage/Loaded.antt =====
-- Reading of the database and its round trip with `write_snapshot`:
-- server-package/crates/frp-game-server/src/storage.rs.
use orange_frp.Prelude.{
  ◌≡◌, refl, sym, ◌∙◌, subst, inl, inr, true, false, some, List, [], ◌∷◌, map, arith, if◌then◌else◌,
  Bool-cases, ◌==◌, nat_eq, list_eq, list_beq_iff, pair_eq, AllValues, All-AllValues, AllValues-All,
  AllValues-mono, Nodup, keys, lookup, contains_key, lookup-eq-none, ok, Text,
}
use orange_frp.Tunnel.{Tunnel}
use orange_frp.Config.{ServerConfig, ServerUser, ProxyTrafficRecord}
use orange_frp.Config.Sort.{sort, All-sort}
use orange_frp.Storage.Ordered.{keys-sort, lookup-sort, sort-Nodup}
use orange_frp.Storage.Tables.{Database, SettingsRow, UserRow, TunnelRow, TrafficRow, settings_row}
use orange_frp.Storage.Read.{
  read_settings, read_tunnel, push_tunnel, put_record, by_account, by_owner, read_tunnels,
  read_traffic, load,
}
use orange_frp.Storage.Written.{users_table, tunnels_table}
use orange_frp.Storage.Invariant.{UserFits, TunnelGood, TrafficFits, TrafficGood, IsDatabase}
use orange_frp.Storage.Snapshot.{write_snapshot}
use orange_frp.Storage.Represents.{Represents, write_snapshot-Represents}
use orange_frp.Storage.Invariant.{IsSized}
use orange_frp.Storage.Invariant.Written.{write_snapshot-IsDatabase}
use orange_frp.Config.Valid.{all_tunnels}
use orange_frp.Storage.Pushed.{
  sql_u16-fits, read_users_fit, users_table-push_tunnel, put_record-tables, keys-push_tunnel,
  lookup-push_tunnel,
}

abbrev tunnel_of_row : Text → TunnelRow → Tunnel
tunnel_of_row id row = record {
  id = id;
  proxy_name = row.proxy_name;
  protocol = row.protocol;
  name = row.name;
  remark = row.remark;
  local_ip = row.local_ip;
  local_port = row.local_port;
  remote_port = row.public_port;
  backend_port = row.backend_port;
}

-- All tunnels are read and stand with their owners.
read_tunnels_fit :
    (rows : List (Text × TunnelRow)) (us : List ServerUser)
    → Nodup (keys rows)
    → AllValues (TunnelGood (users_table us)) rows
    → ((k : Text) → contains_key k rows ≡ true → contains_key k (tunnels_table us) ≡ false)
    → (us' : List ServerUser) × (read_tunnels rows us ≡ ok us')
      × (users_table us' ≡ users_table us)
      × ((k : Text)
          → lookup k (tunnels_table us')
            ≡ (if contains_key k rows then lookup k rows else lookup k (tunnels_table us)))
unfolding read_tunnels read_tunnel
read_tunnels_fit [] us d g fresh = (us, refl, refl, λ k. refl)
read_tunnels_fit ((id, row) ∷ rows) us d g fresh =
    let t = tunnel_of_row id row in
    let ((fl, fp, fb), known) = g.0 in
    let pushed = push_tunnel row.user_id t us in
    let same = users_table-push_tunnel row.user_id t us in
    let absent : contains_key id (tunnels_table us) ≡ false =
      fresh id (ground (arith, list_beq_iff id id)) in
    let (us', run, users, tunnels) =
      read_tunnels_fit rows pushed d.1
        (subst (λ (m : List (Text × UserRow)). AllValues (TunnelGood m) rows) (sym same) g.1)
        (λ k there. keys-push_tunnel row.user_id t k us known ∙ (elim (Bool-cases (id == k)) [
          | inl e ↦ absurd (
              ground
                (arith, subst (λ x. contains_key x rows ≡ false) ((list_beq_iff id k).0 e) d.0))
          | inr e ↦ rw e (fresh k (ground arith))
        ])) in
    (
      us',
      rw
          (
            sql_u16-fits row.local_port fl,
            sql_u16-fits row.public_port fp,
            sql_u16-fits row.backend_port fb,
          )
          run,
      users ∙ same,
      λ k.
          tunnels k
          ∙ rw (lookup-push_tunnel row.user_id t k us known absent) (elim (Bool-cases (id == k)) [
            | inl e ↦
                rw (e, subst (λ x. contains_key x rows ≡ false) ((list_beq_iff id k).0 e) d.0) refl
            | inr e ↦ rw e refl
          ]),
    )

read_traffic_fit :
    (rows : List (Text × TrafficRow)) (us : List ServerUser)
    → AllValues TrafficFits rows
    → (us' : List ServerUser) × (read_traffic rows us ≡ ok us')
      × (users_table us' ≡ users_table us)
      × (tunnels_table us' ≡ tunnels_table us)
unfolding read_traffic
read_traffic_fit [] us f = (us, refl, refl, refl)
read_traffic_fit ((name, row) ∷ rows) us f =
    let r : ProxyTrafficRecord = record {
      protocol = row.protocol;
      remote_port = row.public_port;
      traffic_in_bytes = row.traffic_in_bytes;
      traffic_out_bytes = row.traffic_out_bytes;
      active = row.active;
    } in
    let (users, tunnels) = put_record-tables row.user_id name r us in
    let (us', run, users', tunnels') =
      read_traffic_fit rows (put_record row.user_id name r us) f.1 in
    (us', rw (sql_u16-fits row.public_port f.0) run, users' ∙ users, tunnels' ∙ tunnels)

abbrev config_of_row : SettingsRow → ServerConfig
config_of_row row = record {
  revision = row.revision;
  api_salt = row.api_salt;
  api_bind = row.api_bind;
  api_port = row.api_port;
  frps_bind_port = row.frps_bind_port;
  frps_token = row.frps_token;
  frps_binary = row.frps_binary;
  plugin_port = row.plugin_port;
  public_bind = row.public_bind;
  users = [];
  created_at = row.created_at;
  updated_at = row.updated_at;
}

-- A database with settings that keeps its invariant is read, and what is read has just its rows.
pub load_total :
    (db : Database) (row : SettingsRow)
    → IsDatabase db
    → db.settings ≡ some row
    → (c : ServerConfig) × (load db ≡ ok c) × Represents db c
unfolding load read_settings
load_total db row v there =
    let (fa, ff, fp) = v.settings row there in
    let user_rows = sort by_account db.users in
    let tunnel_rows = sort by_owner db.tunnels in
    let sorted_users = All-AllValues UserFits user_rows (
      All-sort by_account (λ entry. UserFits entry.1) db.users
        (AllValues-All UserFits db.users v.users)) in
    let (us, run1, table, none_yet) = read_users_fit user_rows sorted_users in
    let owners : (r : TunnelRow) → TunnelGood db.users r → TunnelGood (users_table us) r =
      λ r g. (g.0, rw table (keys-sort by_account r.user_id db.users ∙ g.1)) in
    let sorted_tunnels = All-AllValues (TunnelGood (users_table us)) tunnel_rows (
      All-sort by_owner (λ entry. TunnelGood (users_table us) entry.1) db.tunnels
        (AllValues-All (TunnelGood (users_table us)) db.tunnels (
          AllValues-mono (TunnelGood db.users) (TunnelGood (users_table us)) owners db.tunnels
            v.tunnels))) in
    let (us2, run2, users2, tunnels2) =
      read_tunnels_fit tunnel_rows us (sort-Nodup by_owner db.tunnels v.tunnel_keys) sorted_tunnels
        (λ k h. rw none_yet refl) in
    let (us3, run3, users3, tunnels3) = read_traffic_fit db.traffic_records us2 (
      AllValues-mono (TrafficGood db.users) TrafficFits (λ r g. g.0) db.traffic_records
        v.traffic) in
    let config = config_of_row row in
    (
      record config { users = us3 },
      rw
          (
            there,
            sql_u16-fits row.api_port fa,
            sql_u16-fits row.frps_bind_port ff,
            sql_u16-fits row.plugin_port fp,
            run1,
            run2,
            run3,
          )
          refl,
      record {
        settings = there;
        users =
            λ id. sym (rw (users3, users2, table) (lookup-sort by_account id db.users v.user_keys));
        tunnels = λ id. sym (
            rw tunnels3 (
              tunnels2 id
              ∙ rw none_yet (elim (Bool-cases (contains_key id tunnel_rows)) [
                | inl e ↦ rw e (lookup-sort by_owner id db.tunnels v.tunnel_keys)
                | inr e ↦ rw e (
                    sym (lookup-eq-none id db.tunnels (sym (keys-sort by_owner id db.tunnels) ∙ e)))
              ])));
      },
    )

-- Reading undoes writing: what is read after a snapshot of a configuration has its settings and,
-- under the same identifiers, its users and tunnels.
pub load-write_snapshot :
    (c : ServerConfig) (db db' : Database)
    → IsSized c
    → IsDatabase db
    → Nodup (map (λ u. u.id) c.users)
    → Nodup (map (λ t. t.id) (all_tunnels c.users))
    → write_snapshot c db ≡ ok db'
    → (c' : ServerConfig) × (load db' ≡ ok c')
      × (settings_row c' ≡ settings_row c)
      × ((id : Text) → lookup id (users_table c'.users) ≡ lookup id (users_table c.users))
      × ((id : Text) → lookup id (tunnels_table c'.users) ≡ lookup id (tunnels_table c.users))
load-write_snapshot c db db' sized v du dt h =
    let held = write_snapshot-Represents c db db' du dt h in
    let (c', run, read) =
      load_total db' (settings_row c) (write_snapshot-IsDatabase c db db' sized v h)
        held.settings in
    let same : some (settings_row c') ≡ some (settings_row c) = sym read.settings ∙ held.settings in
    (
      c',
      run,
      cc same,
      λ id. sym (read.users id) ∙ held.users id,
      λ id. sym (read.tunnels id) ∙ held.tunnels id,
    )
