-- ===== src/Storage/Succeeds.antt =====
-- A valid configuration can be written over rows that do not clash with it:
-- `write_snapshot` and `create` of server-package/crates/frp-game-server/src/storage.rs.
use orange_frp.Prelude.{
  ℕ, ◌≤◌, ◌≡◌, refl, ◌⊎◌, Bool, false, not, ◌&&◌, none, List, [], ◌∷◌, ◌++◌, map, arith,
  nat_beq_iff, ◌==◌, nat_eq, list_eq, list_beq_iff, pair_eq, AllValues, All, contains, Nodup, ok,
  Text,
}
use orange_frp.Tunnel.{Tunnel, tcp, udp}
use orange_frp.Tunnel.Normalize.{IsUuidSource}
use orange_frp.Crypto.{Primitives, Bytes}
use orange_frp.Config.{ServerConfig, ServerUser, Argon2, i64_max}
use orange_frp.Config.Normalize.{public_key, normalize_loaded_config}
use orange_frp.Config.Valid.{GoodTunnel, GoodUser, all_tunnels}
use orange_frp.Config.Valid.Config.{IsValid, normalize_loaded_config-IsValid}
use orange_frp.Controller.Specs.{count-Nodup}
use orange_frp.Storage.Tables.{Database, user_row, tunnel_row, user_clash, tunnel_clash}
use orange_frp.Storage.Snapshot.{prepared, cleared, write_snapshot}
use orange_frp.Storage.Legacy.{LegacyReader}
use orange_frp.Storage.Operations.{Store, settings_exist, save_new, create}
use orange_frp.Storage.Written.{users_table, tunnels_of_user, tunnels_table, written}
use orange_frp.Storage.Represents.{Represents, write_snapshot-Represents}
use orange_frp.Storage.Open.{Open, Apart, FitsUser, write_users-Open}

user_clear :
    (u : ServerUser) (us : List ServerUser)
    → contains (map (λ v. v.account) us) u.account ≡ false
    → contains (map (λ v. v.secret) us) u.secret ≡ false
    → All (λ row. (not (u.id == row.0) && user_clash (user_row u) row.1) ≡ false) (users_table us)
unfolding user_clash
user_clear u [] a s = tt
user_clear u (v ∷ us) a s = (
  ground (
    arith,
    list_beq_iff v.account u.account,
    list_beq_iff u.account v.account,
    list_beq_iff v.secret u.secret,
    list_beq_iff u.secret v.secret,
  ),
  user_clear u us (ground arith) (ground arith),
)

users_table-Apart :
    (us : List ServerUser)
    → Nodup (map (λ v. v.account) us)
    → Nodup (map (λ v. v.secret) us)
    → Apart user_clash (users_table us)
users_table-Apart [] a s = tt
users_table-Apart (u ∷ us) a s = (user_clear u us a.0 s.0, users_table-Apart us a.1 s.1)

-- The rest of one user's tunnels, and those of the users behind.
tunnel_clear :
    (t : Tunnel) (owner user_id : Text) (us : List ServerUser) (ts : List Tunnel)
    → contains (map (λ x. x.proxy_name) (ts ++ all_tunnels us)) t.proxy_name ≡ false
    → contains (map (λ x. x.backend_port) (ts ++ all_tunnels us)) t.backend_port ≡ false
    → contains (map public_key (ts ++ all_tunnels us)) (public_key t) ≡ false
    → All
        (λ row. (not (t.id == row.0) && tunnel_clash (tunnel_row owner t) row.1) ≡ false)
        (tunnels_of_user user_id ts ++ tunnels_table us)
unfolding tunnel_clash
tunnel_clear t owner user_id [] [] n b p = tt
tunnel_clear t owner user_id (u ∷ us) [] n b p = tunnel_clear t owner u.id us u.tunnels n b p
tunnel_clear t owner user_id us (x ∷ ts) n b p = (
  ground (
    arith,
    list_beq_iff x.proxy_name t.proxy_name,
    list_beq_iff t.proxy_name x.proxy_name,
    list_beq_iff x.protocol t.protocol,
    list_beq_iff t.protocol x.protocol,
    nat_beq_iff x.backend_port t.backend_port,
    nat_beq_iff t.backend_port x.backend_port,
    nat_beq_iff x.remote_port t.remote_port,
    nat_beq_iff t.remote_port x.remote_port,
  ),
  tunnel_clear t owner user_id us ts (ground arith) (ground arith) (ground arith),
)

tunnels_table-Apart :
    (user_id : Text) (us : List ServerUser) (ts : List Tunnel)
    → Nodup (map (λ x. x.proxy_name) (ts ++ all_tunnels us))
    → Nodup (map (λ x. x.backend_port) (ts ++ all_tunnels us))
    → Nodup (map public_key (ts ++ all_tunnels us))
    → Apart tunnel_clash (tunnels_of_user user_id ts ++ tunnels_table us)
tunnels_table-Apart user_id [] [] n b p = tt
tunnels_table-Apart user_id (u ∷ us) [] n b p = tunnels_table-Apart u.id us u.tunnels n b p
tunnels_table-Apart user_id us (x ∷ ts) n b p = (
  tunnel_clear x user_id user_id us ts n.0 b.0 p.0,
  tunnels_table-Apart user_id us ts n.1 b.1 p.1,
)

-- The counters of a configuration that SQLite can hold.
pub record CountersFit (u : ServerUser) : Type 0 where
  pub limit : u.traffic_limit_bytes ≤ i64_max
  pub used : u.traffic_used_bytes ≤ i64_max
  pub traffic :
      AllValues
        (λ r. (r.traffic_in_bytes ≤ i64_max) × (r.traffic_out_bytes ≤ i64_max))
        u.traffic_by_proxy

protocols_known :
    (reserved : List ℕ) (ts : List Tunnel)
    → All (GoodTunnel reserved) ts
    → All (λ t. (t.protocol ≡ tcp) ⊎ (t.protocol ≡ udp)) ts
protocols_known reserved [] a = tt
protocols_known reserved (t ∷ ts) a = (a.0.fields.transport, protocols_known reserved ts a.1)

All-FitsUser :
    (prims : Primitives) (salt : Text) (reserved : List ℕ) (us : List ServerUser)
    → All (GoodUser prims salt reserved) us
    → All CountersFit us
    → All FitsUser us
All-FitsUser prims salt reserved [] g f = tt
All-FitsUser prims salt reserved (u ∷ us) g f = (
  record {
    limit = f.0.limit;
    used = f.0.used;
    traffic = f.0.traffic;
    protocols = protocols_known reserved u.tunnels g.0.tunnels_good;
  },
  All-FitsUser prims salt reserved us g.1 f.1,
)

-- A valid configuration whose counters fit is written, and the database then represents it, if no
-- row that the deletion of users leaves clashes with one of its users or tunnels.
pub write_snapshot_total :
    (prims : Primitives) (c : ServerConfig) (db : Database)
    → IsValid prims c
    → All CountersFit c.users
    → Open user_clash (users_table c.users) (prepared c db).users
    → Open tunnel_clash (tunnels_table c.users) (prepared c db).tunnels
    → (db' : Database) × (write_snapshot c db ≡ ok db') × Represents db' c
unfolding write_snapshot
write_snapshot_total prims c db valid fit ou ot =
    let fits = All-FitsUser prims c.api_salt _ c.users valid.users fit in
    let au =
      users_table-Apart c.users (count-Nodup _ valid.accounts) (count-Nodup _ valid.secrets) in
    let at =
      tunnels_table-Apart [] c.users [] (count-Nodup _ valid.proxy_names)
        (count-Nodup _ valid.backends) (count-Nodup _ valid.public_ports) in
    let db' = cleared c (written c.users (prepared c db)) in
    let run : write_snapshot c db ≡ ok db' =
      rw (write_users-Open c.users (prepared c db) fits ou au ot at) refl in
    (
      db',
      run,
      write_snapshot-Represents c db db' (count-Nodup _ valid.user_ids)
          (count-Nodup _ valid.tunnel_ids) run,
    )

Open-nil : {R : Type 0} (clash : R → R → Bool) (rows : List (Text × R)) → Open clash rows []
Open-nil clash [] = tt
Open-nil clash (row ∷ rows) = (refl, Open-nil clash rows)

IsValid-revision :
    (prims : Primitives) (c : ServerConfig) (n : ℕ)
    → IsValid prims c
    → IsValid prims (record c { revision = n })
IsValid-revision prims c n v = record {
  server = record {
    api_port_set = v.server.api_port_set;
    frps_port_set = v.server.frps_port_set;
    plugin_port_set = v.server.plugin_port_set;
    api_frps = v.server.api_frps;
    api_plugin = v.server.api_plugin;
    frps_plugin = v.server.frps_plugin;
    api_bind_set = v.server.api_bind_set;
    public_bind_set = v.server.public_bind_set;
    salt = v.server.salt;
    salt_read = v.server.salt_read;
    salt_size = v.server.salt_size;
    token_set = v.server.token_set;
    binary_set = v.server.binary_set;
  };
  users = v.users;
  sorted = v.sorted;
  accounts = v.accounts;
  user_ids = v.user_ids;
  secrets = v.secrets;
  tunnel_ids = v.tunnel_ids;
  proxy_names = v.proxy_names;
  public_ports = v.public_ports;
  backends = v.backends;
  disjoint = v.disjoint;
}

-- A database without rows.
abbrev pub empty_database : Database
empty_database = record { settings = none; users = []; tunnels = []; traffic_records = [] }

pub create_total :
    (prims : Primitives) (argon : Argon2) (uuid : ℕ → Text) (random : ℕ → Bytes)
    (reader : LegacyReader)
    → IsUuidSource uuid
    → (s : Store) (c normal : ServerConfig) (issued : ℕ) → s.database ≡ empty_database
    → normalize_loaded_config prims uuid s.issued c ≡ ok (normal, issued)
    → All CountersFit normal.users
    → (s' : Store) × (create prims argon uuid random reader s c
        ≡ ok (s', record normal { revision = 1 }))
      × Represents s'.database (record normal { revision = 1 })
unfolding create save_new settings_exist prepared
create_total prims argon uuid random reader source s c normal issued fresh normalized fit =
    let first : ServerConfig = record normal { revision = 1 } in
    let valid =
      IsValid-revision prims normal 1 (
        (normalize_loaded_config-IsValid prims uuid source s.issued c normal issued
          normalized).0) in
    let (db, run, represents) =
      write_snapshot_total prims first empty_database valid fit
        (Open-nil user_clash (users_table first.users))
        (Open-nil tunnel_clash (tunnels_table first.users)) in
    (
      record s { database = db; issued = issued },
      rw (fresh, create) (rw (normalized, save_new) (rw run refl)),
      represents,
    )
