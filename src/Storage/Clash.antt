-- ===== src/Storage/Clash.antt =====
-- Removed tunnels stand in the way of new ones: `write_snapshot` of
-- server-package/crates/frp-game-server/src/storage.rs deletes them after its insertions.
use orange_frp.Prelude.{
  ℕ, ◌≡◌, refl, sym, ap, ◌∙◌, subst, inl, inr, true, false, not, ◌||◌, some, List, [], ◌∷◌, ◌++◌,
  map, append-nil, arith, nat_beq_iff, Bool-cases, Eq, ◌==◌, nat_eq, list_eq, list_beq_iff, pair_eq,
  insert_all, lookup-insert_all-absent, lookup-retain-kept, contains, keys, lookup, lookup-insert,
  ok, err, >>=-eq-ok, Result-cases, Text,
}
use orange_frp.Tunnel.{Tunnel}
use orange_frp.Config.{ServerConfig, ServerUser, Error, sql_i64}
use orange_frp.Config.Normalize.{public_key}
use orange_frp.Config.Valid.{all_tunnels}
use orange_frp.Storage.Tables.{
  Database, UserRow, TunnelRow, user_row, upsert_user, settings_row, tunnel_row, upsert_settings,
  upsert_tunnel, delete_user_row, taken, tunnel_clash,
}
use orange_frp.Storage.Snapshot.{
  delete_missing_users, write_tunnels, write_user, write_users, prepared, write_snapshot,
}
use orange_frp.Storage.Written.{
  tunnels_of_user, upsert_user-eq-ok, upsert_tunnel-eq-ok, write_user-eq-ok,
}
use orange_frp.Storage.Represents.{keys-tunnels_of_user}

-- A row under another identifier that clashes is found.
taken_by :
    (i id : Text) (r row : TunnelRow) (table : List (Text × TunnelRow))
    → lookup i table ≡ some r
    → (i == id) ≡ false
    → tunnel_clash r row ≡ true
    → taken tunnel_clash id row table ≡ true
taken_by i id r row [] here other clash = absurd (ground arith)
taken_by i id r row ((j, w) ∷ table) here other clash = elim (Bool-cases (j == i)) [
  | inl same ↦
      let e : some w ≡ some r = rw same at here in
      let e' : w ≡ r = cc e in rw ((list_beq_iff j i).0 same, e', other, clash) refl
  | inr differs ↦ ground (arith, taken_by i id r row table (rw differs at here) other clash)
]

tunnel_clash-key :
    (r : TunnelRow) (user_id : Text) (t : Tunnel)
    → (public_key t == (r.protocol, r.public_port)) ≡ true
    → tunnel_clash r (tunnel_row user_id t) ≡ true
unfolding tunnel_clash
tunnel_clash-key r user_id t h = ground (
  arith,
  list_beq_iff t.protocol r.protocol,
  list_beq_iff r.protocol t.protocol,
  nat_beq_iff t.remote_port r.public_port,
  nat_beq_iff r.public_port t.remote_port,
)

contains-map-append :
    {A B : Type 0} ⦃e : Eq B⦄ (f : A → B) (xs ys : List A) (b : B)
    → contains (map f (xs ++ ys)) b ≡ (contains (map f xs) b || contains (map f ys) b)
contains-map-append f [] ys b = refl
contains-map-append f (x ∷ xs) ys b = ground (arith, contains-map-append f xs ys b)

module _ (i : Text) (r : TunnelRow) where
  abbrev Key : Text × ℕ
  Key = (r.protocol, r.public_port)

  kept_tunnels :
      (user_id : Text) (ts : List Tunnel) (table : List (Text × TunnelRow))
      → contains (map (λ t. t.id) ts) i ≡ false
      → lookup i (insert_all (tunnels_of_user user_id ts) table) ≡ lookup i table
  kept_tunnels user_id ts table absent =
      lookup-insert_all-absent i (tunnels_of_user user_id ts) table (
        subst (λ ks. contains ks i ≡ false)
          (sym (
            sym (ap keys (append-nil (tunnels_of_user user_id ts)))
            ∙ keys-tunnels_of_user user_id ts []
            ∙ append-nil (map (λ t. t.id) ts)))
          absent)

  blocked_tunnels :
      (user_id : Text) (ts : List Tunnel) (db db' : Database)
      → lookup i db.tunnels ≡ some r
      → contains (map (λ t. t.id) ts) i ≡ false
      → contains (map public_key ts) Key ≡ true
      → write_tunnels user_id ts db ≡ ok db'
      → ⊥
  unfolding write_tunnels
  blocked_tunnels user_id [] db db' here absent there h = absurd (ground arith)
  blocked_tunnels user_id (t ∷ ts) db db' here absent there h =
      let row = tunnel_row user_id t in
      let (db1, first, rest) = >>=-eq-ok (upsert_tunnel t.id row db) _ h in
      let (known, free, e) = upsert_tunnel-eq-ok t.id row db db1 first in
      let other : (t.id == i) ≡ false = ground arith in
      let other' : (i == t.id) ≡ false = ground (arith, list_beq_iff t.id i, list_beq_iff i t.id) in
      elim (Bool-cases (public_key t == Key)) [
        | inl same ↦
            let hit =
              taken_by i t.id r row db.tunnels here other' (tunnel_clash-key r user_id t same) in
            absurd (ground arith)
        | inr differs ↦
            blocked_tunnels user_id ts db1 db'
              (ap (λ (d : Database). lookup i d.tunnels) e
                ∙ (rw (lookup-insert t.id i row db.tunnels) (rw other here)))
              (ground arith) (ground arith) rest
      ]

  blocked_user :
      (u : ServerUser) (db db' : Database)
      → lookup i db.tunnels ≡ some r
      → contains (map (λ t. t.id) u.tunnels) i ≡ false
      → contains (map public_key u.tunnels) Key ≡ true
      → write_user u db ≡ ok db'
      → ⊥
  unfolding write_user
  blocked_user u db db' here absent there h =
      let (limit, l, h0) = >>=-eq-ok (sql_i64 u.traffic_limit_bytes) _ h in
      let (used, v, h1) = >>=-eq-ok (sql_i64 u.traffic_used_bytes) _ h0 in
      let stored : UserRow = record (user_row u) {
        traffic_limit_bytes = limit;
        traffic_used_bytes = used;
      } in
      let (db1, first, h2) = >>=-eq-ok (upsert_user u.id stored db) _ h1 in
      let (db2, second, third) = >>=-eq-ok (write_tunnels u.id u.tunnels db1) _ h2 in
      let e = (upsert_user-eq-ok u.id stored db db1 first).1 in
      blocked_tunnels u.id u.tunnels db1 db2 (ap (λ (d : Database). lookup i d.tunnels) e ∙ here)
        absent there second

  blocked_users :
      (us : List ServerUser) (db db' : Database)
      → lookup i db.tunnels ≡ some r
      → contains (map (λ t. t.id) (all_tunnels us)) i ≡ false
      → contains (map public_key (all_tunnels us)) Key ≡ true
      → write_users us db ≡ ok db'
      → ⊥
  unfolding write_users
  blocked_users [] db db' here absent there h = absurd (ground arith)
  blocked_users (u ∷ us) db db' here absent there h =
      let (db1, first, rest) = >>=-eq-ok (write_user u db) _ h in
      let ids = contains-map-append (λ (t : Tunnel). t.id) u.tunnels (all_tunnels us) i in
      let ports = contains-map-append public_key u.tunnels (all_tunnels us) Key in
      elim (Bool-cases (contains (map public_key u.tunnels) Key)) [
        | inl mine ↦ blocked_user u db db1 here (ground arith) mine first
        | inr others ↦
            blocked_users us db1 db'
              (ap (λ (d : Database). lookup i d.tunnels) (write_user-eq-ok u db db1 first)
                ∙ (rw (append-nil (tunnels_of_user u.id u.tunnels))
                    (kept_tunnels u.id u.tunnels db.tunnels (ground arith) ∙ here)))
              (ground arith) (ground arith) rest
      ]

  delete_missing_users-kept :
      (current ids : List Text) (db : Database)
      → contains current r.user_id ≡ true
      → lookup i db.tunnels ≡ some r
      → lookup i (delete_missing_users current ids db).tunnels ≡ some r
  unfolding delete_missing_users delete_user_row
  delete_missing_users-kept current [] db stays here = here
  delete_missing_users-kept current (id ∷ ids) db stays here =
      elim (Bool-cases (contains current id)) [
        | inl kept ↦ delete_missing_users-kept current ids _ stays (rw kept here)
        | inr gone ↦
            let other : (r.user_id == id) ≡ false = elim (Bool-cases (r.user_id == id)) [
              | inr differs ↦ differs
              | inl same ↦
                  let stays' : contains current id ≡ true =
                    subst (λ x. contains current x ≡ true) ((list_beq_iff r.user_id id).0 same)
                      stays in
                  absurd (ground arith)
            ] in
            delete_missing_users-kept current ids _ stays (
              rw gone (
                lookup-retain-kept (λ entry. not (entry.1.user_id == id)) i db.tunnels r here
                  (rw other refl)))
      ]

-- A removed tunnel of a user that stays blocks its public port: if the new configuration has that
-- port of the protocol under another identifier, nothing is written.
pub write_snapshot_blocked :
    (c : ServerConfig) (db : Database) (i : Text) (r : TunnelRow)
    → lookup i db.tunnels ≡ some r
    → contains (map (λ u. u.id) c.users) r.user_id ≡ true
    → contains (map (λ t. t.id) (all_tunnels c.users)) i ≡ false
    → contains (map public_key (all_tunnels c.users)) (r.protocol, r.public_port) ≡ true
    → (error : Error) × (write_snapshot c db ≡ err error)
unfolding write_snapshot prepared
write_snapshot_blocked c db i r here stays removed again =
    elim (Result-cases (write_users c.users (prepared c db))) [
      | inr (error, e) ↦ (error, rw (e, write_snapshot) refl)
      | inl (db', e) ↦ absurd (
          blocked_users i r c.users (prepared c db) db'
            (delete_missing_users-kept i r (map (λ u. u.id) c.users) (keys db.users)
              (upsert_settings (settings_row c) db) stays here)
            removed again e)
    ]
