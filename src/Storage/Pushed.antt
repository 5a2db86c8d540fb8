-- ===== src/Storage/Pushed.antt =====
-- What each loop of `Storage::read` in server-package/crates/frp-game-server/src/storage.rs adds to the
-- users.
use orange_frp.Prelude.{
  ℕ, ◌^◌, ◌<◌, ◌≡◌, refl, sym, ap, ◌∙◌, subst, inl, inr, true, false, ◌||◌, some, List, [], ◌∷◌,
  ◌++◌, append_assoc, arith, if◌then◌else◌, Bool-cases, ◌==◌, nat_eq, list_eq, list_beq_iff,
  pair_eq, AllValues, lookup-append, keys-append, lookup, contains_key, ok, Text,
}
use orange_frp.Tunnel.{Tunnel}
use orange_frp.Config.{ServerUser, ProxyTrafficRecord}
use orange_frp.Storage.Tables.{UserRow, TunnelRow, user_row, tunnel_row}
use orange_frp.Storage.Read.{sql_u16, sql_u32, read_user, push_tunnel, put_record, read_users}
use orange_frp.Storage.Written.{users_table, tunnels_of_user, tunnels_table}
use orange_frp.Storage.Invariant.{UserFits}

pub sql_u16-fits : (n : ℕ) → n < 2 ^ 16 → sql_u16 n ≡ ok n
unfolding sql_u16
sql_u16-fits n h = ground arith

sql_u32-fits : (n : ℕ) → n < 2 ^ 32 → sql_u32 n ≡ ok n
unfolding sql_u32
sql_u32-fits n h = ground arith

abbrev user_of_row : Text → UserRow → ServerUser
user_of_row id row = record {
  id = id;
  account = row.account;
  password_hash = row.password_hash;
  password_encrypted = row.password_encrypted;
  secret = row.secret;
  tunnels = [];
  tunnel_limit = row.tunnel_limit;
  traffic_limit_bytes = row.traffic_limit_bytes;
  traffic_used_bytes = row.traffic_used_bytes;
  speed_limit_mbps = row.speed_limit_mbps;
  traffic_by_proxy = [];
  created_at = row.created_at;
  updated_at = row.updated_at;
}

-- The users are read with their columns, and with no tunnel yet.
pub read_users_fit :
    (rows : List (Text × UserRow))
    → AllValues UserFits rows
    → (us : List ServerUser) × (read_users rows ≡ ok us)
      × (users_table us ≡ rows)
      × (tunnels_table us ≡ [])
unfolding read_users read_user
read_users_fit [] f = ([], refl, refl, refl)
read_users_fit ((id, row) ∷ rows) f =
    let (us, run, table, none_yet) = read_users_fit rows f.1 in
    (
      user_of_row id row ∷ us,
      rw (sql_u32-fits row.tunnel_limit f.0.0, sql_u32-fits row.speed_limit_mbps f.0.1, run) refl,
      ap (◌∷◌ (id, row)) table,
      none_yet,
    )

pub users_table-push_tunnel :
    (user_id : Text) (t : Tunnel) (us : List ServerUser)
    → users_table (push_tunnel user_id t us) ≡ users_table us
unfolding push_tunnel
users_table-push_tunnel user_id t [] = refl
users_table-push_tunnel user_id t (u ∷ us) = elim (Bool-cases (u.id == user_id)) [
  | inl mine ↦ rw (mine, push_tunnel) refl
  | inr other ↦
      rw (other, push_tunnel) (ap (◌∷◌ (u.id, user_row u)) (users_table-push_tunnel user_id t us))
]

pub put_record-tables :
    (user_id name : Text) (r : ProxyTrafficRecord) (us : List ServerUser)
    → (users_table (put_record user_id name r us) ≡ users_table us)
      × (tunnels_table (put_record user_id name r us) ≡ tunnels_table us)
unfolding put_record
put_record-tables user_id name r [] = (refl, refl)
put_record-tables user_id name r (u ∷ us) =
    let rest = put_record-tables user_id name r us in
    elim (Bool-cases (u.id == user_id)) [
      | inl mine ↦ rw (mine, put_record) (refl, refl)
      | inr other ↦
          rw (other, put_record)
            (
              ap (◌∷◌ (u.id, user_row u)) rest.0,
              ap (λ m. tunnels_of_user u.id u.tunnels ++ m) rest.1,
            )
    ]

pushed_here :
    (id : Text) (t : Tunnel) (ts : List Tunnel) (rest : List (Text × TunnelRow))
    → tunnels_of_user id (ts ++ t ∷ []) ++ rest
      ≡ tunnels_of_user id ts ++ (t.id, tunnel_row id t) ∷ rest
pushed_here id t [] rest = refl
pushed_here id t (x ∷ ts) rest = ap (◌∷◌ (x.id, tunnel_row id x)) (pushed_here id t ts rest)

module _ (user_id : Text) (t : Tunnel) where
  -- The new tunnel's row stands among those that were there.
  push_tunnel-split :
      (us : List ServerUser)
      → contains_key user_id (users_table us) ≡ true
      → (before : List (Text × TunnelRow)) × (after : List (Text × TunnelRow)) × (tunnels_table us
          ≡ before ++ after)
        × (tunnels_table (push_tunnel user_id t us)
            ≡ before ++ (t.id, tunnel_row user_id t) ∷ after)
  unfolding push_tunnel
  push_tunnel-split [] known = absurd (ground arith)
  push_tunnel-split (u ∷ us) known =
      let mine = tunnels_of_user u.id u.tunnels in
      elim (Bool-cases (u.id == user_id)) [
        | inl same ↦ (
          mine,
          tunnels_table us,
          refl,
          rw (same, push_tunnel)
              (pushed_here u.id t u.tunnels (tunnels_table us)
                ∙ ap (λ id. mine ++ (t.id, tunnel_row id t) ∷ tunnels_table us)
                    ((list_beq_iff u.id user_id).0 same)),
        )
        | inr other ↦
            let (before, after, old, new) = push_tunnel-split us (ground arith) in
            (
              mine ++ before,
              after,
              ap (λ m. mine ++ m) old ∙ sym (append_assoc mine before after),
              rw (other, push_tunnel)
                  (ap (λ m. mine ++ m) new
                    ∙ sym (append_assoc mine before ((t.id, tunnel_row user_id t) ∷ after))),
            )
      ]

  pub keys-push_tunnel :
      (k : Text) (us : List ServerUser)
      → contains_key user_id (users_table us) ≡ true
      → contains_key k (tunnels_table (push_tunnel user_id t us))
        ≡ (t.id == k || contains_key k (tunnels_table us))
  keys-push_tunnel k us known =
      let (before, after, old, new) = push_tunnel-split us known in
      rw (old, new)
        (ground (
          arith,
          keys-append k before ((t.id, tunnel_row user_id t) ∷ after),
          keys-append k before after,
        ))

  pub lookup-push_tunnel :
      (k : Text) (us : List ServerUser)
      → contains_key user_id (users_table us) ≡ true
      → contains_key t.id (tunnels_table us) ≡ false
      → lookup k (tunnels_table (push_tunnel user_id t us))
        ≡ (if t.id == k then some (tunnel_row user_id t) else lookup k (tunnels_table us))
  lookup-push_tunnel k us known absent =
      let (before, after, old, new) = push_tunnel-split us known in
      let row = tunnel_row user_id t in
      let absent' = rw old at absent in
      rw (old, new, lookup-append k before ((t.id, row) ∷ after), lookup-append k before after)
        (elim (Bool-cases (t.id == k)) [
          | inr other ↦ rw other refl
          | inl same ↦
              let gone : contains_key k before ≡ false =
                subst (λ x. contains_key x before ≡ false) ((list_beq_iff t.id k).0 same)
                  (ground (arith, keys-append t.id before after)) in
              rw (same, gone) refl
        ])
