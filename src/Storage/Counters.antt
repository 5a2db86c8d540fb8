-- ===== src/Storage/Counters.antt =====
-- The counters of the users across `Storage::save` of
-- server-package/crates/frp-game-server/src/storage.rs, for the accounting task of controller.rs.
use orange_frp.Prelude.{
  ℕ, ◌+◌, ◌≤◌, min, ◌≡◌, refl, sym, ap, ◌∙◌, subst, inl, inr, true, false, not, some, List, [], ◌∷◌,
  map, arith, nat_beq, if◌then◌else◌, Bool-cases, ◌==◌, nat_eq, list_eq, list_beq_iff, pair_eq,
  Fresh-Nodup, any, contains, count, Nodup-count, ok, map_err, ok_or, >>=-eq-ok, >>-eq-ok,
  fail_if-eq-ok, Text, is_empty, trim,
}
use orange_frp.Tunnel.{normalize_tunnels}
use orange_frp.Tunnel.Normalize.{IsUuidSource}
use orange_frp.Crypto.{Primitives, Bytes}
use orange_frp.Config.{
  ServerConfig, ServerUser, Argon2, reserved_ports, tunnel_error, public_backend_clash,
  not_initialized, stale_revision, i64_max, u64_max,
}
use orange_frp.Config.Sort.{sort, total, total-sort}
use orange_frp.Config.Normalize.{
  TunnelSets, UserSets, no_users, no_tunnels, account_leb, mark_user, check_server, check_user,
  check_tunnels, prepare_user, check_users, normalize_loaded_config,
}
use orange_frp.Config.Valid.Users.{check_users-Distinct}
use orange_frp.Accounting.{Task, Signal, turn}
use orange_frp.Accounting.Flush.{user_of, used}
use orange_frp.Accounting.Ledger.{KeepsCounters, ledger, ledger-turn}
use orange_frp.Storage.Snapshot.{write_snapshot}
use orange_frp.Storage.Legacy.{LegacyReader}
use orange_frp.Storage.Operations.{Store, commit, save}
use orange_frp.Storage.Refinement.{save-eq-ok}

-- The users with an identifier, and the sum of their counters.
abbrev is_one : Text → ServerUser → ℕ
is_one id u = if u.id == id then 1 else 0

abbrev counter : Text → ServerUser → ℕ
counter id u = if u.id == id then u.traffic_used_bytes else 0

abbrev ones : Text → List ServerUser → ℕ
ones id users = total (is_one id) users

abbrev counters : Text → List ServerUser → ℕ
counters id users = total (counter id) users

counters_zero : (id : Text) (users : List ServerUser) → ones id users ≡ 0 → counters id users ≡ 0
counters_zero id [] h = refl
counters_zero id (u ∷ users) h = elim (Bool-cases (u.id == id)) [
  | inl same ↦ absurd (omega (arith, rw same at h))
  | inr other ↦ rw other (omega (arith, counters_zero id users (omega (arith, rw other at h))))
]

-- With one user of the identifier the sum is that user's counter.
used-counters :
    (id : Text) (users : List ServerUser) → ones id users ≤ 1 → used id users ≡ counters id users
used-counters id [] h = refl
used-counters id (u ∷ users) h = elim (Bool-cases (u.id == id)) [
  | inl same ↦
      let none_left = counters_zero id users (omega (arith, rw same at h)) in
      rw same (omega (arith, none_left))
  | inr other ↦ rw other (omega (arith, used-counters id users (omega (arith, rw other at h))))
]

ones-count :
    (id : Text) (users : List ServerUser) → ones id users ≡ count id (map (λ u. u.id) users)
ones-count id [] = refl
ones-count id (u ∷ users) =
    ground (arith, ones-count id users, list_beq_iff u.id id, list_beq_iff id u.id)

module _ (prims : Primitives) (uuid : ℕ → Text) where
  -- A user with an identifier keeps it, and its counter.
  prepare_user-kept :
      (n : ℕ) (u : ServerUser)
      → is_empty (trim u.id) ≡ false
      → ((prepare_user prims uuid n u).0.id ≡ u.id)
        × ((prepare_user prims uuid n u).0.traffic_used_bytes ≡ u.traffic_used_bytes)
  unfolding prepare_user
  prepare_user-kept n u given = rw given (refl, refl)

  check_users-counters :
      (api_salt : Text) (reserved : List ℕ) (n : ℕ) (us : UserSets) (sets : TunnelSets)
      (users checked : List ServerUser) (sets' : TunnelSets) (m : ℕ) (id : Text) (u : ServerUser)
      → is_empty (trim id) ≡ false
      → user_of id users ≡ some u
      → check_users prims uuid api_salt reserved n us sets users ≡ ok (checked, sets', m)
      → (1 ≤ ones id checked) × (ones id checked ≤ 1 → counters id checked ≡ u.traffic_used_bytes)
  unfolding check_users
  check_users-counters api_salt reserved n us sets [] checked sets' m id u given known h =
      absurd (cc known)
  check_users-counters api_salt reserved n us sets (v ∷ rest) checked sets' m id u given known h =
      let user = (prepare_user prims uuid n v).0 in
      let (passed, h1) = >>-eq-ok (check_user prims api_salt us user) _ h in
      let ((tunnels, n1), normal, h2) =
        >>=-eq-ok
          (map_err tunnel_error
            (normalize_tunnels uuid (prepare_user prims uuid n v).1 user.tunnels))
          _ h1 in
      let ((named, sets1, n2), loop, h3) =
        >>=-eq-ok (check_tunnels prims uuid reserved n1 sets tunnels) _ h2 in
      let ((users, sets2, n3), others, last) =
        >>=-eq-ok (check_users prims uuid api_salt reserved n2 (mark_user us user) sets1 rest) _
          h3 in
      let e : record user { tunnels = named } ∷ users ≡ checked = cc last in
      subst
        (λ (xs : List ServerUser).
          (1 ≤ ones id xs) × (ones id xs ≤ 1 → counters id xs ≡ u.traffic_used_bytes))
        e
        (elim (Bool-cases (v.id == id)) [
          | inl same ↦
              let is_u : some v ≡ some u = rw same at known in
              let is_u' : v ≡ u = cc is_u in
              let is_id = (list_beq_iff v.id id).0 same in
              let (kept, counted) =
                prepare_user-kept n v (subst (λ t. is_empty (trim t) ≡ false) (sym is_id) given) in
              let mine : (user.id == id) ≡ true = (list_beq_iff user.id id).1 (kept ∙ is_id) in
              let bytes : user.traffic_used_bytes ≡ u.traffic_used_bytes =
                counted ∙ ap (λ (x : ServerUser). x.traffic_used_bytes) is_u' in
              rw mine (
                omega arith,
                λ single. omega (arith, bytes, counters_zero id users (omega (arith, single))),
              )
          | inr other ↦
              let (some_left, sum) =
                check_users-counters api_salt reserved n2 (mark_user us user) sets1 rest users sets2
                  n3 id u given (rw other at known) others in
              elim (Bool-cases (user.id == id)) [
                | inl twice ↦
                    rw twice (
                      omega (arith, some_left),
                      λ single. absurd (omega (arith, some_left, single)),
                    )
                | inr apart ↦
                    rw apart (
                      omega (arith, some_left),
                      λ single. omega (arith, sum (omega (arith, single))),
                    )
              ]
        ])

  -- Normalisation keeps the counter of a known user.
  normalize_loaded_config-used :
      IsUuidSource uuid
      → (n : ℕ) (c normal : ServerConfig) (m : ℕ) (id : Text) (u : ServerUser)
      → is_empty (trim id) ≡ false
      → user_of id c.users ≡ some u
      → normalize_loaded_config prims uuid n c ≡ ok (normal, m)
      → used id normal.users ≡ used id c.users
  unfolding normalize_loaded_config
  normalize_loaded_config-used source n c normal m id u given known h =
      let (checked, h1) = >>-eq-ok (check_server prims c) _ h in
      let ((users, sets, n1), loop, h2) =
        >>=-eq-ok
          (check_users prims uuid c.api_salt (reserved_ports c) n no_users no_tunnels c.users) _
          h1 in
      let (apart, last) =
        fail_if-eq-ok (any (contains sets.backend_ports) sets.public_port_numbers)
          public_backend_clash _ h2 in
      let (good, du, dt, marked) =
        check_users-Distinct prims uuid source c.api_salt (reserved_ports c) n no_users no_tunnels
          c.users users sets n1 loop in
      let e : record c { users = sort account_leb users } ≡ normal = cc last in
      let e' : sort account_leb users ≡ normal.users = ap (λ (x : ServerConfig). x.users) e in
      let single : ones id users ≤ 1 = rw (ones-count id users) (
        Nodup-count id (map (λ (x : ServerUser). x.id) users)
          (Fresh-Nodup [] (map (λ (x : ServerUser). x.id) users) du.ids)) in
      let (_, sum) =
        check_users-counters c.api_salt (reserved_ports c) n no_users no_tunnels c.users users sets
          n1 id u given known loop in
      let sorted_single : ones id (sort account_leb users) ≤ 1 =
        omega (arith, single, total-sort account_leb (is_one id) users) in
      let before : used id c.users ≡ u.traffic_used_bytes = rw known refl in
      subst (λ (xs : List ServerUser). used id xs ≡ used id c.users) e'
        (used-counters id (sort account_leb users) sorted_single
          ∙ total-sort account_leb (counter id) users
          ∙ sum single
          ∙ sym before)

module _ (prims : Primitives) (argon : Argon2) (uuid : ℕ → Text) (random : ℕ → Bytes)
    (reader : LegacyReader) (source : IsUuidSource uuid) where
  commit-used :
      (c : ServerConfig) (ready stored : Store) (saved : ServerConfig) (id : Text) (u : ServerUser)
      → is_empty (trim id) ≡ false
      → user_of id c.users ≡ some u
      → commit prims argon uuid random reader c ready ≡ ok (stored, saved)
      → used id saved.users ≡ used id c.users
  unfolding commit
  commit-used c ready stored saved id u given known h =
      let ((normal, issued), normalized, h1) =
        >>=-eq-ok (normalize_loaded_config prims uuid ready.issued c) _ h in
      let (row, found, h2) = >>=-eq-ok (ok_or ready.database.settings not_initialized) _ h1 in
      let (same, h3) =
        fail_if-eq-ok (not (nat_beq row.revision normal.revision)) stale_revision _ h2 in
      let next : ServerConfig = record normal { revision = min (row.revision + 1) i64_max } in
      let (db, written, last) = >>=-eq-ok (write_snapshot next ready.database) _ h3 in
      let e : next ≡ saved = cc last in
      subst (λ (x : ServerConfig). used id x.users ≡ used id c.users) e
        (normalize_loaded_config-used prims uuid source ready.issued c normal issued id u given
          known normalized)

  save-KeepsCounters :
      (s : Store) → KeepsCounters (λ c. (save prims argon uuid random reader s c).1)
  save-KeepsCounters s id c saved u given known h =
      let (ready, init, done) = save-eq-ok prims argon uuid random reader s c saved h in
      commit-used c ready _ saved id u given known done

  -- The ledger of a known user, the bytes counted, pending and in the channel, is the same after a
  -- turn of the accounting loop that goes on, with the storage as it then is, whether its save
  -- succeeds or fails, while the ledger is within 64 bits.
  pub turn-ledger :
      (store : Store) (id : Text) (t : Task) (s : Signal) (u : ServerUser)
      → is_empty (trim id) ≡ false
      → user_of id t.config.users ≡ some u
      → ledger id t ≤ u64_max
      → (turn (λ c. (save prims argon uuid random reader store c).1) t s).1 ≡ true
      → ledger id (turn (λ c. (save prims argon uuid random reader store c).1) t s).0 ≡ ledger id t
  turn-ledger store = ledger-turn _ (save-KeepsCounters store)
