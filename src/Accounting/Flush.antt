-- ===== src/Accounting/Flush.antt =====
-- A flush moves what is pending into the users' counters and records.
use orange_frp.Prelude.{
  ℕ, ◌+◌, ◌≤◌, ◌≡◌, refl, sym, ap, inl, inr, Option, none, some, List, [], ◌∷◌, map, arith,
  Bool-cases, Option-cases, ◌==◌, nat_eq, list_eq, list_beq_iff, pair_eq, find, lookup, insert,
  or_default, part, value_sum, value_sum-insert, Text,
}
use orange_frp.Config.{ServerUser, ProxyTrafficRecord, u64_max}
use orange_frp.Accounting.{
  PendingProxyTraffic, Proxies, Pending, new_record, add_to_record, Records, flush_proxies,
  flush_update, flush_user,
}
use orange_frp.Accounting.Pending.{pending_total, proxy_bytes, saturating_add-exact}

abbrev pub user_of : Text → List ServerUser → Option ServerUser
user_of id users = find (λ u. u.id == id) users

-- The counter of a user.
abbrev pub used : Text → List ServerUser → ℕ
used id users = part (λ u. u.traffic_used_bytes) (user_of id users)

abbrev pub record_bytes : ProxyTrafficRecord → ℕ
record_bytes r = r.traffic_in_bytes + r.traffic_out_bytes

flush_user-used :
    (pending : Pending) (u : ServerUser)
    → u.traffic_used_bytes + pending_total u.id pending ≤ u64_max
    → (flush_user pending u).traffic_used_bytes ≡ u.traffic_used_bytes + pending_total u.id pending
unfolding flush_user flush_update
flush_user-used pending u fits = elim (Option-cases (lookup u.id pending)) [
  | inl absent ↦ rw (absent, flush_user) (omega arith)
  | inr (update, found) ↦
      rw (found, flush_user)
        (saturating_add-exact u.traffic_used_bytes update.total (rw found at fits))
]

flush_user-id : (pending : Pending) (u : ServerUser) → (flush_user pending u).id ≡ u.id
unfolding flush_user flush_update
flush_user-id pending u = elim (Option-cases (lookup u.id pending)) [
  | inl absent ↦ rw (absent, flush_user) refl
  | inr (update, found) ↦ rw (found, flush_user) refl
]

pub user_of-flush :
    (id : Text) (pending : Pending) (users : List ServerUser) (u : ServerUser)
    → user_of id users ≡ some u
    → user_of id (map (flush_user pending) users) ≡ some (flush_user pending u)
unfolding flush_user
user_of-flush id pending [] u known = absurd (cc known)
user_of-flush id pending (v ∷ users) u known = elim (Bool-cases (v.id == id)) [
  | inl same ↦
      let e : some v ≡ some u = rw same at known in
      let e' : v ≡ u = cc e in
      rw (flush_user-id pending v) (rw same (ap (λ x. some (flush_user pending x)) e'))
  | inr other ↦
      rw (flush_user-id pending v) (rw other (user_of-flush id pending users u (rw other at known)))
]

-- A flush over the users adds to the counter of a known user exactly what is pending for the user,
-- while the counter stays within 64 bits.
pub used-flush :
    (id : Text) (pending : Pending) (users : List ServerUser) (u : ServerUser)
    → user_of id users ≡ some u
    → used id users + pending_total id pending ≤ u64_max
    → used id (map (flush_user pending) users) ≡ used id users + pending_total id pending
used-flush id pending [] u known fits = absurd (ground arith)
used-flush id pending (v ∷ users) u known fits = elim (Bool-cases (v.id == id)) [
  | inl same ↦
      let same' = (list_beq_iff v.id id).0 same in
      rw (flush_user-id pending v)
        (rw same (rw (sym same') (flush_user-used pending v (rw (sym same') at (rw same at fits)))))
  | inr other ↦
      rw (flush_user-id pending v)
        (rw other (used-flush id pending users u (rw other at known) (rw other at fits)))
]

part-le-value_sum :
    (k : Text) (records : Records)
    → part record_bytes (lookup k records) ≤ value_sum record_bytes records
part-le-value_sum k [] = omega arith
part-le-value_sum k ((j, r) ∷ records) = elim (Bool-cases (j == k)) [
  | inl same ↦ rw same (omega arith)
  | inr other ↦ rw other (omega (arith, part-le-value_sum k records))
]

record_bytes-add_to_record :
    (p : PendingProxyTraffic) (found : Option ProxyTrafficRecord)
    → part record_bytes found + proxy_bytes p ≤ u64_max
    → record_bytes (add_to_record p (or_default (new_record p) found))
      ≡ part record_bytes found + proxy_bytes p
unfolding add_to_record
record_bytes-add_to_record p none fits = omega (
  arith,
  saturating_add-exact 0 p.traffic_in (omega arith),
  saturating_add-exact 0 p.traffic_out (omega arith),
)
record_bytes-add_to_record p (some r) fits = omega (
  arith,
  saturating_add-exact r.traffic_in_bytes p.traffic_in (omega arith),
  saturating_add-exact r.traffic_out_bytes p.traffic_out (omega arith),
)

-- A flush adds to the records of a user exactly the bytes pending for the user's proxies, while
-- the records stay within 64 bits.
pub value_sum-flush_proxies :
    (proxies : Proxies) (records : Records)
    → value_sum record_bytes records + value_sum proxy_bytes proxies ≤ u64_max
    → value_sum record_bytes (flush_proxies proxies records)
      ≡ value_sum record_bytes records + value_sum proxy_bytes proxies
unfolding flush_proxies
value_sum-flush_proxies [] records fits = omega arith
value_sum-flush_proxies (((proxy_name, protocol), p) ∷ proxies) records fits =
    let found = lookup proxy_name records in
    let next = add_to_record p (or_default (new_record p) found) in
    let le = part-le-value_sum proxy_name records in
    let grown = record_bytes-add_to_record p found (omega arith) in
    let sum : value_sum record_bytes (insert proxy_name next records)
        ≡ value_sum record_bytes records + proxy_bytes p =
      omega (arith, grown, value_sum-insert record_bytes proxy_name next records) in
    omega (
      arith,
      sum,
      value_sum-flush_proxies proxies (insert proxy_name next records) (rw sum (omega arith)),
    )
