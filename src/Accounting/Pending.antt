-- ===== src/Accounting/Pending.antt =====
-- What the pending traffic holds: the bytes of the events, by user and by proxy.
use orange_frp.Prelude.{
  ℕ, ◌+◌, ◌≤◌, ◌≡◌, inl, inr, List, [], ◌∷◌, arith, if◌then◌else◌, Bool-cases, Option-cases, ◌==◌,
  nat_eq, list_eq, list_beq_iff, pair_eq, lookup, lookup-insert, or_default, part, Text,
}
use orange_frp.Config.{saturating_add, u64_max}
use orange_frp.Accounting.{
  TrafficEvent, PendingProxyTraffic, Pending, no_traffic, add_to_user, add_event, drain_events,
}

abbrev pub proxy_bytes : PendingProxyTraffic → ℕ
proxy_bytes p = p.traffic_in + p.traffic_out

abbrev pub pending_total : Text → Pending → ℕ
pending_total id pending = part (λ u. u.total) (lookup id pending)

-- The bytes of the events of a user.
abbrev pub user_bytes : Text → List TrafficEvent → ℕ
user_bytes id [] = 0
user_bytes id (e ∷ events) = (if e.user_id == id then e.bytes else 0) + user_bytes id events

pub saturating_add-exact : (a b : ℕ) → a + b ≤ u64_max → saturating_add a b ≡ a + b
unfolding saturating_add
saturating_add-exact a b h = omega arith

pub pending_total-add_event :
    (id : Text) (pending : Pending) (e : TrafficEvent)
    → pending_total id pending + user_bytes id (e ∷ []) ≤ u64_max
    → pending_total id (add_event pending e) ≡ pending_total id pending + user_bytes id (e ∷ [])
unfolding add_event add_to_user
pending_total-add_event id pending e fits = elim (Bool-cases (e.user_id == id)) [
  | inl same ↦
      let same' = (list_beq_iff e.user_id id).0 same in
      let next = add_to_user e (or_default no_traffic (lookup e.user_id pending)) in
      rw (lookup-insert e.user_id id next pending)
        (rw same (rw same' (total_after (rw same at fits))))
  | inr other ↦
      let next = add_to_user e (or_default no_traffic (lookup e.user_id pending)) in
      rw (lookup-insert e.user_id id next pending) (rw other (omega arith))
]
  where
    total_after :
        pending_total id pending + (e.bytes + 0) ≤ u64_max
        → saturating_add (or_default no_traffic (lookup id pending)).total e.bytes
          ≡ pending_total id pending + (e.bytes + 0)
    total_after h = elim (Option-cases (lookup id pending)) [
      | inl absent ↦
          rw absent
            (rw (saturating_add-exact 0 e.bytes (omega (arith, rw absent at h))) (omega arith))
      | inr (u, found) ↦
          rw found
            (rw (saturating_add-exact u.total e.bytes (omega (arith, rw found at h))) (omega arith))
    ]

-- Draining the channel adds to each user's pending total exactly the bytes of the user's events,
-- while the total stays within 64 bits.
pub pending_total-drain_events :
    (id : Text) (events : List TrafficEvent) (pending : Pending)
    → pending_total id pending + user_bytes id events ≤ u64_max
    → pending_total id (drain_events events pending)
      ≡ pending_total id pending + user_bytes id events
unfolding drain_events
pending_total-drain_events id [] pending fits = omega arith
pending_total-drain_events id (e ∷ events) pending fits =
    let first = pending_total-add_event id pending e (omega arith) in
    omega (
      arith,
      first,
      pending_total-drain_events id events (add_event pending e) (rw first (omega arith)),
    )
