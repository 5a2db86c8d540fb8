-- ===== src/Accounting/Ledger.antt =====
-- Across the turns of the accounting task no byte is lost and none is counted twice.
use orange_frp.Prelude.{
  ℕ, ◌+◌, ◌≤◌, ◌≡◌, refl, sym, ◌∙◌, true, false, some, List, [], ◌∷◌, map, arith, nat_eq, list_eq,
  pair_eq, Result, ok, err, Text, is_empty, trim,
}
use orange_frp.Config.{ServerConfig, ServerUser, Error, u64_max}
use orange_frp.Accounting.{
  TrafficEvent, Pending, drain_events, flush_user, flush_pending, Task, Signal, cancelled, received,
  tick, receive, turn, config_after, pending_after,
}
use orange_frp.Accounting.Pending.{
  pending_total, user_bytes, pending_total-add_event, pending_total-drain_events,
}
use orange_frp.Accounting.Flush.{user_of, used, used-flush, user_of-flush}

-- What `save` returns has the counters of the known users that it was given.
abbrev pub KeepsCounters : (ServerConfig → Result Error ServerConfig) → Type 0
KeepsCounters save =
    (id : Text) (config saved : ServerConfig) (u : ServerUser)
    → is_empty (trim id) ≡ false
    → user_of id config.users ≡ some u
    → save config ≡ ok saved
    → used id saved.users ≡ used id config.users

-- The bytes of a user that the task answers for: counted, pending or in the channel.
abbrev pub ledger : Text → Task → ℕ
ledger id t = used id t.config.users + pending_total id t.pending + user_bytes id t.queue

ledger-receive :
    (id : Text) (config : ServerConfig) (pending : Pending) (queue : List TrafficEvent)
    → ledger id (record { config = config; pending = pending; queue = queue }) ≤ u64_max
    → ledger id (receive (record { config = config; pending = pending; queue = queue }))
      ≡ ledger id (record { config = config; pending = pending; queue = queue })
unfolding receive
ledger-receive id config pending [] fits = refl
ledger-receive id config pending (e ∷ events) fits =
    omega (arith, pending_total-add_event id pending e (omega arith))

module _ (save : ServerConfig → Result Error ServerConfig) (keeps : KeepsCounters save) where
  -- A flush that is saved leaves the counter of a known user at the old counter and the bytes that
  -- were pending, while the sum stays within 64 bits.
  flush_pending-used :
      (id : Text) (pending : Pending) (config after : ServerConfig) (u : ServerUser)
      → is_empty (trim id) ≡ false
      → user_of id config.users ≡ some u
      → used id config.users + pending_total id pending ≤ u64_max
      → flush_pending save pending config ≡ ok after
      → used id after.users ≡ used id config.users + pending_total id pending
  unfolding flush_pending
  flush_pending-used id [] config after u given known fits h =
      let same : config ≡ after = cc h in rw (sym same) (omega arith)
  flush_pending-used id (p ∷ pending) config after u given known fits h =
      keeps id (record config { users = map (flush_user (p ∷ pending)) config.users }) after
        (flush_user (p ∷ pending) u) given (user_of-flush id (p ∷ pending) config.users u known) h
      ∙ used-flush id (p ∷ pending) config.users u known fits

  ledger-flush :
      (id : Text) (pending : Pending) (config : ServerConfig) (u : ServerUser)
      → is_empty (trim id) ≡ false
      → user_of id config.users ≡ some u
      → used id config.users + pending_total id pending ≤ u64_max
      → (r : Result Error ServerConfig) → flush_pending save pending config ≡ r
      → used id (config_after r config).users + pending_total id (pending_after r pending)
        ≡ used id config.users + pending_total id pending
  ledger-flush id pending config u given known fits (ok after) e =
      omega (arith, flush_pending-used id pending config after u given known fits e)
  ledger-flush id pending config u given known fits (err error) e = refl

  -- A turn that goes on, with any save that keeps the counters.
  pub ledger-turn :
      (id : Text) (t : Task) (s : Signal) (u : ServerUser)
      → is_empty (trim id) ≡ false
      → user_of id t.config.users ≡ some u
      → ledger id t ≤ u64_max
      → (turn save t s).1 ≡ true
      → ledger id (turn save t s).0 ≡ ledger id t
  unfolding turn receive
  ledger-turn id t cancelled u given known fits goes = absurd (ground arith)
  ledger-turn id t received u given known fits goes =
      ledger-receive id t.config t.pending t.queue fits
  ledger-turn id t tick u given known fits goes =
      let drained = drain_events t.queue t.pending in
      let total = pending_total-drain_events id t.queue t.pending (omega arith) in
      let flushed =
        ledger-flush id drained t.config u given known (rw total (omega arith))
          (flush_pending save drained t.config) refl in
      omega (arith, total, flushed)
