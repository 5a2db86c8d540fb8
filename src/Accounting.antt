-- ===== src/Accounting.antt =====
-- The accounting task of server-package/crates/frp-game-server/src/controller.rs: traffic events are
-- collected, and flushed into the configuration. `Storage::save` is an argument.
pub mod Pending
pub mod Flush
pub mod Ledger
use orange_frp.Prelude.{
  ℕ, Bool, true, false, none, some, List, [], ◌∷◌, map, if◌then◌else◌, nat_eq, list_eq, pair_eq,
  lookup, upsert, Result, ok, err, Text, is_empty,
}
use orange_frp.Config.{ServerConfig, ServerUser, ProxyTrafficRecord, Error, saturating_add}

pub data Direction : Type 0 where
  inward outward : Direction

pub record TrafficEvent : Type 0 where
  pub user_id : Text
  pub proxy_name : Text
  pub protocol : Text
  pub public_port : ℕ
  pub direction : Direction
  pub bytes : ℕ

pub record PendingProxyTraffic : Type 0 where
  pub protocol : Text
  pub public_port : ℕ
  pub traffic_in : ℕ
  pub traffic_out : ℕ

abbrev pub Proxies : Type 0
Proxies = List ((Text × Text) × PendingProxyTraffic)

pub record PendingTraffic : Type 0 where
  pub total : ℕ
  pub per_proxy : Proxies

abbrev pub Pending : Type 0
Pending = List (Text × PendingTraffic)

-- `PendingTraffic::default`.
abbrev pub no_traffic : PendingTraffic
no_traffic = record { total = 0; per_proxy = [] }

abbrev pub new_proxy : TrafficEvent → PendingProxyTraffic
new_proxy e = record {
  protocol = e.protocol;
  public_port = e.public_port;
  traffic_in = 0;
  traffic_out = 0;
}

unfoldable pub count_bytes : Direction → ℕ → PendingProxyTraffic → PendingProxyTraffic
count_bytes inward bytes p = record p { traffic_in = saturating_add p.traffic_in bytes }
count_bytes outward bytes p = record p { traffic_out = saturating_add p.traffic_out bytes }

unfoldable pub add_to_user : TrafficEvent → PendingTraffic → PendingTraffic
add_to_user e u = record {
  total = saturating_add u.total e.bytes;
  per_proxy =
      upsert (e.proxy_name, e.protocol) (new_proxy e) (count_bytes e.direction e.bytes) u.per_proxy;
}

unfoldable pub add_event : Pending → TrafficEvent → Pending
add_event pending e = upsert e.user_id no_traffic (add_to_user e) pending

-- `while let Ok(event) = receiver.try_recv()`, over what the channel holds.
unfoldable pub drain_events : List TrafficEvent → Pending → Pending
drain_events [] pending = pending
drain_events (e ∷ events) pending = drain_events events (add_event pending e)

-- `entry(proxy_name).or_insert_with(...)` and what follows.
abbrev pub new_record : PendingProxyTraffic → ProxyTrafficRecord
new_record p = record {
  protocol = p.protocol;
  remote_port = p.public_port;
  traffic_in_bytes = 0;
  traffic_out_bytes = 0;
  active = true;
}

unfoldable pub add_to_record : PendingProxyTraffic → ProxyTrafficRecord → ProxyTrafficRecord
add_to_record p r = record {
  protocol = p.protocol;
  remote_port = p.public_port;
  traffic_in_bytes = saturating_add r.traffic_in_bytes p.traffic_in;
  traffic_out_bytes = saturating_add r.traffic_out_bytes p.traffic_out;
  active = true;
}

abbrev pub Records : Type 0
Records = List (Text × ProxyTrafficRecord)

unfoldable pub flush_proxies : Proxies → Records → Records
flush_proxies [] records = records
flush_proxies (((proxy_name, _), p) ∷ proxies) records =
    flush_proxies proxies (upsert proxy_name (new_record p) (add_to_record p) records)

unfoldable pub flush_update : PendingTraffic → ServerUser → ServerUser
flush_update update user = record user {
  traffic_used_bytes = saturating_add user.traffic_used_bytes update.total;
  traffic_by_proxy = flush_proxies update.per_proxy user.traffic_by_proxy;
}

-- `let Some(update) = pending.get(&user.id) else { continue; }`.
unfoldable pub flush_user : Pending → ServerUser → ServerUser
flush_user pending user = elim (lookup user.id pending) [
  | none ↦ user
  | some update ↦ flush_update update user
]

pub record Task : Type 0 where
  pub config : ServerConfig
  pub pending : Pending
  pub queue : List TrafficEvent

-- What the loop of the task wakes up for.
pub data Signal : Type 0 where
  cancelled received tick : Signal

abbrev pub config_after : Result Error ServerConfig → ServerConfig → ServerConfig
config_after (ok c) config = c
config_after (err e) config = config

abbrev pub pending_after : Result Error ServerConfig → Pending → Pending
pending_after (ok c) pending = []
pending_after (err e) pending = pending

unfoldable pub receive : Task → Task
receive t = elim t.queue [
  | [] ↦ t
  | e ∷ events ↦ record t { pending = add_event t.pending e; queue = events }
]

module _ (save : ServerConfig → Result Error ServerConfig) where
  -- The configuration behind the lock after the flush, or the error that leaves it alone.
  unfoldable pub flush_pending : Pending → ServerConfig → Result Error ServerConfig
  flush_pending pending config =
      if is_empty pending
      then ok config
      else save (record config { users = map (flush_user pending) config.users })

  -- One turn of the loop, and whether it goes on.
  unfoldable pub turn : Task → Signal → Task × Bool
  unfolding receive
  turn t cancelled =
      let pending = drain_events t.queue t.pending in
      let flushed = flush_pending pending t.config in
      (record { config = config_after flushed t.config; pending = pending; queue = [] }, false)
  turn t received = (receive t, true)
  turn t tick =
      let pending = drain_events t.queue t.pending in
      let flushed = flush_pending pending t.config in
      (
        record {
          config = config_after flushed t.config;
          pending = pending_after flushed pending;
          queue = [];
        },
        true,
      )
