-- ===== src/Api/Summary.antt =====
-- What a user's summary says.
use orange_frp.Prelude.{
  ℕ, ◌+◌, ◌<◌, ◌≡◌, refl, ◌∙◌, ◌↔◌, true, false, List, [], ◌∷◌, map, arith, nat_eq, list_eq,
  pair_eq, value_sum, Text,
}
use orange_frp.Tunnel.Profile.{PortTrafficUsage}
use orange_frp.Config.{ServerUser, ProxyTrafficRecord}
use orange_frp.Config.Sort.{IsSorted, sort-IsSorted, total, total-sort, text_leb_total}
use orange_frp.Floats.{Float}
use orange_frp.Gate.{new_gate, remaining}
use orange_frp.Controller.{fresh_gate}
use orange_frp.Accounting.Flush.{record_bytes}
use orange_frp.Api.{port_leb, port_usage, traffic_summary}

abbrev pub port_bytes : PortTrafficUsage → ℕ
port_bytes p = p.traffic_in_bytes + p.traffic_out_bytes

port_leb_total : (s t : PortTrafficUsage) → port_leb s t ≡ false → port_leb t s ≡ true
unfolding port_leb
port_leb_total s t h = ground (arith, text_leb_total s.protocol t.protocol)

total-port_usage :
    (records : List (Text × ProxyTrafficRecord))
    → total port_bytes (map port_usage records) ≡ value_sum record_bytes records
total-port_usage [] = refl
total-port_usage ((k, r) ∷ records) = omega (arith, total-port_usage records)

-- The ports of a summary stand in the order of their numbers and protocols and account for every
-- byte of the user's records.
pub traffic_summary-ports :
    (user : ServerUser)
    → IsSorted port_leb (traffic_summary user).ports
      × (total port_bytes (traffic_summary user).ports
          ≡ value_sum record_bytes user.traffic_by_proxy)
unfolding traffic_summary
traffic_summary-ports user = (
  sort-IsSorted port_leb port_leb_total (map port_usage user.traffic_by_proxy),
  total-sort port_leb port_bytes (map port_usage user.traffic_by_proxy)
      ∙ total-port_usage user.traffic_by_proxy,
)

-- A summary says that the quota is exhausted just when a new gate of the user has nothing left to
-- grant; otherwise, under a quota, it shows what that gate has left.
pub traffic_summary-gate :
    (fl : Float) (now : ℕ) (user : ServerUser)
    → (((traffic_summary user).exhausted ≡ true) ↔ (remaining (fresh_gate fl now user) ≡ 0))
      × (0 < user.traffic_limit_bytes
          → (traffic_summary user).remaining_bytes ≡ remaining (fresh_gate fl now user))
unfolding traffic_summary remaining new_gate
traffic_summary-gate fl now user = ground arith
