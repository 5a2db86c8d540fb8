-- ===== src/Controller/Tests.antt =====
-- The controller at the sample configuration, on whole numbers and with every port free.
use orange_frp.Prelude.{
  ℕ, ◌≡◌, refl, ◌⊎◌, Bool, true, some, List, [], ◌∷◌, nat_eq, list_eq, pair_eq, All, lookup, ok,
  err, codes,
}
use orange_frp.Config.{bind_failed}
use orange_frp.Floats.{whole}
use orange_frp.Gate.{GateState}
use orange_frp.Accounting.{inward, outward}
use orange_frp.Controller.{
  TunnelSpec, ControllerTask, TrafficController, tunnel_spec, desired, all_specs, collect, keep,
  stop_tasks, reconcile, reconcile_gates, update_gates, update_gate, start_missing, start_one,
  start_task,
}
use orange_frp.Controller.Tasks.{running}
use orange_frp.Controller.Outcome.{Serves, reconcile-outcome, reconcile-Serves}
use orange_frp.Controller.Datagrams.{returned, SessionTurn, arrived, Forwarding, run_udp_session}
use orange_frp.Controller.Datagrams.Forwarded.{Forwarded, run_udp_session-Forwarded}
use orange_frp.Controller.Copy.{Writing, Attempt, Copying, copy_buffer}
use orange_frp.Controller.Copy.Counts.{Copied, copy_buffer-Copied}
use orange_frp.Samples.{sample_prims, sample_config, sample_config-IsValid, ann, web}

abbrev free : ℕ → TunnelSpec → Bool
free n spec = true

abbrev idle : TrafficController ℕ
idle = record { tasks = []; gates = []; spawned = 0 }

idle_done : (reconcile whole free 5 sample_config idle).1 ≡ ok tt
unfolding reconcile reconcile_gates update_gates update_gate start_missing start_one start_task
    stop_tasks keep desired all_specs collect tunnel_spec
idle_done = refl

reconcile-Serves_example :
    All
      (λ u.
        All
          (λ t.
            (spec : TunnelSpec) × (running
                (lookup t.proxy_name (reconcile whole free 5 sample_config idle).0.tasks)
              ≡ some spec)
            × Serves sample_config.public_bind u t spec)
          u.tunnels)
      sample_config.users
reconcile-Serves_example =
    reconcile-Serves whole free sample_prims 5 sample_config idle sample_config-IsValid tt idle_done

reconcile-outcome_example :
    ((reconcile whole free 5 sample_config idle).1 ≡ ok tt)
    ⊎ ((reconcile whole free 5 sample_config idle).1 ≡ err bind_failed)
reconcile-outcome_example =
    reconcile-outcome whole free sample_prims 5 sample_config idle sample_config-IsValid

abbrev web_task : ControllerTask
web_task = record { spec = tunnel_spec (codes "0.0.0.0") ann web; handle = 3 }

abbrev busy : TrafficController ℕ
busy = record { tasks = (codes "fg-web", web_task) ∷ []; gates = []; spawned = 4 }

web_wanted : lookup (codes "fg-web") (desired sample_config) ≡ some web_task.spec
unfolding desired all_specs collect tunnel_spec
web_wanted = refl

abbrev ten_bytes : GateState ℕ
ten_bytes = record {
  limit_bytes = 10;
  used_bytes = 8;
  bytes_per_second = 0;
  tokens = 0;
  last_refill = 0;
}

abbrev nothing_copied : Copying ℕ
nothing_copied = record { gate = ten_bytes; written = []; events = [] }

abbrev one_turn : List (Attempt whole)
one_turn =
    record { wakes = record { meanwhile = λ s. s; now = 1 } ∷ []; writing = Writing.whole } ∷ []

copy_buffer-Copied_example :
    Copied web_task.spec.user_id
      (1 ∷ 2 ∷ 3 ∷ [])
      nothing_copied
      (copy_buffer whole web_task.spec outward (1 ∷ 2 ∷ 3 ∷ []) one_turn nothing_copied)
copy_buffer-Copied_example =
    copy_buffer-Copied whole web_task.spec outward (1 ∷ 2 ∷ 3 ∷ []) one_turn nothing_copied

abbrev nothing_forwarded : Forwarding ℕ
nothing_forwarded = record { gate = ten_bytes; to_backend = []; to_peer = []; events = [] }

-- Two bytes are left: a datagram of one byte passes, one of two bytes ends the session.
abbrev datagram_turns : List (SessionTurn whole)
datagram_turns =
    arrived (record {
      direction = inward;
      payload = 1 ∷ [];
      wakes = record { meanwhile = λ s. s; now = 1 } ∷ [];
      sends = true;
    })
    ∷ arrived (record {
      direction = outward;
      payload = 2 ∷ 3 ∷ [];
      wakes = record { meanwhile = λ s. s; now = 2 } ∷ [];
      sends = true;
    })
    ∷ []

run_udp_session-Forwarded_example :
    Forwarded whole web_task.spec datagram_turns nothing_forwarded
      (run_udp_session whole web_task.spec true true datagram_turns nothing_forwarded)
run_udp_session-Forwarded_example =
    run_udp_session-Forwarded whole web_task.spec true true datagram_turns nothing_forwarded

forwarded_one :
    (run_udp_session whole web_task.spec true true datagram_turns nothing_forwarded).0.to_backend
    ≡ (1 ∷ []) ∷ []
unfolding run_udp_session orange_frp.Gate.reserve_datagram orange_frp.Gate.reserve_turn
    orange_frp.Gate.spend
forwarded_one = refl

forwarded_ends :
    (run_udp_session whole web_task.spec true true datagram_turns nothing_forwarded).1 ≡ returned
unfolding run_udp_session orange_frp.Gate.reserve_datagram orange_frp.Gate.reserve_turn
    orange_frp.Gate.spend
forwarded_ends = refl
