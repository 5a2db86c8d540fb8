-- ===== src/Api/Handlers/Tests.antt =====
-- The action "save" at the sample configuration, with a storage that is a configuration.
use orange_frp.Prelude.{
  ℕ, ◌≡◌, refl, Bool, true, none, some, [], ◌∷◌, nat_eq, list_eq, pair_eq, lookup, Result, ok,
  codes,
}
use orange_frp.Json.{Value, null}
use orange_frp.Config.{ServerConfig, Error}
use orange_frp.Floats.{whole}
use orange_frp.Replay.{empty_guard}
use orange_frp.Controller.{
  TrafficController, TunnelSpec, reconcile, reconcile_gates, update_gates, update_gate,
  start_missing, start_one, start_task, stop_tasks, keep, desired, all_specs, collect, tunnel_spec,
}
use orange_frp.Api.Handlers.{Reply, Context, ApiState, candidate_of, with_tunnels, activate}
use orange_frp.Api.Handlers.Saving.{save_tunnels, apply_saved}
use orange_frp.Api.Handlers.Stored.{
  IsStorage, Stored, running_in, save_tunnels-Stored, save_tunnels-running,
}
use orange_frp.Samples.{sample_prims, sample_config, ann, web}

abbrev write : ServerConfig → ServerConfig → ServerConfig × Result Error ServerConfig
write old c = (c, ok c)

abbrev Holds : ServerConfig → ServerConfig → Type 0
Holds s c = s ≡ c

same_saved : (r : Result Error ServerConfig) {a b : ServerConfig} → r ≡ ok a → r ≡ ok b → a ≡ b
same_saved r e f = cc

write-IsStorage : IsStorage write Holds
write-IsStorage = record {
  saved = λ s c c' h. same_saved (ok c) refl h;
  kept = λ s c old error h held. absurd cc;
}

abbrev blank : Reply → Value
blank body = null

abbrev free_port : ℕ → TunnelSpec → Bool
free_port n spec = true

abbrev context : Context ℕ
context = record { ip = 7; instant = 5; unix = 1000; nonce = []; online = true }

abbrev idle_controller : TrafficController ℕ
idle_controller = record { tasks = []; gates = []; spawned = 0 }

abbrev server : ApiState ℕ ℕ ServerConfig
server = record {
  config = sample_config;
  storage = sample_config;
  controller = some idle_controller;
  replay = empty_guard;
  rate_limit = record { clients = []; last_cleanup = none };
  issued = 0;
}

save_tunnels-Stored_example :
    Stored ServerConfig ℕ whole sample_prims blank write free_port Holds write-IsStorage
      sample_config
      (save_tunnels ServerConfig ℕ whole sample_prims blank write free_port context
        (web ∷ [])
        ann
        0
        server)
save_tunnels-Stored_example =
    save_tunnels-Stored ServerConfig ℕ whole sample_prims blank write free_port Holds
      write-IsStorage context (web ∷ []) ann 0 server refl

save_answered :
    (save_tunnels ServerConfig ℕ whole sample_prims blank write free_port context
      (web ∷ [])
      ann
      0
      server).1
    ≡ 200
unfolding save_tunnels apply_saved candidate_of with_tunnels activate reconcile reconcile_gates
    update_gates update_gate start_missing start_one start_task stop_tasks keep desired all_specs
    collect tunnel_spec
save_answered = refl

save_tunnels-running_example :
    running_in ServerConfig ℕ whole sample_prims blank write free_port
      (save_tunnels ServerConfig ℕ whole sample_prims blank write free_port context
        (web ∷ [])
        ann
        0
        server).0.controller
      (codes "fg-web")
    ≡ lookup (codes "fg-web") (
        desired
          (save_tunnels ServerConfig ℕ whole sample_prims blank write free_port context
            (web ∷ [])
            ann
            0
            server).0.config)
save_tunnels-running_example =
    save_tunnels-running ServerConfig ℕ whole sample_prims blank write free_port context (web ∷ [])
      ann 0 server idle_controller refl tt save_answered (codes "fg-web")
