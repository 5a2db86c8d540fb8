-- ===== src/Api/Handlers/Stored.antt =====
-- What the handler `tunnels` keeps between the memory, the storage and the controller.
use orange_frp.Prelude.{
  ℕ, ◌≡◌, refl, ap, ◌⊎◌, inl, inr, Bool, Option, none, some, List, arith, Option-cases, Eq, nat_eq,
  list_eq, pair_eq, Nodup, keys, lookup, Result, ok, err, Result-cases, Text,
}
use orange_frp.Json.{Value}
use orange_frp.Tunnel.{Tunnel}
use orange_frp.Crypto.{Primitives}
use orange_frp.Config.{ServerConfig, ServerUser, Error}
use orange_frp.Floats.{Float}
use orange_frp.Controller.{TrafficController, TunnelSpec, reconcile, desired}
use orange_frp.Controller.Tasks.{running}
use orange_frp.Controller.Reconcile.{reconcile-tasks}
use orange_frp.Api.Handlers.{Reply, Context, ApiState, candidate_of}
use orange_frp.Api.Handlers.Saving.{apply_saved, save_tunnels}

-- `save` leaves its configuration in the storage, or fails and leaves the storage as it was.
pub record IsStorage {S : Type 0} (save : S → ServerConfig → S × Result Error ServerConfig)
    (Holds : S → ServerConfig → Type 0) : Type 0 where
  pub saved : (s : S) (c c' : ServerConfig) → (save s c).1 ≡ ok c' → Holds (save s c).0 c'
  pub kept :
      (s : S) (c old : ServerConfig) (error : Error)
      → (save s c).1 ≡ err error
      → Holds s old
      → Holds (save s c).0 old

module _ (S IpAddr : Type 0) ⦃e : Eq IpAddr⦄ (fl : Float) (prims : Primitives)
    (to_json : Reply → Value) (save : S → ServerConfig → S × Result Error ServerConfig)
    (bind : ℕ → TunnelSpec → Bool) where
  open fl use {F}

  module _ (Holds : S → ServerConfig → Type 0) (storage : IsStorage save Holds) where
    -- The tasks of a saved configuration did not start, and the save that takes it back failed:
    -- the memory still has the old configuration while the storage has the new one.
    pub record Unreturned (old : ServerConfig) (r : ApiState F IpAddr S × ℕ × Reply) : Type 0 where
      pub conflict : r.1 ≡ 409
      pub kept : r.0.config ≡ old
      pub before : S
      pub candidate : ServerConfig
      pub failure : Error
      pub written : Holds before candidate
      pub rollback :
          save before (record old { revision = candidate.revision }) ≡ (r.0.storage, err failure)
      pub stored : Holds r.0.storage candidate

    abbrev pub Stored : ServerConfig → ApiState F IpAddr S × ℕ × Reply → Type 0
    Stored old r = Holds r.0.storage r.0.config ⊎ Unreturned old r

    apply_saved-Stored :
        (m : Context IpAddr) (candidate : ServerConfig) (user : ServerUser) (index : ℕ)
        (s : ApiState F IpAddr S)
        → Holds s.storage candidate
        → Stored s.config (apply_saved S IpAddr fl prims to_json save bind m candidate user index s)
    unfolding apply_saved
    apply_saved-Stored m candidate user index s h = elim (Option-cases s.controller) [
      | inl no_controller ↦ rw (no_controller, apply_saved) (inl h)
      | inr (controller, on) ↦
          elim (Result-cases (reconcile fl bind m.instant candidate controller).1) [
            | inl (done, started) ↦ rw (on, apply_saved) (rw started (inl h))
            | inr (error, stuck) ↦
                elim (Result-cases
                  (save s.storage (record s.config { revision = candidate.revision })).1) [
                    | inl (rollback, back) ↦
                        rw (on, apply_saved)
                          (rw stuck (rw back (inl (storage.saved s.storage _ rollback back))))
                    | inr (failure, lost) ↦
                        rw (on, apply_saved)
                          (rw stuck (
                            rw lost (
                              inr (record {
                                conflict = refl;
                                kept = refl;
                                before = s.storage;
                                candidate = candidate;
                                failure = failure;
                                written = h;
                                rollback =
                                    ap
                                      (λ e. (
                                        (save s.storage
                                            (record s.config { revision = candidate.revision })).0,
                                        e,
                                      ))
                                      lost;
                                stored = storage.kept s.storage _ candidate failure lost h;
                              }))))
                  ]
          ]
    ]

    -- After the action "save" the storage holds the configuration in memory, whether the save, the
    -- start of the tasks or nothing failed, unless the answer is 409 and the save that takes the old
    -- configuration back failed as well: then the memory has the old one and the storage the new
    -- one.
    pub save_tunnels-Stored :
        (m : Context IpAddr) (normalized : List Tunnel) (user : ServerUser) (index : ℕ)
        (s : ApiState F IpAddr S)
        → Holds s.storage s.config
        → Stored s.config
            (save_tunnels S IpAddr fl prims to_json save bind m normalized user index s)
    unfolding save_tunnels
    save_tunnels-Stored m normalized user index s h =
        elim (Result-cases (save s.storage (candidate_of m.unix index normalized s.config)).1) [
          | inr (error, failed) ↦
              rw (failed, save_tunnels) (inl (storage.kept s.storage _ s.config error failed h))
          | inl (candidate, done) ↦
              rw (done, save_tunnels)
                (apply_saved-Stored m candidate user index _
                  (storage.saved s.storage _ candidate done))
        ]

  -- The specifications that run under a key.
  abbrev pub running_in : Option (TrafficController F) → Text → Option TunnelSpec
  running_in none key = none
  running_in (some c) key = running (lookup key c.tasks)

  apply_saved-running :
      (m : Context IpAddr) (candidate : ServerConfig) (user : ServerUser) (index : ℕ)
      (s : ApiState F IpAddr S) (controller : TrafficController F)
      → s.controller ≡ some controller
      → Nodup (keys controller.tasks)
      → (apply_saved S IpAddr fl prims to_json save bind m candidate user index s).1 ≡ 200
      → (key : Text)
      → running_in
          (apply_saved S IpAddr fl prims to_json save bind m candidate user index s).0.controller
          key
        ≡ lookup key (
            desired
              (apply_saved S IpAddr fl prims to_json save bind m candidate user index s).0.config)
  unfolding apply_saved
  apply_saved-running m candidate user index s controller on d accepted key =
      elim (Result-cases (reconcile fl bind m.instant candidate controller).1) [
        | inl (done, started) ↦
            rw (on, apply_saved)
              (rw started (reconcile-tasks fl bind m.instant candidate controller d started key))
        | inr (error, stuck) ↦
            elim (Result-cases
              (save s.storage (record s.config { revision = candidate.revision })).1) [
                | inl (rollback, back) ↦
                    absurd
                      (omega (arith, rw back at (rw stuck at (rw (on, apply_saved) at accepted))))
                | inr (failure, lost) ↦
                    absurd
                      (omega (arith, rw lost at (rw stuck at (rw (on, apply_saved) at accepted))))
              ]
      ]

  -- When the action "save" answers 200, the controller runs just what the new configuration wants.
  pub save_tunnels-running :
      (m : Context IpAddr) (normalized : List Tunnel) (user : ServerUser) (index : ℕ)
      (s : ApiState F IpAddr S) (controller : TrafficController F)
      → s.controller ≡ some controller
      → Nodup (keys controller.tasks)
      → (save_tunnels S IpAddr fl prims to_json save bind m normalized user index s).1 ≡ 200
      → (key : Text)
      → running_in
          (save_tunnels S IpAddr fl prims to_json save bind m normalized user index s).0.controller
          key
        ≡ lookup key (
            desired
              (save_tunnels S IpAddr fl prims to_json save bind m normalized user index s).0.config)
  unfolding save_tunnels
  save_tunnels-running m normalized user index s controller on d accepted key =
      elim (Result-cases (save s.storage (candidate_of m.unix index normalized s.config)).1) [
        | inr (error, failed) ↦ absurd (omega (arith, rw (failed, save_tunnels) at accepted))
        | inl (candidate, done) ↦
            rw (done, save_tunnels)
              (apply_saved-running m candidate user index _ controller on d
                (rw (done, save_tunnels) at accepted) key)
      ]
