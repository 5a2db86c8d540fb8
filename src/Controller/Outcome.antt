-- ===== src/Controller/Outcome.antt =====
-- The results of `reconcile` on a valid configuration.
use orange_frp.Prelude.{
  ℕ, ◌≡◌, refl, sym, ◌∙◌, ◌⊎◌, inl, inr, Bool, true, some, List, [], ◌∷◌, map, Bool-cases, nat_eq,
  list_eq, pair_eq, AllValues, All, contains, Nodup, keys, lookup, contains_key, Result, ok, err,
  Text,
}
use orange_frp.Crypto.{Primitives}
use orange_frp.Tunnel.{Tunnel}
use orange_frp.Config.{ServerConfig, ServerUser, Error, bind_failed}
use orange_frp.Config.Valid.Config.{IsValid}
use orange_frp.Floats.{Float}
use orange_frp.Gate.{GateState}
use orange_frp.Controller.{
  TunnelSpec, Specs, TrafficController, tunnel_spec, desired, start_task, start_one, start_missing,
  reconcile,
}
use orange_frp.Controller.Start.{start_one-gates}
use orange_frp.Controller.Gates.{gate_exists}
use orange_frp.Controller.Specs.{Wanted, desired-Wanted, desired-tunnels, user_ids-Nodup}
use orange_frp.Controller.Tasks.{running}
use orange_frp.Controller.Reconcile.{reconcile-tasks}

All-weaken {ℓ κ μ} :
    {A : Type ℓ} (P : A → Type κ) (Q : A → Type μ) (xs : List A)
    → All P xs
    → ((x : A) → P x → Q x)
    → All Q xs
All-weaken P Q [] a f = tt
All-weaken P Q (x ∷ xs) a f = (f x a.0, All-weaken P Q xs a.1 f)

-- What a task must be for a tunnel of a user.
pub record Serves (address : Text) (u : ServerUser) (t : Tunnel) (spec : TunnelSpec) : Type 0 where
  pub listens_at : spec.public_bind ≡ address
  pub listens_on : spec.public_port ≡ t.remote_port
  pub connects_to : spec.backend_port ≡ t.backend_port
  pub speaks : spec.protocol ≡ t.protocol
  pub named : spec.proxy_name ≡ t.proxy_name
  pub counts_for : spec.user_id ≡ u.id

tunnel_spec-Serves :
    (address : Text) (u : ServerUser) (t : Tunnel) → Serves address u t (tunnel_spec address u t)
unfolding tunnel_spec
tunnel_spec-Serves address u t = record {
  listens_at = refl;
  listens_on = refl;
  connects_to = refl;
  speaks = refl;
  named = refl;
  counts_for = refl;
}

module _ (fl : Float) (bind : ℕ → TunnelSpec → Bool) where
  open fl use {F}

  -- Every user of the list has a gate.
  abbrev HasGates : List Text → TrafficController F → Type 0
  HasGates ids c =
      (id : Text) → contains ids id ≡ true → (gate : GateState F) × (lookup id c.gates ≡ some gate)

  start_one-outcome :
      (ids : List Text) (c : TrafficController F) (k : Text) (spec : TunnelSpec)
      → HasGates ids c
      → Wanted ids spec
      → (r : Result Error (TrafficController F)) → start_one fl bind c k spec ≡ r
      → ((c' : TrafficController F) × (r ≡ ok c')) ⊎ (r ≡ err bind_failed)
  unfolding start_one start_task
  start_one-outcome ids c k spec gates w (ok c') h = inl (c', refl)
  start_one-outcome ids c k spec gates w (err e) h = elim (Bool-cases (contains_key k c.tasks)) [
    | inl present ↦ absurd (cc (rw present at h))
    | inr absent ↦
        let (gate, found) = gates spec.user_id w.known in
        elim (Bool-cases (bind c.spawned spec)) [
          | inl free ↦ absurd (cc (rw free at (rw w.transport at (rw found at (rw absent at h)))))
          | inr busy ↦ inr (sym (rw busy at (rw w.transport at (rw found at (rw absent at h)))))
        ]
  ]

  start_missing-outcome :
      (ids : List Text) (specs : Specs) (c : TrafficController F)
      → HasGates ids c
      → AllValues (Wanted ids) specs
      → ((start_missing fl bind specs c).1 ≡ ok tt)
        ⊎ ((start_missing fl bind specs c).1 ≡ err bind_failed)
  unfolding start_missing
  start_missing-outcome ids [] c gates w = inl refl
  start_missing-outcome ids ((k, spec) ∷ specs) c gates w =
      elim (start_one-outcome ids c k spec gates w.0 (start_one fl bind c k spec) refl) [
        | inr failed ↦ rw (failed, start_missing) (inr refl)
        | inl (c', made) ↦
            rw (made, start_missing)
              (start_missing-outcome ids specs c'
                (λ id known. rw (start_one-gates fl bind c k spec c' made) (gates id known)) w.1)
      ]

  -- On a valid configuration a reconciliation succeeds or fails to bind a socket: it never misses
  -- a gate and never meets another protocol, which would panic.
  pub reconcile-outcome :
      (prims : Primitives) (now : ℕ) (config : ServerConfig) (c : TrafficController F)
      → IsValid prims config
      → ((reconcile fl bind now config c).1 ≡ ok tt)
        ⊎ ((reconcile fl bind now config c).1 ≡ err bind_failed)
  unfolding reconcile
  reconcile-outcome prims now config c v =
      start_missing-outcome (map (λ u. u.id) config.users) (desired config) _
        (λ id known. gate_exists fl now config c.gates id (user_ids-Nodup prims config v) known)
        (desired-Wanted prims config v)

  -- After a reconciliation with a valid configuration that succeeds, every tunnel of every user is
  -- served: under its proxy name runs a task that listens on the configured address and the tunnel's
  -- remote port with its protocol, connects to its backend port, and reports to the user's
  -- identifier.
  pub reconcile-Serves :
      (prims : Primitives) (now : ℕ) (config : ServerConfig) (c : TrafficController F)
      → IsValid prims config
      → Nodup (keys c.tasks)
      → (reconcile fl bind now config c).1 ≡ ok tt
      → All
          (λ u.
            All
              (λ t.
                (spec : TunnelSpec) × (running
                    (lookup t.proxy_name (reconcile fl bind now config c).0.tasks)
                  ≡ some spec)
                × Serves config.public_bind u t spec)
              u.tunnels)
          config.users
  reconcile-Serves prims now config c v d done =
      All-weaken _ _ config.users (desired-tunnels prims config v) (λ u served.
        All-weaken _ _ u.tunnels served (λ t wanted. (
          tunnel_spec config.public_bind u t,
          reconcile-tasks fl bind now config c d done t.proxy_name ∙ wanted,
          tunnel_spec-Serves config.public_bind u t,
        )))
