-- ===== src/Controller/Gates.antt =====
-- What `reconcile` does to the gates, and that starting a task finds its gate.
use orange_frp.Prelude.{
  ℕ, ◌≡◌, refl, ◌∙◌, subst, inl, inr, Bool, true, false, Option, none, some, List, [], ◌∷◌, map,
  arith, if◌then◌else◌, Bool-cases, Option-cases, ◌==◌, nat_eq, list_eq, list_beq_iff, pair_eq,
  find, retain, contains, Nodup, lookup, lookup-insert, Text,
}
use orange_frp.Config.{ServerConfig, ServerUser}
use orange_frp.Floats.{Float}
use orange_frp.Gate.{GateState, update_limits}
use orange_frp.Controller.{fresh_gate, update_gate, update_gates, reconcile_gates}

abbrev pub with_id : Text → List ServerUser → Option ServerUser
with_id id users = find (λ user. user.id == id) users

abbrev pub user_ids : List ServerUser → List Text
user_ids users = map (λ user. user.id) users

lookup-retain_keys {ℓ} :
    {V : Type ℓ} (p : Text → Bool) (key : Text) (m : List (Text × V))
    → lookup key (retain (λ entry. p entry.0) m) ≡ (if p key then lookup key m else none)
lookup-retain_keys p key [] = ground arith
lookup-retain_keys p key ((j, v) ∷ m) =
    ground (arith, lookup-retain_keys p key m, list_beq_iff j key)

with_id-absent :
    (key : Text) (users : List ServerUser)
    → contains (user_ids users) key ≡ false
    → with_id key users ≡ none
with_id-absent key [] h = refl
with_id-absent key (u ∷ users) h = ground (arith, with_id-absent key users)

with_id-present :
    (key : Text) (users : List ServerUser)
    → contains (user_ids users) key ≡ true
    → (u : ServerUser) × (with_id key users ≡ some u)
with_id-present key [] h = absurd (ground arith)
with_id-present key (u ∷ users) h = elim (Bool-cases (u.id == key)) [
  | inl same ↦ (u, rw same refl)
  | inr other ↦ rw other (with_id-present key users (ground arith))
]

module _ (fl : Float) where
  open fl use {F}

  -- The gate of a user: an old one keeps its counter and takes the limits, a new one is fresh.
  abbrev pub gate_for : ℕ → Option ServerUser → Option (GateState F) → Option (GateState F)
  gate_for now none o = o
  gate_for now (some user) none = some (fresh_gate fl now user)
  gate_for now (some user) (some gate) =
      some (update_limits fl now user.traffic_limit_bytes user.speed_limit_mbps gate)

  lookup-update_gate :
      (now : ℕ) (user : ServerUser) (gates : List (Text × GateState F)) (key : Text)
      → lookup key (update_gate fl now user gates) ≡ (
          if user.id == key
          then gate_for now (some user) (lookup user.id gates)
          else lookup key gates)
  unfolding update_gate
  lookup-update_gate now user gates key = elim (Option-cases (lookup user.id gates)) [
    | inl absent ↦ rw (absent, update_gate) (lookup-insert user.id key _ gates)
    | inr (gate, found) ↦ rw (found, update_gate) (lookup-insert user.id key _ gates)
  ]

  lookup-update_gates :
      (now : ℕ) (users : List ServerUser) (gates : List (Text × GateState F)) (key : Text)
      → Nodup (user_ids users)
      → lookup key (update_gates fl now users gates)
        ≡ gate_for now (with_id key users) (lookup key gates)
  unfolding update_gates
  lookup-update_gates now [] gates key d = refl
  lookup-update_gates now (u ∷ users) gates key d =
      lookup-update_gates now users (update_gate fl now u gates) key d.1
      ∙ rw (lookup-update_gate now u gates key) (elim (Bool-cases (u.id == key)) [
        | inl same ↦
            let same' = (list_beq_iff u.id key).0 same in
            rw same (
              rw
                (with_id-absent key users
                  (subst (λ k. contains (user_ids users) k ≡ false) same' d.0))
                (rw same' refl))
        | inr other ↦ rw other refl
      ])

  -- A gate exists after `reconcile_gates` just for the users of the configuration: a user that had
  -- a gate keeps it, its counter too, with the new limits, and a new user has a fresh gate.
  pub lookup-reconcile_gates :
      (now : ℕ) (config : ServerConfig) (gates : List (Text × GateState F)) (key : Text)
      → Nodup (user_ids config.users)
      → lookup key (reconcile_gates fl now config gates) ≡ (
          if contains (user_ids config.users) key
          then gate_for now (with_id key config.users) (lookup key gates)
          else none)
  unfolding reconcile_gates
  lookup-reconcile_gates now config gates key d =
      lookup-update_gates now config.users _ key d
      ∙ rw (lookup-retain_keys (contains (user_ids config.users)) key gates)
          (elim (Bool-cases (contains (user_ids config.users) key)) [
            | inl known ↦ rw known refl
            | inr unknown ↦ rw unknown (rw (with_id-absent key config.users unknown) refl)
          ])

  -- The users' gates exist.
  pub gate_exists :
      (now : ℕ) (config : ServerConfig) (gates : List (Text × GateState F)) (key : Text)
      → Nodup (user_ids config.users)
      → contains (user_ids config.users) key ≡ true
      → (gate : GateState F) × (lookup key (reconcile_gates fl now config gates) ≡ some gate)
  gate_exists now config gates key d known =
      let (user, found) = with_id-present key config.users known in
      let looked = lookup-reconcile_gates now config gates key d in
      elim (Option-cases (lookup key gates)) [
        | inl absent ↦ (fresh_gate fl now user, looked ∙ rw known (rw found (rw absent refl)))
        | inr (gate, had) ↦ (
          update_limits fl now user.traffic_limit_bytes user.speed_limit_mbps gate,
          looked ∙ rw known (rw found (rw had refl)),
        )
      ]
