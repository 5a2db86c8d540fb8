-- ===== src/Controller/Start.antt =====
-- The loop of `reconcile` that starts the missing tasks.
use orange_frp.Prelude.{
  ℕ, ◌≡◌, refl, sym, ap, ◌∙◌, subst, ◌≢◌, ◌⊎◌, inl, inr, Bool, false, ◌||◌, none, some, [], ◌∷◌,
  arith, Bool-cases, ◌==◌, nat_eq, beq_refl, list_eq, list_beq_iff, pair_eq, Nodup, keys, lookup,
  insert, contains_key, lookup-insert, lookup-eq-none, contains_key-lookup, Result, ok, ok_or,
  >>=-eq-ok, Result-cases, Text,
}
use orange_frp.Tunnel.{tcp, udp}
use orange_frp.Config.{Error, no_such_gate}
use orange_frp.Floats.{Float}
use orange_frp.Controller.{
  TunnelSpec, spec_eq, ControllerTask, Specs, TrafficController, start_task, start_one,
  start_missing,
}
use orange_frp.Controller.Tasks.{running, running-eq-some}

module _ (fl : Float) (bind : ℕ → TunnelSpec → Bool) where
  open fl use {F}

  -- What a turn of the starting loop does.
  record Started (c : TrafficController F) (key : Text) (spec : TunnelSpec)
      (c' : TrafficController F) : Type 0 where
    task : ControllerTask
    missing : lookup key c.tasks ≡ none
    runs : task.spec ≡ spec
    put : c'.tasks ≡ insert key task c.tasks
    gates_same : c'.gates ≡ c.gates

  start_task-eq-ok :
      (spawned : ℕ) (spec : TunnelSpec) (task : ControllerTask)
      → start_task fl bind spawned spec ≡ ok task
      → task.spec ≡ spec
  unfolding start_task
  start_task-eq-ok spawned spec task h =
      elim (Bool-cases (spec.protocol == tcp || spec.protocol == udp)) [
        | inr other ↦ absurd (cc (rw other at h))
        | inl known ↦ elim (Bool-cases (bind spawned spec)) [
          | inr busy ↦ absurd (cc (rw busy at (rw known at h)))
          | inl free ↦
              let same : ok (record { spec = spec; handle = spawned }) ≡ ok task =
                rw free at (rw known at h) in
              cc
        ]
      ]

  same_ok :
      (r : Result Error (TrafficController F)) {a b : TrafficController F}
      → r ≡ ok a
      → r ≡ ok b
      → b ≡ a
  same_ok r e f = cc

  start_one-eq-ok :
      (c : TrafficController F) (key : Text) (spec : TunnelSpec) (c' : TrafficController F)
      → start_one fl bind c key spec ≡ ok c'
      → ((task : ControllerTask) × (lookup key c.tasks ≡ some task) × (c ≡ c'))
        ⊎ Started c key spec c'
  unfolding start_one start_task
  start_one-eq-ok c key spec c' h = elim (Bool-cases (contains_key key c.tasks)) [
    | inl present ↦
        let (task, found) = contains_key-lookup key c.tasks present in
        let same : ok c ≡ ok c' = rw present at h in inl (task, found, cc)
    | inr absent ↦
        let made = rw absent at h in
        let (gate, got, rest) =
          >>=-eq-ok (ok_or (lookup spec.user_id c.gates) no_such_gate) _ made in
        let (task, begun, last) = >>=-eq-ok (start_task fl bind c.spawned spec) _ rest in
        let ran = start_task-eq-ok c.spawned spec task begun in
        inr (record {
          task = task;
          missing = lookup-eq-none key c.tasks absent;
          runs = ran;
          put = ap (λ x. x.tasks) (same_ok _ refl last);
          gates_same = ap (λ x. x.gates) (same_ok _ refl last);
        })
  ]

  -- A key has a task after a turn if it had one, and the key of the turn has one that runs its
  -- specification; no other key is touched.
  start_one-still :
      (c : TrafficController F) (k : Text) (spec : TunnelSpec) (c' : TrafficController F) (j : Text)
      (task : ControllerTask)
      → start_one fl bind c k spec ≡ ok c'
      → lookup j c.tasks ≡ some task
      → lookup j c'.tasks ≡ some task
  start_one-still c k spec c' j task h found = elim (start_one-eq-ok c k spec c' h) [
    | inl (t, here, same) ↦ subst (λ x. lookup j x.tasks ≡ some task) same found
    | inr s ↦ rw (s.put) (
        ground (
          arith,
          lookup-insert k j s.task c.tasks,
          list_beq_iff k j,
          s.missing,
          found,
          differ s.missing,
        ))
  ]
    where
      differ : lookup k c.tasks ≡ none → k ≢ j
      differ gone e = cc

  start_one-other :
      (c : TrafficController F) (k : Text) (spec : TunnelSpec) (c' : TrafficController F) (j : Text)
      → start_one fl bind c k spec ≡ ok c'
      → (k == j) ≡ false
      → lookup j c'.tasks ≡ lookup j c.tasks
  start_one-other c k spec c' j h other = elim (start_one-eq-ok c k spec c' h) [
    | inl (t, here, same) ↦ subst (λ x. lookup j x.tasks ≡ lookup j c.tasks) same refl
    | inr s ↦ rw (s.put) (rw (lookup-insert k j s.task c.tasks) (rw other refl))
  ]

  start_one-here :
      (c : TrafficController F) (k : Text) (spec : TunnelSpec) (c' : TrafficController F)
      → start_one fl bind c k spec ≡ ok c'
      → lookup k c.tasks ≡ none
      → running (lookup k c'.tasks) ≡ some spec
  start_one-here c k spec c' h gone = elim (start_one-eq-ok c k spec c' h) [
    | inl (t, here, same) ↦ absurd (cc)
    | inr s ↦ rw (s.put) (rw (lookup-insert k k s.task c.tasks) (rw (beq_refl k) (ap some s.runs)))
  ]

  pub start_one-gates :
      (c : TrafficController F) (k : Text) (spec : TunnelSpec) (c' : TrafficController F)
      → start_one fl bind c k spec ≡ ok c'
      → c'.gates ≡ c.gates
  start_one-gates c k spec c' h = elim (start_one-eq-ok c k spec c' h) [
    | inl (t, here, same) ↦ subst (λ x. x.gates ≡ c.gates) same refl
    | inr s ↦ s.gates_same
  ]

  -- A task that runs already is not touched by the starting loop, whatever its result.
  pub start_missing-running :
      (specs : Specs) (c : TrafficController F) (key : Text) (task : ControllerTask)
      → lookup key c.tasks ≡ some task
      → lookup key (start_missing fl bind specs c).0.tasks ≡ some task
  unfolding start_missing
  start_missing-running [] c key task h = h
  start_missing-running ((k, spec) ∷ specs) c key task h =
      elim (Result-cases (start_one fl bind c k spec)) [
        | inr (e, failed) ↦ rw (failed, start_missing) h
        | inl (c', made) ↦
            rw (made, start_missing)
              (start_missing-running specs c' key task
                (start_one-still c k spec c' key task made h))
      ]

  pub start_missing-absent :
      (specs : Specs) (c : TrafficController F) (key : Text)
      → lookup key specs ≡ none
      → lookup key (start_missing fl bind specs c).0.tasks ≡ lookup key c.tasks
  unfolding start_missing
  start_missing-absent [] c key h = refl
  start_missing-absent ((k, spec) ∷ specs) c key h = elim (Bool-cases (k == key)) [
    | inl same ↦ absurd (cc (rw same at h))
    | inr other ↦ elim (Result-cases (start_one fl bind c k spec)) [
      | inr (e, failed) ↦ rw (failed, start_missing) refl
      | inl (c', made) ↦
          rw (made, start_missing)
            (start_missing-absent specs c' key (rw other at h)
              ∙ start_one-other c k spec c' key made other)
    ]
  ]

  pub start_missing-started :
      (specs : Specs) (c : TrafficController F) (key : Text) (spec : TunnelSpec)
      → Nodup (keys specs)
      → (start_missing fl bind specs c).1 ≡ ok tt
      → lookup key specs ≡ some spec
      → lookup key c.tasks ≡ none
      → running (lookup key (start_missing fl bind specs c).0.tasks) ≡ some spec
  unfolding start_missing
  start_missing-started [] c key spec d done found gone = absurd cc
  start_missing-started ((k, s) ∷ specs) c key spec d done found gone =
      elim (Result-cases (start_one fl bind c k s)) [
        | inr (e, failed) ↦ absurd (cc (rw (failed, start_missing) at done))
        | inl (c', made) ↦ elim (Bool-cases (k == key)) [
          | inl same ↦
              let same' = (list_beq_iff k key).0 same in
              let wanted : some s ≡ some spec = rw same at found in
              let (task, ran, runs) = running-eq-some (lookup key c'.tasks) (
                subst (λ j. running (lookup j c'.tasks) ≡ some s) same'
                  (start_one-here c k s c' made
                    (subst (λ j. lookup j c.tasks ≡ none) (sym same') gone))) in
              rw (made, start_missing)
                (rw (start_missing-running specs c' key task ran) (ap some runs ∙ wanted))
          | inr other ↦
              rw (made, start_missing)
                (start_missing-started specs c' key spec d.1 (rw (made, start_missing) at done)
                  (rw other at found) (start_one-other c k s c' key made other ∙ gone))
        ]
      ]
