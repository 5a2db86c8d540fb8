-- ===== src/Controller/Reconcile.antt =====
-- What `reconcile` does to the tasks.
use orange_frp.Prelude.{
  ℕ, ◌≡◌, refl, ap, ◌∙◌, ◌⊎◌, inl, inr, Bool, Option, none, some, Bool-cases, Option-cases, ◌==◌,
  nat_eq, list_eq, pair_eq, Nodup, keys, lookup, ok, Text,
}
use orange_frp.Config.{ServerConfig}
use orange_frp.Floats.{Float}
use orange_frp.Controller.{
  TunnelSpec, spec_beq_iff, spec_eq, ControllerTask, TrafficController, desired, stop_tasks,
  reconcile_gates, reconcile,
}
use orange_frp.Controller.Tasks.{running, spec_refl, kept, lookup-stop_tasks, desired-Nodup}
use orange_frp.Controller.Start.{start_missing-running, start_missing-absent, start_missing-started}

kept-none : (o : Option ControllerTask) → kept o none ≡ none
kept-none none = refl
kept-none (some task) = refl

kept-cases :
    (o : Option ControllerTask) (spec : TunnelSpec)
    → (kept o (some spec) ≡ none)
      ⊎ ((task : ControllerTask) × (kept o (some spec) ≡ some task) × (task.spec ≡ spec))
kept-cases none spec = inl refl
kept-cases (some task) spec = elim (Bool-cases (task.spec == spec)) [
  | inl same ↦ rw same (inr (task, refl, (spec_beq_iff task.spec spec).0 same))
  | inr other ↦ rw other (inl refl)
]

module _ (fl : Float) (bind : ℕ → TunnelSpec → Bool) where
  open fl use {F}

  -- The controller when the tasks that are not wanted have stopped.
  abbrev stopped : ℕ → ServerConfig → TrafficController F → TrafficController F
  stopped now config c = record c {
    tasks = stop_tasks (desired config) c.tasks;
    gates = reconcile_gates fl now config c.gates;
  }

  -- A task whose specification is still wanted runs on untouched, whatever the result.
  pub reconcile-running :
      (now : ℕ) (config : ServerConfig) (c : TrafficController F) (key : Text)
      (task : ControllerTask)
      → Nodup (keys c.tasks)
      → lookup key c.tasks ≡ some task
      → lookup key (desired config) ≡ some task.spec
      → lookup key (reconcile fl bind now config c).0.tasks ≡ some task
  unfolding reconcile
  reconcile-running now config c key task d found wanted =
      start_missing-running fl bind (desired config) _ key task (
        lookup-stop_tasks (desired config) c.tasks key d
        ∙ rw found (rw wanted (rw (spec_refl task.spec) refl)))

  -- After a reconciliation that succeeds, a key has a task just when the configuration wants one,
  -- and the task runs the specification that is wanted.
  pub reconcile-tasks :
      (now : ℕ) (config : ServerConfig) (c : TrafficController F)
      → Nodup (keys c.tasks)
      → (reconcile fl bind now config c).1 ≡ ok tt
      → (key : Text)
      → running (lookup key (reconcile fl bind now config c).0.tasks) ≡ lookup key (desired config)
  unfolding reconcile
  reconcile-tasks now config c d done key = elim (Option-cases (lookup key (desired config))) [
    | inl unwanted ↦ rw unwanted (
        ap running (
          start_missing-absent fl bind (desired config) (stopped now config c) key unwanted
          ∙ gone unwanted))
    | inr (spec, wanted) ↦ rw wanted (elim (kept-cases (lookup key c.tasks) spec) [
      | inl missing ↦
          start_missing-started fl bind (desired config) (stopped now config c) key spec
            (desired-Nodup config) done wanted (left wanted ∙ missing)
      | inr (task, stays, same) ↦
          rw
            (start_missing-running fl bind (desired config) (stopped now config c) key task
              (left wanted ∙ stays))
            (ap some same)
    ])
  ]
    where
      left :
          {wanted : Option TunnelSpec}
          → lookup key (desired config) ≡ wanted
          → lookup key (stop_tasks (desired config) c.tasks) ≡ kept (lookup key c.tasks) wanted
      left e = lookup-stop_tasks (desired config) c.tasks key d ∙ ap (kept (lookup key c.tasks)) e

      gone :
          lookup key (desired config) ≡ none
          → lookup key (stop_tasks (desired config) c.tasks) ≡ none
      gone e = left e ∙ kept-none (lookup key c.tasks)
