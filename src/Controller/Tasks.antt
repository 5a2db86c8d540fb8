-- ===== src/Controller/Tasks.antt =====
-- The loop of `reconcile` that stops the tasks that are not wanted.
use orange_frp.Prelude.{
  ◌≡◌, refl, sym, ◌∙◌, subst, inl, inr, true, false, Option, none, some, List, [], ◌∷◌,
  if◌then◌else◌, Bool-cases, Option-cases, ◌==◌, nat_eq, beq_refl, list_eq, list_beq_iff, pair_eq,
  insert-Nodup, retain-absent, retain, Nodup, keys, lookup, insert, contains_key, lookup-eq-none,
  Text,
}
use orange_frp.Config.{ServerConfig}
use orange_frp.Controller.{
  TunnelSpec, spec_eq, ControllerTask, Tasks, Specs, collect, desired, keep, stop_tasks, all_specs,
}

-- The specification that a key's task runs.
abbrev pub running : Option ControllerTask → Option TunnelSpec
running none = none
running (some task) = some task.spec

-- What is left of a key's task when the wanted specification is as given.
abbrev pub kept : Option ControllerTask → Option TunnelSpec → Option ControllerTask
kept none wanted = none
kept (some task) none = none
kept (some task) (some spec) = if task.spec == spec then some task else none

pub running-eq-some :
    (o : Option ControllerTask) {spec : TunnelSpec}
    → running o ≡ some spec
    → (task : ControllerTask) × (o ≡ some task) × (task.spec ≡ spec)
running-eq-some none h = absurd cc
running-eq-some (some task) h = (task, refl, cc)

pub spec_refl : (spec : TunnelSpec) → (spec == spec) ≡ true
spec_refl spec = beq_refl spec

kept-keep :
    (specs : Specs) (key : Text) (task : ControllerTask)
    → kept (some task) (lookup key specs) ≡ (if keep specs (key, task) then some task else none)
unfolding keep
kept-keep specs key task = elim (Option-cases (lookup key specs)) [
  | inl absent ↦ rw (absent, keep) refl
  | inr (spec, found) ↦ rw (found, keep) refl
]

collect-Nodup :
    (specs : List TunnelSpec) (m : Specs) → Nodup (keys m) → Nodup (keys (collect specs m))
unfolding collect
collect-Nodup [] m d = d
collect-Nodup (s ∷ specs) m d =
    collect-Nodup specs (insert s.proxy_name s m) (insert-Nodup s.proxy_name s m d)

pub desired-Nodup : (config : ServerConfig) → Nodup (keys (desired config))
unfolding desired
desired-Nodup config = collect-Nodup (all_specs config.public_bind config.users) [] tt

-- The loop that stops tasks leaves a key's task just when its specification is the wanted one.
pub lookup-stop_tasks :
    (specs : Specs) (tasks : Tasks) (key : Text)
    → Nodup (keys tasks)
    → lookup key (stop_tasks specs tasks) ≡ kept (lookup key tasks) (lookup key specs)
unfolding stop_tasks
lookup-stop_tasks specs [] key d = refl
lookup-stop_tasks specs ((j, task) ∷ tasks) key d = elim (Bool-cases (j == key)) [
  | inl same ↦
      let same' = (list_beq_iff j key).0 same in
      let absent = subst (λ k. contains_key k tasks ≡ false) same' d.0 in
      rw same (
        kept_here same (subst (λ k. keep specs (k, task) ≡ keep specs (key, task)) (sym same') refl)
          absent
        ∙ sym (kept-keep specs key task))
  | inr other ↦ rw other (kept_there other ∙ lookup-stop_tasks specs tasks key d.1)
]
  where
    kept_here :
        (j == key) ≡ true
        → keep specs (j, task) ≡ keep specs (key, task)
        → contains_key key tasks ≡ false
        → lookup key (retain (keep specs) ((j, task) ∷ tasks))
          ≡ (if keep specs (key, task) then some task else none)
    kept_here same e absent = elim (Bool-cases (keep specs (key, task))) [
      | inl stays ↦ rw e (rw stays (rw same refl))
      | inr leaves ↦ rw e (
          rw leaves (
            lookup-eq-none key (retain (keep specs) tasks)
              (retain-absent (keep specs) key tasks absent)))
    ]

    kept_there :
        (j == key) ≡ false
        → lookup key (retain (keep specs) ((j, task) ∷ tasks))
          ≡ lookup key (retain (keep specs) tasks)
    kept_there other = elim (Bool-cases (keep specs (j, task))) [
      | inl stays ↦ rw stays (rw other refl)
      | inr leaves ↦ rw leaves refl
    ]
