-- ===== src/Prelude/Maps.antt =====
-- The laws of insertion, `retain` and predicates of the values of a map.
use mathlib.Core.Path.{subst, ◌≡◌, refl}
use mathlib.Core.Logic.{◌⊎◌, inl, inr}
use mathlib.Core.Bool.{Bool, false, ◌||◌}
use mathlib.Core.List.{List, [], ◌∷◌}
use mathlib.Core.Option.{none, some}
use native.Mathlib.Omega.{arith}
use orange_frp.Prelude.Tests.{Eq, ◌==◌, Bool-cases}
use orange_frp.Prelude.Lists.{retain}
use orange_frp.Prelude.Collections.{
  contains, Nodup, keys, lookup, insert, contains_key, lookup-eq-none,
}

module _ {ℓ κ} {K : Type ℓ} {V : Type κ} ⦃e : Eq K⦄ where
  pub keys-insert :
      (k j : K) (v : V) (m : List (K × V))
      → contains_key j (insert k v m) ≡ (k == j || contains_key j m)
  keys-insert k j v [] = refl
  keys-insert k j v ((i, w) ∷ m) =
      ground (arith, e.beq_iff k j, e.beq_iff i k, e.beq_iff i j, keys-insert k j v m)

  pub insert-Nodup :
      (k : K) (v : V) (m : List (K × V)) → Nodup (keys m) → Nodup (keys (insert k v m))
  insert-Nodup k v [] d = (refl, tt)
  insert-Nodup k v ((i, w) ∷ m) d = elim (Bool-cases (i == k)) [
    | inl same ↦
        rw same (subst (λ x. contains (keys m) x ≡ false) ((e.beq_iff i k).0 same) d.0, d.1)
    | inr other ↦
        rw other (
          ground (arith, keys-insert k i v m, e.beq_iff k i, e.beq_iff i k),
          insert-Nodup k v m d.1,
        )
  ]

  pub retain-absent :
      (p : K × V → Bool) (k : K) (m : List (K × V))
      → contains_key k m ≡ false
      → contains_key k (retain p m) ≡ false
  retain-absent p k [] h = refl
  retain-absent p k ((i, w) ∷ m) h = ground (arith, retain-absent p k m)

  pub retain-Nodup :
      (p : K × V → Bool) (m : List (K × V)) → Nodup (keys m) → Nodup (keys (retain p m))
  retain-Nodup p [] d = tt
  retain-Nodup p ((i, w) ∷ m) d = elim (Bool-cases (p (i, w))) [
    | inl kept ↦ rw kept (retain-absent p i m d.0, retain-Nodup p m d.1)
    | inr gone ↦ rw gone (retain-Nodup p m d.1)
  ]

  -- A lookup among what is retained.
  pub lookup-retain :
      (p : K × V → Bool) (k : K) (m : List (K × V))
      → Nodup (keys m)
      → (lookup k (retain p m) ≡ lookup k m)
        ⊎ ((v : V) × (lookup k m ≡ some v) × (p (k, v) ≡ false) × (lookup k (retain p m) ≡ none))
  lookup-retain p k [] d = inl refl
  lookup-retain p k ((i, w) ∷ m) d = elim (Bool-cases (i == k)) [
    | inl same ↦ elim (Bool-cases (p (i, w))) [
      | inl kept ↦ rw kept (inl (rw same))
      | inr gone ↦
          let same' = (e.beq_iff i k).0 same in
          rw gone (
            inr (
              w,
              rw same,
              subst (λ x. p (x, w) ≡ false) same' gone,
              lookup-eq-none k (retain p m)
                  (retain-absent p k m (subst (λ x. contains_key x m ≡ false) same' d.0)),
            ))
    ]
    | inr other ↦ elim (Bool-cases (p (i, w))) [
      | inl kept ↦ rw kept (rw other (lookup-retain p k m d.1))
      | inr gone ↦ rw gone (rw other (lookup-retain p k m d.1))
    ]
  ]

module _ {ℓ κ μ} {K : Type ℓ} {V : Type κ} ⦃e : Eq K⦄ (P : V → Type μ) where
  -- A predicate of every value.
  abbrev pub AllValues : List (K × V) → Type μ
  AllValues [] = Unit
  AllValues ((k, v) ∷ m) = P v × AllValues m

  pub AllValues-retain :
      (p : K × V → Bool) (m : List (K × V)) → AllValues m → AllValues (retain p m)
  AllValues-retain p [] a = tt
  AllValues-retain p ((k, v) ∷ m) a = elim (Bool-cases (p (k, v))) [
    | inl kept ↦ rw kept (a.0, AllValues-retain p m a.1)
    | inr gone ↦ rw gone (AllValues-retain p m a.1)
  ]

  pub AllValues-insert :
      (k : K) (v : V) (m : List (K × V)) → P v → AllValues m → AllValues (insert k v m)
  AllValues-insert k v [] h a = (h, tt)
  AllValues-insert k v ((j, w) ∷ m) h a = elim (Bool-cases (j == k)) [
    | inl same ↦ rw same (h, a.1)
    | inr other ↦ rw other (a.0, AllValues-insert k v m h a.1)
  ]

  pub AllValues-lookup :
      (k : K) (m : List (K × V)) (v : V) → AllValues m → lookup k m ≡ some v → P v
  AllValues-lookup k [] v a h = absurd (ground arith)
  AllValues-lookup k ((j, w) ∷ m) v a h = elim (Bool-cases (j == k)) [
    | inl same ↦ let e' : w ≡ v = cc (rw same at h) in subst P e' a.0
    | inr other ↦ AllValues-lookup k m v a.1 (rw other at h)
  ]
