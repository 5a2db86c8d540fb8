-- ===== src/Prelude/Counts.antt =====
-- How often an element stands in a list, and removal from a list without repetition.
use Prim.Native.Nat.{ℕ, ◌+◌, ◌≤◌, ◌<◌}
use mathlib.Core.Path.{subst, ◌≡◌, refl}
use mathlib.Core.Logic.{inl, inr}
use mathlib.Core.Bool.{Bool, true, false}
use mathlib.Core.List.{List, [], ◌∷◌, ◌++◌}
use native.Mathlib.Omega.{arith}
use orange_frp.Prelude.Tests.{Eq, ◌==◌, if◌then◌else◌, Bool-cases}
use orange_frp.Prelude.Lists.{any, length}
use orange_frp.Prelude.Collections.{contains, erase, Nodup, contains-erase, erase_absent}

module _ {ℓ} {A : Type ℓ} ⦃e : Eq A⦄ where
  -- How often an element stands in a list.
  abbrev pub count : A → List A → ℕ
  count a [] = 0
  count a (x ∷ xs) = (if x == a then 1 else 0) + count a xs

  pub count-append : (a : A) (xs ys : List A) → count a (xs ++ ys) ≡ count a xs + count a ys
  count-append a [] ys = omega arith
  count-append a (x ∷ xs) ys = omega (arith, count-append a xs ys)

  pub count-absent : (a : A) (xs : List A) → contains xs a ≡ false → count a xs ≡ 0
  count-absent a [] h = refl
  count-absent a (x ∷ xs) h = ground (arith, count-absent a xs)

  pub contains-count : (a : A) (xs : List A) → contains xs a ≡ true → 0 < count a xs
  contains-count a [] h = absurd (ground arith)
  contains-count a (x ∷ xs) h = ground (arith, contains-count a xs)

  pub Nodup-count : (a : A) (xs : List A) → Nodup xs → count a xs ≤ 1
  Nodup-count a [] d = omega arith
  Nodup-count a (x ∷ xs) d = elim (Bool-cases (x == a)) [
    | inl same ↦
        let absent = subst (λ y. contains xs y ≡ false) ((e.beq_iff x a).0 same) d.0 in
        rw same (omega (arith, count-absent a xs absent))
    | inr other ↦ rw other (omega (arith, Nodup-count a xs d.1))
  ]

  pub count-pos : (a : A) (xs : List A) → 0 < count a xs → contains xs a ≡ true
  count-pos a [] h = absurd (omega arith)
  count-pos a (x ∷ xs) h = ground (arith, count-pos a xs)

  pub count-zero : (a : A) (xs : List A) → count a xs ≡ 0 → contains xs a ≡ false
  count-zero a [] h = refl
  count-zero a (x ∷ xs) h = ground (arith, count-zero a xs)

  pub any-false-contains :
      (p : A → Bool) (xs : List A) (a : A) → any p xs ≡ false → contains xs a ≡ true → p a ≡ false
  any-false-contains p [] a h c = absurd (ground arith)
  any-false-contains p (x ∷ xs) a h c = elim (Bool-cases (x == a)) [
    | inl same ↦ subst (λ y. p y ≡ false) ((e.beq_iff x a).0 same) (ground arith)
    | inr other ↦ any-false-contains p xs a (ground arith) (ground arith)
  ]

module _ {ℓ} {A : Type ℓ} ⦃e : Eq A⦄ where
  pub Nodup-erase : (a : A) (xs : List A) → Nodup xs → Nodup (erase a xs)
  Nodup-erase a [] d = tt
  Nodup-erase a (x ∷ xs) d = elim (Bool-cases (x == a)) [
    | inl same ↦ rw same (Nodup-erase a xs d.1)
    | inr other ↦
        rw other (
          ground (arith, contains-erase a x xs, e.beq_iff a x, e.beq_iff x a),
          Nodup-erase a xs d.1,
        )
  ]

  pub length-erase :
      (a : A) (xs : List A) → Nodup xs → contains xs a ≡ true → length (erase a xs) + 1 ≡ length xs
  length-erase a [] d h = absurd (ground arith)
  length-erase a (x ∷ xs) d h = elim (Bool-cases (x == a)) [
    | inl same ↦
        let absent = subst (λ y. contains xs y ≡ false) ((e.beq_iff x a).0 same) d.0 in
        rw same (rw (erase_absent a xs absent) (omega arith))
    | inr other ↦ rw other (omega (arith, length-erase a xs d.1 (rw other at h)))
  ]
