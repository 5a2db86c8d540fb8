-- ===== src/Prelude/Overlay.antt =====
-- Maps under several changes: one insertion after the other, removal, functions of the values.
use mathlib.Core.Path.{ap, subst, ◌≡◌, refl, ◌∙◌}
use mathlib.Core.Logic.{inl, inr}
use mathlib.Core.Bool.{Bool, true, false, not, ◌&&◌, ◌||◌}
use mathlib.Core.List.{List, [], ◌∷◌, ◌++◌}
use mathlib.Core.Option
use mathlib.Core.Option.{none, some}
use Prim.Native.Nat.{◌+◌, ◌≤◌}
use native.Mathlib.Omega.{arith}
use orange_frp.Prelude.Tests.{Eq, ◌==◌, if◌then◌else◌, Bool-cases}
use orange_frp.Prelude.Lists.{length, retain, All}
use orange_frp.Prelude.Collections.{
  Nodup, keys, lookup, insert, remove, contains_key, lookup-eq-none, lookup-insert, map_values,
}
use orange_frp.Prelude.Maps.{AllValues, AllValues-insert, keys-insert, insert-Nodup}

-- One insertion after the other.
module _ {ℓ κ} {K : Type ℓ} {V : Type κ} ⦃e : Eq K⦄ where
  abbrev pub insert_all : List (K × V) → List (K × V) → List (K × V)
  insert_all [] m = m
  insert_all ((k, v) ∷ xs) m = insert_all xs (insert k v m)

  pub insert_all-append :
      (xs ys m : List (K × V)) → insert_all (xs ++ ys) m ≡ insert_all ys (insert_all xs m)
  insert_all-append [] ys m = refl
  insert_all-append ((k, v) ∷ xs) ys m = insert_all-append xs ys (insert k v m)

  -- What is inserted under different keys hides what was there.
  pub lookup-insert_all :
      (k : K) (xs m : List (K × V))
      → Nodup (keys xs)
      → lookup k (insert_all xs m) ≡ (if contains_key k xs then lookup k xs else lookup k m)
  lookup-insert_all k [] m d = refl
  lookup-insert_all k ((j, v) ∷ xs) m d = elim (Bool-cases (j == k)) [
    | inl same ↦
        let absent = subst (λ x. contains_key x xs ≡ false) ((e.beq_iff j k).0 same) d.0 in
        rw same (
          rw (lookup-insert_all k xs (insert j v m) d.1)
            (rw absent (rw (lookup-insert j k v m) (rw same))))
    | inr other ↦
        rw other
          (rw (lookup-insert_all k xs (insert j v m) d.1) (rw (lookup-insert j k v m) (rw other)))
  ]

  pub lookup-map_values :
      (f : V → V) (k : K) (m : List (K × V)) → lookup k (map_values f m) ≡ Option.map f (lookup k m)
  lookup-map_values f k [] = refl
  lookup-map_values f k ((j, v) ∷ m) = ground (arith, lookup-map_values f k m)

  pub lookup-insert_all-absent :
      (k : K) (xs m : List (K × V))
      → contains_key k xs ≡ false
      → lookup k (insert_all xs m) ≡ lookup k m
  lookup-insert_all-absent k [] m h = refl
  lookup-insert_all-absent k ((j, v) ∷ xs) m h =
      let other : (j == k) ≡ false = ground arith in
      lookup-insert_all-absent k xs (insert j v m) (ground arith)
      ∙ (rw (lookup-insert j k v m) (rw other refl))

  pub lookup-retain-kept :
      (p : K × V → Bool) (k : K) (m : List (K × V)) (v : V)
      → lookup k m ≡ some v
      → p (k, v) ≡ true
      → lookup k (retain p m) ≡ some v
  lookup-retain-kept p k [] v h kept = h
  lookup-retain-kept p k ((j, w) ∷ m) v h kept = elim (Bool-cases (j == k)) [
    | inl same ↦
        let e' : some w ≡ some v = rw same at h in
        let w' : w ≡ v = cc e' in
        let here : p (j, w) ≡ true = rw ((e.beq_iff j k).0 same, w') kept in rw here (rw same e')
    | inr other ↦ elim (Bool-cases (p (j, w))) [
      | inl stays ↦ rw stays (rw other (lookup-retain-kept p k m v (rw other at h) kept))
      | inr goes ↦ rw goes (lookup-retain-kept p k m v (rw other at h) kept)
    ]
  ]

  pub lookup-append :
      (k : K) (xs ys : List (K × V))
      → lookup k (xs ++ ys) ≡ (if contains_key k xs then lookup k xs else lookup k ys)
  lookup-append k [] ys = refl
  lookup-append k ((j, v) ∷ xs) ys = ground (arith, lookup-append k xs ys)

  pub keys-append :
      (k : K) (xs ys : List (K × V))
      → contains_key k (xs ++ ys) ≡ (contains_key k xs || contains_key k ys)
  keys-append k [] ys = refl
  keys-append k ((j, v) ∷ xs) ys = ground (arith, keys-append k xs ys)

  pub keys-remove :
      (k j : K) (m : List (K × V))
      → contains_key j (remove k m) ≡ (not (k == j) && contains_key j m)
  keys-remove k j [] = ground arith
  keys-remove k j ((i, w) ∷ m) =
      ground (arith, e.beq_iff k j, e.beq_iff i k, e.beq_iff i j, keys-remove k j m)

  pub length-remove-le : (k : K) (m : List (K × V)) → length (remove k m) ≤ length m
  length-remove-le k [] = omega arith
  length-remove-le k ((i, w) ∷ m) = ground (arith, length-remove-le k m)

  pub remove_absent : (k : K) (m : List (K × V)) → contains_key k m ≡ false → remove k m ≡ m
  remove_absent k [] h = refl
  remove_absent k ((i, w) ∷ m) h = elim (Bool-cases (i == k)) [
    | inl same ↦ absurd (ground arith)
    | inr other ↦ rw other (ap (◌∷◌ (i, w)) (remove_absent k m (ground arith)))
  ]

  pub length-remove :
      (k : K) (m : List (K × V))
      → Nodup (keys m)
      → contains_key k m ≡ true
      → length (remove k m) + 1 ≡ length m
  length-remove k [] d h = absurd (ground arith)
  length-remove k ((i, w) ∷ m) d h = elim (Bool-cases (i == k)) [
    | inl same ↦
        let absent = subst (λ x. contains_key x m ≡ false) ((e.beq_iff i k).0 same) d.0 in
        rw same (rw (remove_absent k m absent) (omega arith))
    | inr other ↦ rw other (omega (arith, length-remove k m d.1 (rw other at h)))
  ]

  pub lookup-contains_key :
      (k : K) (m : List (K × V)) (v : V) → lookup k m ≡ some v → contains_key k m ≡ true
  lookup-contains_key k m v h = elim (Bool-cases (contains_key k m)) [
    | inl there ↦ there
    | inr absent ↦ let gone = lookup-eq-none k m absent in absurd (cc (gone, h))
  ]

  pub remove-Nodup : (k : K) (m : List (K × V)) → Nodup (keys m) → Nodup (keys (remove k m))
  remove-Nodup k [] d = tt
  remove-Nodup k ((j, v) ∷ m) d = elim (Bool-cases (j == k)) [
    | inl same ↦ rw same (remove-Nodup k m d.1)
    | inr other ↦ rw other (ground (arith, keys-remove k j m), remove-Nodup k m d.1)
  ]

  pub keys-insert_all :
      (k : K) (xs m : List (K × V))
      → contains_key k (insert_all xs m) ≡ (contains_key k xs || contains_key k m)
  keys-insert_all k [] m = refl
  keys-insert_all k ((j, v) ∷ xs) m =
      ground (arith, keys-insert_all k xs (insert j v m), keys-insert j k v m)

  pub insert_all-Nodup : (xs m : List (K × V)) → Nodup (keys m) → Nodup (keys (insert_all xs m))
  insert_all-Nodup [] m d = d
  insert_all-Nodup ((k, v) ∷ xs) m d = insert_all-Nodup xs (insert k v m) (insert-Nodup k v m d)

module _ {ℓ κ μ} {K : Type ℓ} {V : Type κ} ⦃e : Eq K⦄ (P : V → Type μ) where
  pub AllValues-remove : (k : K) (m : List (K × V)) → AllValues P m → AllValues P (remove k m)
  AllValues-remove k [] a = tt
  AllValues-remove k ((j, v) ∷ m) a = elim (Bool-cases (j == k)) [
    | inl same ↦ rw same (AllValues-remove k m a.1)
    | inr other ↦ rw other (a.0, AllValues-remove k m a.1)
  ]

  pub AllValues-insert_all :
      (xs m : List (K × V)) → AllValues P xs → AllValues P m → AllValues P (insert_all xs m)
  AllValues-insert_all [] m a b = b
  AllValues-insert_all ((k, v) ∷ xs) m a b =
      AllValues-insert_all xs (insert k v m) a.1 (AllValues-insert P k v m a.0 b)

  pub AllValues-append :
      (xs ys : List (K × V)) → AllValues P xs → AllValues P ys → AllValues P (xs ++ ys)
  AllValues-append [] ys a b = b
  AllValues-append ((k, v) ∷ xs) ys a b = (a.0, AllValues-append xs ys a.1 b)

  pub All-AllValues : (m : List (K × V)) → All (λ entry. P entry.1) m → AllValues P m
  All-AllValues [] a = tt
  All-AllValues ((k, v) ∷ m) a = (a.0, All-AllValues m a.1)

  pub AllValues-All : (m : List (K × V)) → AllValues P m → All (λ entry. P entry.1) m
  AllValues-All [] a = tt
  AllValues-All ((k, v) ∷ m) a = (a.0, AllValues-All m a.1)

  pub AllValues-mono {ν} :
      (Q : V → Type ν) → ((v : V) → P v → Q v) → (m : List (K × V)) → AllValues P m → AllValues Q m
  AllValues-mono Q f [] a = tt
  AllValues-mono Q f ((k, v) ∷ m) a = (f v a.0, AllValues-mono Q f m a.1)

  -- Under keys without repetition, what holds of every value that is found holds of all.
  pub AllValues-found :
      (m : List (K × V))
      → Nodup (keys m)
      → ((k : K) (v : V) → lookup k m ≡ some v → P v)
      → AllValues P m
  AllValues-found [] d f = tt
  AllValues-found ((j, w) ∷ m) d f = (
    f j w (ground (arith, e.beq_iff j j)),
    AllValues-found m d.1 λ k v h. elim (Bool-cases (j == k)) [
      | inl same ↦
          let gone =
            lookup-eq-none k m
              (subst (λ x. contains_key x m ≡ false) ((e.beq_iff j k).0 same) d.0) in
          absurd (cc (gone, h))
      | inr other ↦ f k v (rw other h)
    ],
  )
