-- ===== src/Config/Sort.antt =====
-- `sort_by` with a comparison: stable, so it has the result of an insertion sort.
use orange_frp.Prelude.{
  ℕ, ◌+◌, ◌≡◌, refl, inl, inr, Bool, true, false, ◌&&◌, ◌||◌, List, [], ◌∷◌, arith, ltb, nat_beq,
  if◌then◌else◌, Bool-cases, nat_eq, list_eq, pair_eq, All, Text,
}

-- `str::cmp`: the order of UTF-8 bytes is that of code points.
unfoldable pub text_leb : Text → Text → Bool
text_leb [] t = true
text_leb (a ∷ s) [] = false
text_leb (a ∷ s) (b ∷ t) = ltb a b || (nat_beq a b && text_leb s t)

module _ {ℓ} {A : Type ℓ} (le : A → A → Bool) where
  -- An element goes before those that are not below it.
  unfoldable pub insert_sorted : A → List A → List A
  insert_sorted x [] = x ∷ []
  insert_sorted x (y ∷ ys) = if le x y then x ∷ y ∷ ys else y ∷ insert_sorted x ys

  unfoldable pub sort : List A → List A
  unfolding insert_sorted
  sort [] = []
  sort (x ∷ xs) = insert_sorted x (sort xs)

  -- Each element is below its successor.
  abbrev pub IsSorted : List A → Type 0
  IsSorted [] = Unit
  IsSorted (x ∷ []) = Unit
  IsSorted (x ∷ y ∷ ys) = (le x y ≡ true) × IsSorted (y ∷ ys)

  module _ (total : (x y : A) → le x y ≡ false → le y x ≡ true) where
    insert_sorted-IsSorted : (x : A) (ys : List A) → IsSorted ys → IsSorted (insert_sorted x ys)
    unfolding insert_sorted
    insert_sorted-IsSorted x [] s = tt
    insert_sorted-IsSorted x (y ∷ []) s = elim (Bool-cases (le x y)) [
      | inl below ↦ rw below (below, tt)
      | inr above ↦ rw above (total x y above, tt)
    ]
    insert_sorted-IsSorted x (y ∷ z ∷ zs) s = elim (Bool-cases (le x y)) [
      | inl below ↦ rw below (below, s)
      | inr above ↦ rw above (elim (Bool-cases (le x z)) [
        | inl e ↦ rw e (total x y above, (e, s.1))
        | inr e ↦ rw e (s.0, rw e at (insert_sorted-IsSorted x (z ∷ zs) s.1))
      ])
    ]

    pub sort-IsSorted : (xs : List A) → IsSorted (sort xs)
    unfolding sort
    sort-IsSorted [] = tt
    sort-IsSorted (x ∷ xs) = insert_sorted-IsSorted x (sort xs) (sort-IsSorted xs)

pub text_leb_total : (s t : Text) → text_leb s t ≡ false → text_leb t s ≡ true
unfolding text_leb
text_leb_total [] t h = absurd (ground arith)
text_leb_total (a ∷ s) [] h = refl
text_leb_total (a ∷ s) (b ∷ t) h = ground (arith, text_leb_total s t)

-- The sum of `f` over a list, and over the sorted list.
module _ {ℓ} {A : Type ℓ} (f : A → ℕ) where
  abbrev pub total : List A → ℕ
  total [] = 0
  total (x ∷ xs) = f x + total xs

module _ {ℓ} {A : Type ℓ} (le : A → A → Bool) (f : A → ℕ) where
  total-insert_sorted : (x : A) (ys : List A) → total f (insert_sorted le x ys) ≡ f x + total f ys
  unfolding insert_sorted
  total-insert_sorted x [] = refl
  total-insert_sorted x (y ∷ ys) = ground (arith, total-insert_sorted x ys)

  pub total-sort : (xs : List A) → total f (sort le xs) ≡ total f xs
  unfolding sort
  total-sort [] = refl
  total-sort (x ∷ xs) = omega (arith, total-insert_sorted x (sort le xs), total-sort xs)

-- What holds of every element holds after sorting.
module _ {ℓ κ} {A : Type ℓ} (le : A → A → Bool) (P : A → Type κ) where
  All-insert_sorted : (x : A) (ys : List A) → P x → All P ys → All P (insert_sorted le x ys)
  unfolding insert_sorted
  All-insert_sorted x [] p a = (p, tt)
  All-insert_sorted x (y ∷ ys) p a = elim (Bool-cases (le x y)) [
    | inl below ↦ rw below (p, a)
    | inr above ↦ rw above (a.0, All-insert_sorted x ys p a.1)
  ]

  pub All-sort : (xs : List A) → All P xs → All P (sort le xs)
  unfolding sort
  All-sort [] a = tt
  All-sort (x ∷ xs) a = All-insert_sorted x (sort le xs) a.0 (All-sort xs a.1)
