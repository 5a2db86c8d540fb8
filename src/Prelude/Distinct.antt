-- ===== src/Prelude/Distinct.antt =====
-- A loop that inserts every element into a `HashSet` and stops at the first repetition accepts
-- exactly the lists without repetition.
use mathlib.Core.Path.{◌≡◌, refl}
use mathlib.Core.Logic.{◌↔◌}
use mathlib.Core.Bool.{true, false}
use mathlib.Core.List.{List, [], ◌∷◌}
use native.Mathlib.Omega.{arith}
use orange_frp.Prelude.Tests.{Eq}
use orange_frp.Prelude.Lists.{All}
use orange_frp.Prelude.Collections.{contains, Nodup}

module _ {ℓ} {A : Type ℓ} ⦃e : Eq A⦄ where
  -- Each element is new to the set of those before it and of `seen`.
  abbrev pub Fresh : List A → List A → Type 0
  Fresh seen [] = Unit
  Fresh seen (x ∷ xs) = (contains seen x ≡ false) × Fresh (x ∷ seen) xs

  pub contains-Fresh :
      (seen xs : List A) (a : A) → Fresh seen xs → contains seen a ≡ true → contains xs a ≡ false
  contains-Fresh seen [] a f h = refl
  contains-Fresh seen (x ∷ xs) a f h =
      ground (arith, contains-Fresh (x ∷ seen) xs a f.1, e.beq_iff x a)

  pub Fresh-Nodup : (seen xs : List A) → Fresh seen xs → Nodup xs
  Fresh-Nodup seen [] f = tt
  Fresh-Nodup seen (x ∷ xs) f = (
    contains-Fresh (x ∷ seen) xs x f.1 (ground (arith, e.beq_iff x x)),
    Fresh-Nodup (x ∷ seen) xs f.1,
  )

  All-absent_cons :
      (x : A) (seen xs : List A)
      → contains xs x ≡ false
      → All (λ y. contains seen y ≡ false) xs
      → All (λ y. contains (x ∷ seen) y ≡ false) xs
  All-absent_cons x seen [] h a = tt
  All-absent_cons x seen (y ∷ ys) h a =
      (ground (arith, e.beq_iff x y, e.beq_iff y x), All-absent_cons x seen ys (ground arith) a.1)

  pub Nodup-Fresh :
      (seen xs : List A) → All (λ y. contains seen y ≡ false) xs → Nodup xs → Fresh seen xs
  Nodup-Fresh seen [] a d = tt
  Nodup-Fresh seen (x ∷ xs) a d =
      (a.0, Nodup-Fresh (x ∷ seen) xs (All-absent_cons x seen xs d.0 a.1) d.1)

  All-absent_nil : (xs : List A) → All (λ y. contains [] y ≡ false) xs
  All-absent_nil [] = tt
  All-absent_nil (x ∷ xs) = (refl, All-absent_nil xs)

  pub Fresh-nil_iff : (xs : List A) → Fresh [] xs ↔ Nodup xs
  Fresh-nil_iff xs = (Fresh-Nodup [] xs, Nodup-Fresh [] xs (All-absent_nil xs))
