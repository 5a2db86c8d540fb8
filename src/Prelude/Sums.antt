-- ===== src/Prelude/Sums.antt =====
-- Sums over the values of a map, and `entry(k).or_insert(d)` followed by a change of the value.
use Prim.Native.Nat.{ℕ, ◌+◌}
use mathlib.Core.Path.{◌≡◌}
use mathlib.Core.List.{List, [], ◌∷◌}
use mathlib.Core.Logic.{inl, inr}
use mathlib.Core.Option.{Option, none, some}
use native.Mathlib.Omega.{arith}
use orange_frp.Prelude.Tests.{Eq, ◌==◌, Bool-cases}
use orange_frp.Prelude.Collections.{lookup, insert}

module _ {ℓ} {V : Type ℓ} where
  abbrev pub or_default : V → Option V → V
  or_default d none = d
  or_default d (some v) = v

  -- The value's part in a sum; a missing value counts nothing.
  abbrev pub part : (V → ℕ) → Option V → ℕ
  part g none = 0
  part g (some v) = g v

module _ {ℓ κ} {K : Type ℓ} {V : Type κ} where
  abbrev pub value_sum : (V → ℕ) → List (K × V) → ℕ
  value_sum g [] = 0
  value_sum g ((k, v) ∷ m) = g v + value_sum g m

module _ {ℓ κ} {K : Type ℓ} {V : Type κ} ⦃e : Eq K⦄ where
  abbrev pub upsert : K → V → (V → V) → List (K × V) → List (K × V)
  upsert k d f m = insert k (f (or_default d (lookup k m))) m

  pub value_sum-insert :
      (g : V → ℕ) (k : K) (v : V) (m : List (K × V))
      → value_sum g (insert k v m) + part g (lookup k m) ≡ value_sum g m + g v
  value_sum-insert g k v [] = omega arith
  value_sum-insert g k v ((j, w) ∷ m) = elim (Bool-cases (j == k)) [
    | inl same ↦ rw same (omega arith)
    | inr other ↦ rw other (omega (arith, value_sum-insert g k v m))
  ]
