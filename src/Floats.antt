-- ===== src/Floats.antt =====
-- `f64`, as the rate limiter (server-package/crates/frp-game-server/src/app.rs) and the gates
-- (controller.rs) use it: an interface, with the laws of IEEE 754 that the theorems need.
use orange_frp.Prelude.{
  ℕ, ◌+◌, ◌-◌, ◌*◌, ◌/◌, ◌^◌, ◌≤◌, ◌<◌, ◌≡◌, refl, subst, Bool, true, false, arith, ltb, leb→le,
  leb, if◌then◌else◌, nat_eq, list_eq, pair_eq,
}

pub record Float : Type 1 where
  pub F : Type 0
  pub of_ℕ : ℕ → F
  -- `Duration::as_secs_f64`, of nanoseconds.
  pub as_secs : ℕ → F
  -- `Duration::from_secs_f64`, in nanoseconds.
  pub from_secs : F → ℕ
  pub add : F → F → F
  pub sub : F → F → F
  pub mul : F → F → F
  pub div : F → F → F
  pub min : F → F → F
  pub le : F → F → Bool
  pub lt : F → F → Bool

-- Orders of values that are no NaN, exact small integers, and monotonicity of the rounding.
pub record IsFloat (fl : Float) : Type 0 where
  pub le_trans : (a b c : fl.F) → fl.le a b ≡ true → fl.le b c ≡ true → fl.le a c ≡ true
  pub of_mono : (m n : ℕ) → m ≤ n → fl.le (fl.of_ℕ m) (fl.of_ℕ n) ≡ true
  pub add_exact : (m n : ℕ) → m + n ≤ 2 ^ 53 → fl.add (fl.of_ℕ m) (fl.of_ℕ n) ≡ fl.of_ℕ (m + n)
  pub mul_exact : (m n : ℕ) → m * n ≤ 2 ^ 53 → fl.mul (fl.of_ℕ m) (fl.of_ℕ n) ≡ fl.of_ℕ (m * n)
  pub secs_exact : (n : ℕ) → n ≤ 2 ^ 32 → fl.as_secs (n * 10 ^ 9) ≡ fl.of_ℕ n
  pub secs_mono : (m n : ℕ) → m ≤ n → fl.le (fl.as_secs m) (fl.as_secs n) ≡ true
  -- The first argument is finite and not negative.
  pub add_mono :
      (a b c d : fl.F)
      → fl.le (fl.of_ℕ 0) a ≡ true
      → fl.le (fl.of_ℕ 0) c ≡ true
      → fl.le a b ≡ true
      → fl.le c d ≡ true
      → fl.le (fl.add a c) (fl.add b d) ≡ true
  -- For a factor that is a positive integer.
  pub mul_mono :
      (a b : fl.F) (n : ℕ)
      → fl.le (fl.of_ℕ 0) a ≡ true
      → fl.le a b ≡ true
      → 0 < n
      → fl.le (fl.mul a (fl.of_ℕ n)) (fl.mul b (fl.of_ℕ n)) ≡ true
  -- `f64::min` takes the smaller value, and drops a NaN on its left.
  pub min_right : (a : fl.F) (n : ℕ) → fl.le (fl.of_ℕ n) a ≡ true → fl.min a (fl.of_ℕ n) ≡ fl.of_ℕ n
  pub min_le : (a : fl.F) (n : ℕ) → fl.le (fl.min a (fl.of_ℕ n)) (fl.of_ℕ n) ≡ true
  pub le_min :
      (a c : fl.F) (n : ℕ)
      → fl.le c a ≡ true
      → fl.le c (fl.of_ℕ n) ≡ true
      → fl.le c (fl.min a (fl.of_ℕ n)) ≡ true
  -- Differences of numbers that are finite and not negative.
  pub sub_nonneg :
      (a b : fl.F) (n : ℕ)
      → fl.le (fl.of_ℕ 0) b ≡ true
      → fl.le a (fl.of_ℕ n) ≡ true
      → fl.lt a b ≡ false
      → fl.le (fl.of_ℕ 0) (fl.sub a b) ≡ true
  pub sub_le :
      (a b : fl.F) (n : ℕ)
      → fl.le (fl.of_ℕ 0) b ≡ true
      → fl.le a (fl.of_ℕ n) ≡ true
      → fl.le (fl.sub a b) (fl.of_ℕ n) ≡ true
  -- A number that is at least another is not below it.
  pub not_lt : (a b : fl.F) → fl.le b a ≡ true → fl.lt a b ≡ false

module _ (fl : Float) (laws : IsFloat fl) where
  open fl use {F, of_ℕ, as_secs, add, mul, le}

  -- `tokens + elapsed * rate` is at least `start + seconds * rate`.
  pub refill_at_least :
      (tokens : F) (elapsed start seconds rate : ℕ)
      → le (of_ℕ start) tokens ≡ true
      → seconds * 10 ^ 9 ≤ elapsed
      → seconds ≤ 2 ^ 32
      → 0 < rate
      → start + seconds * rate ≤ 2 ^ 53
      → le (of_ℕ (start + seconds * rate)) (add tokens (mul (as_secs elapsed) (of_ℕ rate))) ≡ true
  refill_at_least tokens elapsed start seconds rate t e s r small =
      let whole : le (of_ℕ seconds) (as_secs elapsed) ≡ true =
        subst (λ x. le x (as_secs elapsed) ≡ true) (laws.secs_exact seconds s)
          (laws.secs_mono (seconds * 10 ^ 9) elapsed e) in
      let product =
        subst (λ x. le x (mul (as_secs elapsed) (of_ℕ rate)) ≡ true)
          (laws.mul_exact seconds rate (omega arith))
          (laws.mul_mono (of_ℕ seconds) (as_secs elapsed) rate
            (laws.of_mono 0 seconds (omega arith)) whole r) in
      subst (λ x. le x (add tokens (mul (as_secs elapsed) (of_ℕ rate))) ≡ true)
        (laws.add_exact start (seconds * rate) small)
        (laws.add_mono (of_ℕ start) tokens (of_ℕ (seconds * rate))
          (mul (as_secs elapsed) (of_ℕ rate)) (laws.of_mono 0 start (omega arith))
          (laws.of_mono 0 (seconds * rate) (omega arith)) t product)

-- Whole numbers satisfy the laws; tests run on them.
abbrev pub whole : Float
whole = record {
  F = ℕ;
  of_ℕ = λ n. n;
  as_secs = λ d. d / 10 ^ 9;
  from_secs = λ s. s * 10 ^ 9;
  add = λ a b. a + b;
  sub = λ a b. a - b;
  mul = λ a b. a * b;
  div = λ a b. a / b;
  min = λ a b. if leb a b then a else b;
  le = leb;
  lt = ltb;
}

le→leb : (a b : ℕ) → a ≤ b → leb a b ≡ true
le→leb a b h = ground arith

pub whole-IsFloat : IsFloat whole
whole-IsFloat = record {
  le_trans = λ a b c p q. ground arith;
  of_mono = λ m n h. ground arith;
  add_exact = λ m n h. refl;
  mul_exact = λ m n h. refl;
  secs_exact = λ n h. omega arith;
  secs_mono = λ m n h. le→leb _ _ (omega arith);
  add_mono = λ a b c d p q r s. ground arith;
  mul_mono = λ a b n p q r. le→leb _ _ (grind (arith, leb→le a b q));
  min_right = λ a n h. ground arith;
  min_le = λ a n. ground arith;
  le_min = λ a c n p q. ground arith;
  sub_nonneg = λ a b n p q r. ground arith;
  sub_le = λ a b n p q. ground arith;
  not_lt = λ a b h. ground arith;
}
