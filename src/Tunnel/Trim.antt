-- ===== src/Tunnel/Trim.antt =====
-- `trim`, `trim_matches` and the blank test that follows them.
use orange_frp.Prelude.{
  ℕ, ◌≡◌, refl, ◌⊎◌, inl, inr, Bool, true, false, ◌&&◌, [], ◌∷◌, arith, Bool-cases, nat_eq, list_eq,
  pair_eq, Text, is_empty, is_whitespace, is_ascii_alphanumeric, trim_start_matches,
  trim_end_matches, trim_matches, trim,
}

module _ (p : ℕ → Bool) where
  trim_end_idem : (s : Text) → trim_end_matches p (trim_end_matches p s) ≡ trim_end_matches p s
  unfolding trim_end_matches
  trim_end_idem [] = refl
  trim_end_idem (c ∷ s) = elim (Bool-cases (p c && is_empty (trim_end_matches p s))) [
    | inl blank ↦ rw blank
    | inr kept ↦ rw kept (rw (trim_end_idem s, kept))
  ]

  -- What is left of `trim_start_matches` is empty, or begins with a character that stays.
  start_cases :
      (s : Text)
      → (trim_start_matches p s ≡ [])
        ⊎ ((c : ℕ) × (r : Text) × (trim_start_matches p s ≡ c ∷ r) × (p c ≡ false))
  unfolding trim_start_matches
  start_cases [] = inl refl
  start_cases (c ∷ s) = elim (Bool-cases (p c)) [
    | inl drop_it ↦ rw drop_it (start_cases s)
    | inr keep_it ↦ inr (c, s, rw keep_it, keep_it)
  ]

  pub trim_matches-cons :
      (c : ℕ) (r : Text) → p c ≡ false → trim_matches p (c ∷ r) ≡ c ∷ trim_end_matches p r
  unfolding trim_matches
  trim_matches-cons c r h = rw (h, trim_start_matches) (rw (h, trim_end_matches))

  -- Trimming twice is trimming once.
  pub trim_matches_idem : (s : Text) → trim_matches p (trim_matches p s) ≡ trim_matches p s
  unfolding trim_matches
  trim_matches_idem s = elim (start_cases s) [
    | inl e ↦ rw e
    | inr (c, r, e, h) ↦ rw e (rw h (rw h (rw h (rw (trim_end_idem r)))))
  ]

pub trim_idem : (s : Text) → trim (trim s) ≡ trim s
unfolding trim
trim_idem s = trim_matches_idem is_whitespace s

pub trim-cons : (c : ℕ) (r : Text) → is_whitespace c ≡ false → is_empty (trim (c ∷ r)) ≡ false
unfolding trim
trim-cons c r h = rw (trim_matches-cons is_whitespace c r h)

-- An ASCII letter or digit is no space.
pub alphanumeric_not_space : (c : ℕ) → is_ascii_alphanumeric c ≡ true → is_whitespace c ≡ false
unfolding is_ascii_alphanumeric is_whitespace
alphanumeric_not_space c h = ground arith
