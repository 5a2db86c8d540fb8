-- ===== src/Crypto/Laws.antt =====
-- What crypto.rs relies on of the crates that it calls, and the window of its time stamps.
use orange_frp.Prelude.{
  ℕ, ◌+◌, ◌-◌, ◌^◌, ◌≤◌, ◌<◌, ◌≡◌, ◌⊎◌, false, some, arith, ltb, nat_eq, list_eq, pair_eq, length,
  All,
}
use orange_frp.Crypto.{Bytes, Primitives, is_expired, auth_tag_length, max_clock_skew_seconds}

abbrev pub IsBytes : Bytes → Type 0
IsBytes = All (λ b. b < 256)

-- The documented behaviour of Base64 and of authenticated encryption.
pub record IsSound (prims : Primitives) : Type 0 where
  pub decode_encode :
      (bs : Bytes) → IsBytes bs → prims.b64decode_engine (prims.b64encode bs) ≡ some bs
  pub unseal_seal :
      (key nonce text sealed : Bytes)
      → prims.seal key nonce text ≡ some sealed
      → prims.unseal key nonce sealed ≡ some text
  pub sealed_bytes :
      (key nonce text sealed : Bytes) → prims.seal key nonce text ≡ some sealed → IsBytes sealed
  pub sealed_length :
      (key nonce text sealed : Bytes)
      → prims.seal key nonce text ≡ some sealed
      → length sealed ≡ length text + auth_tag_length

-- The distance of two moments.
abbrev pub distance : ℕ → ℕ → ℕ
distance a b = (a - b) + (b - a)

-- Of two moments after 1970 the test compares the distance, and no wrap-around shows.
pub is_expired-distance :
    (now stamp : ℕ)
    → now < 2 ^ 63
    → stamp < 2 ^ 63
    → is_expired now stamp ≡ ltb max_clock_skew_seconds (distance now stamp)
unfolding is_expired
is_expired-distance now stamp h k = ground arith

-- From 300 seconds after 1970 to half the range of the clock, a time stamp passes only within 300
-- seconds of the clock, or 2^63 seconds before it.
pub is_expired-false :
    (now stamp : ℕ)
    → max_clock_skew_seconds ≤ now
    → now < 2 ^ 62
    → stamp < 2 ^ 64
    → is_expired now stamp ≡ false
    → (distance now stamp ≤ max_clock_skew_seconds) ⊎ (stamp ≡ now + 2 ^ 63)
unfolding is_expired
is_expired-false now stamp late early wide h = ground arith

-- The one time stamp, 2^63 seconds before the clock, that the test takes for a recent one: the
-- difference overflows to the smallest `i64`, and so does its absolute value.
pub is_expired_overflow : (now : ℕ) → now < 2 ^ 63 → is_expired now (now + 2 ^ 63) ≡ false
unfolding is_expired
is_expired_overflow now h = ground arith
