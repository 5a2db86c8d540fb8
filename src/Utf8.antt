-- ===== src/Utf8.antt =====
-- `str::as_bytes` and `String::from_utf8`, which server-package/crates/frp-game-common/src/crypto.rs
-- applies to secrets and stored texts.
use orange_frp.Prelude.{
  ℕ, zero, suc, ◌+◌, ◌-◌, ◌*◌, ◌/◌, ◌%◌, ◌≤◌, ◌<◌, ◌≡◌, refl, ◌⊎◌, inl, inr, Bool, ◌&&◌, ◌||◌,
  Option, none, some, List, [], ◌∷◌, ◌++◌, arith, ltb, ltb→lt, leb, if◌then◌else◌, Bool-cases,
  length, length-append, All-append, All, Text,
}
use mathlib.Core.Option

-- A Unicode scalar value, the range of a `char`.
pub record IsScalar (c : ℕ) : Type 0 where
  pub bounded : c < 0x11_0000
  pub no_surrogate : (c < 0xd800) ⊎ (0xdfff < c)

unfoldable pub encode_char : ℕ → List ℕ
encode_char c =
    if ltb c 0x80
    then c ∷ []
    else if ltb c 0x800
    then (0xc0 + c / 0x40) ∷ (0x80 + c % 0x40) ∷ []
    else if ltb c 0x1_0000
    then (0xe0 + c / 0x1000) ∷ (0x80 + c / 0x40 % 0x40) ∷ (0x80 + c % 0x40) ∷ []
    else (0xf0 + c / 0x4_0000)
      ∷ (0x80 + c / 0x1000 % 0x40)
      ∷ (0x80 + c / 0x40 % 0x40)
      ∷ (0x80 + c % 0x40)
      ∷ []

unfoldable pub as_bytes : Text → List ℕ
unfolding encode_char
as_bytes [] = []
as_bytes (c ∷ s) = encode_char c ++ as_bytes s

is_tail : ℕ → Bool
is_tail b = leb 0x80 b && ltb b 0xc0

pair_code : ℕ → ℕ → ℕ
pair_code a b = (a - 0xc0) * 0x40 + (b - 0x80)

triple_code : ℕ → ℕ → ℕ → ℕ
triple_code a b c = (a - 0xe0) * 0x1000 + (b - 0x80) * 0x40 + (c - 0x80)

quad_code : ℕ → ℕ → ℕ → ℕ → ℕ
quad_code a b c d = (a - 0xf0) * 0x4_0000 + (b - 0x80) * 0x1000 + (c - 0x80) * 0x40 + (d - 0x80)

-- Two, three and four bytes, the first one given; overlong forms and surrogates are refused.
decode_two : ℕ → List ℕ → Option (ℕ × List ℕ)
unfolding is_tail pair_code
decode_two a (b ∷ r) = if is_tail b then some (pair_code a b, r) else none
decode_two a _ = none

decode_three : ℕ → List ℕ → Option (ℕ × List ℕ)
unfolding is_tail triple_code
decode_three a (b ∷ c ∷ r) =
    let code = triple_code a b c in
    if is_tail b && is_tail c && leb 0x800 code && (ltb code 0xd800 || ltb 0xdfff code)
    then some (code, r)
    else none
decode_three a _ = none

decode_four : ℕ → List ℕ → Option (ℕ × List ℕ)
unfolding is_tail quad_code
decode_four a (b ∷ c ∷ d ∷ r) =
    let code = quad_code a b c d in
    if is_tail b && is_tail c && is_tail d && leb 0x1_0000 code && ltb code 0x11_0000
    then some (code, r)
    else none
decode_four a _ = none

-- The first character and the bytes behind it.
unfoldable pub decode_char : List ℕ → Option (ℕ × List ℕ)
unfolding decode_two decode_three decode_four
decode_char [] = none
decode_char (a ∷ r) =
    if ltb a 0x80
    then some (a, r)
    else if ltb a 0xc2
    then none
    else if ltb a 0xe0
    then decode_two a r
    else if ltb a 0xf0
    then decode_three a r
    else if ltb a 0xf8
    then decode_four a r
    else none

-- On fuel: each character takes a byte at least, so as many rounds as bytes are enough.
unfoldable pub decode_from : ℕ → List ℕ → Option Text
decode_from zero [] = some []
decode_from zero (b ∷ bs) = none
decode_from (suc f) [] = some []
decode_from (suc f) (b ∷ bs) = elim (decode_char (b ∷ bs)) [
  | none ↦ none
  | some (c, rest) ↦ Option.map (λ s. c ∷ s) (decode_from f rest)
]

unfoldable pub from_utf8 : List ℕ → Option Text
unfolding decode_from
from_utf8 bytes = decode_from (length bytes) bytes

-- A character is read back from its bytes, whatever follows.
pub decode_char-encode_char :
    (c : ℕ) (r : List ℕ) → IsScalar c → decode_char (encode_char c ++ r) ≡ some (c, r)
unfolding decode_char encode_char
decode_char-encode_char c r v = ground arith

length-encode_char : (c : ℕ) → 0 < length (encode_char c)
unfolding encode_char
length-encode_char c = ground arith

encode_char-All-byte : (c : ℕ) → IsScalar c → All (λ b. b < 256) (encode_char c)
unfolding encode_char
encode_char-All-byte c v = elim (Bool-cases (ltb c 0x80)) [
  | inl one ↦ rw one (omega (arith, ltb→lt c 0x80))
  | inr more ↦ rw more (elim (Bool-cases (ltb c 0x800)) [
    | inl two ↦ rw two (omega (arith, ltb→lt c 0x800))
    | inr more' ↦ rw more' (elim (Bool-cases (ltb c 0x1_0000)) [
      | inl three ↦ rw three (omega (arith, ltb→lt c 0x1_0000))
      | inr four ↦ rw four (omega arith)
    ])
  ])
]

-- Each byte of an encoding is one.
pub as_bytes-All-byte : (s : Text) → All IsScalar s → All (λ b. b < 256) (as_bytes s)
unfolding as_bytes
as_bytes-All-byte [] v = tt
as_bytes-All-byte (c ∷ s) v =
    All-append (λ b. b < 256) (encode_char c) (as_bytes s) (encode_char-All-byte c v.0)
      (as_bytes-All-byte s v.1)

-- One round of the loop.
decode_from-step :
    (f : ℕ) (xs : List ℕ) (c : ℕ) (r : List ℕ)
    → decode_char xs ≡ some (c, r)
    → decode_from (suc f) xs ≡ Option.map (λ s. c ∷ s) (decode_from f r)
unfolding decode_from
decode_from-step f [] c r d = unfold decode_char in cc d
decode_from-step f (b ∷ bs) c r d = rw (d, decode_from)

decode_from-as_bytes :
    (f : ℕ) (s : Text)
    → All IsScalar s
    → length (as_bytes s) ≤ f
    → decode_from f (as_bytes s) ≡ some s
unfolding as_bytes
decode_from-as_bytes zero [] v h = unfold decode_from in refl
decode_from-as_bytes (suc f) [] v h = unfold decode_from in refl
decode_from-as_bytes zero (c ∷ s) v h =
    absurd (omega (arith, length-encode_char c, length-append (encode_char c) (as_bytes s)))
decode_from-as_bytes (suc f) (c ∷ s) v h =
    rw (decode_from-step f _ c (as_bytes s) (decode_char-encode_char c (as_bytes s) v.0)) (
      rw (
        decode_from-as_bytes f s v.1
          (omega (arith, length-encode_char c, length-append (encode_char c) (as_bytes s)))))

-- A text of scalar values is read back from its bytes.
pub from_utf8-as_bytes : (s : Text) → All IsScalar s → from_utf8 (as_bytes s) ≡ some s
unfolding from_utf8
from_utf8-as_bytes s v = decode_from-as_bytes (length (as_bytes s)) s v (omega arith)
