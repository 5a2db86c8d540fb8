-- ===== src/Api/Equal.antt =====
-- `secure_equal` compares texts.
use orange_frp.Prelude.{
  ◌≡◌, refl, sym, ap, ◌∙◌, subst, ◌↔◌, Bool, true, some, arith, nat_beq_iff, nat_eq, list_eq,
  pair_eq, All, Text, byte_len,
}
use orange_frp.Utf8.{as_bytes, from_utf8, IsScalar, from_utf8-as_bytes}
use orange_frp.Crypto.{Bytes}
use orange_frp.Api.{secure_equal}

-- `ct_eq` of two slices is their equality; it is false where the lengths differ.
abbrev pub IsCtEq : (Bytes → Bytes → Bool) → Type 0
IsCtEq ct_eq = (a b : Bytes) → (ct_eq a b ≡ true) ↔ (a ≡ b)

as_bytes-injective :
    (s t : Text) → All IsScalar s → All IsScalar t → as_bytes s ≡ as_bytes t → s ≡ t
as_bytes-injective s t p q h =
    let same : some s ≡ some t =
      sym (from_utf8-as_bytes s p) ∙ ap from_utf8 h ∙ from_utf8-as_bytes t q in
    cc

-- Two texts of Unicode scalar values pass the comparison just when they are equal.
pub secure_equal_iff :
    (ct_eq : Bytes → Bytes → Bool) (s t : Text)
    → IsCtEq ct_eq
    → All IsScalar s
    → All IsScalar t
    → (secure_equal ct_eq s t ≡ true) ↔ (s ≡ t)
unfolding secure_equal
secure_equal_iff ct_eq s t exact p q = (
  λ h. as_bytes-injective s t p q ((exact (as_bytes s) (as_bytes t)).0 (ground arith)),
  λ e. subst (λ x. secure_equal ct_eq s x ≡ true) e (itself s),
)
  where
    itself : (x : Text) → secure_equal ct_eq x x ≡ true
    itself x =
        rw ((nat_beq_iff (byte_len x) (byte_len x)).1 refl)
          ((exact (as_bytes x) (as_bytes x)).1 refl)
