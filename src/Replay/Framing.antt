-- ===== src/Replay/Framing.antt =====
-- The input of the digest determines the request: two requests share a key only if SHA-256 collides.
use orange_frp.Prelude.{
  ℕ, ◌^◌, ◌<◌, ◌≡◌, refl, sym, ap, ◌∙◌, Option, some, List, [], ◌++◌, append-nil, append_assoc,
  arith, nat_eq, list_eq, pair_eq, length, take, drop, take-append, drop-append, All, Text,
}
use orange_frp.Utf8.{IsScalar, as_bytes, from_utf8, from_utf8-as_bytes}
use orange_frp.Replay.{to_le_bytes, frame, digest_input}

-- A Rust string: scalar values, and a length that fits a `u64`.
pub record IsText (s : Text) : Type 0 where
  pub scalars : All IsScalar s
  pub sized : length (as_bytes s) < 2 ^ 64

as_bytes_injective :
    (s t : Text) → All IsScalar s → All IsScalar t → as_bytes s ≡ as_bytes t → s ≡ t
as_bytes_injective s t a b e =
    let p : ◌≡◌ {A = Option Text} (some s) (some t) =
      sym (from_utf8-as_bytes s a) ∙ ap from_utf8 e ∙ from_utf8-as_bytes t b in
    cc p

to_le_bytes_injective : (m n : ℕ) → m < 2 ^ 64 → n < 2 ^ 64 → to_le_bytes m ≡ to_le_bytes n → m ≡ n
unfolding to_le_bytes
to_le_bytes_injective m n hm hn e = ground arith

append_same_length {ℓ} :
    {A : Type ℓ} (xs ys : List A) (us vs : List A)
    → length xs ≡ length ys
    → xs ++ us ≡ ys ++ vs
    → (xs ≡ ys) × (us ≡ vs)
append_same_length xs ys us vs l e = (
  sym (take-append (length xs) xs us refl)
      ∙ ap (take (length xs)) e
      ∙ rw l (take-append (length ys) ys vs refl),
  sym (drop-append (length xs) xs us refl)
      ∙ ap (drop (length xs)) e
      ∙ rw l (drop-append (length ys) ys vs refl),
)

-- A field is read back from the front of what follows.
frame-append :
    (s t : Text) (us vs : List ℕ)
    → IsText s
    → IsText t
    → frame s ++ us ≡ frame t ++ vs
    → (s ≡ t) × (us ≡ vs)
frame-append s t us vs a b e =
    let m = length (as_bytes s) in
    let n = length (as_bytes t) in
    let e' : to_le_bytes m ++ (as_bytes s ++ us) ≡ to_le_bytes n ++ (as_bytes t ++ vs) =
      unfold frame in
      sym (append_assoc (to_le_bytes m) (as_bytes s) us)
      ∙ e
      ∙ append_assoc (to_le_bytes n) (as_bytes t) vs in
    let (sizes, rest) =
      append_same_length (to_le_bytes m) (to_le_bytes n) (as_bytes s ++ us) (as_bytes t ++ vs)
        (unfold to_le_bytes in refl) e' in
    let (bytes, behind) =
      append_same_length (as_bytes s) (as_bytes t) us vs
        (to_le_bytes_injective m n a.sized b.sized sizes) rest in
    (as_bytes_injective s t a.scalars b.scalars bytes, behind)

-- Requests that differ in the user, the operation or the nonce differ in what is hashed.
pub digest_input_injective :
    (u v o p n m : Text)
    → IsText u
    → IsText v
    → IsText o
    → IsText p
    → IsText n
    → IsText m
    → digest_input u o n ≡ digest_input v p m
    → (u ≡ v) × (o ≡ p) × (n ≡ m)
unfolding digest_input
digest_input_injective u v o p n m a b c d f g e =
    let (first, e1) = frame-append u v (frame o ++ frame n) (frame p ++ frame m) a b e in
    let (second, e2) = frame-append o p (frame n) (frame m) c d e1 in
    let (third, _) =
      frame-append n m [] [] f g (append-nil (frame n) ∙ e2 ∙ sym (append-nil (frame m))) in
    (first, second, third)
