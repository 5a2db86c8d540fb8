-- ===== src/Admin/Passwords.antt =====
-- Passwords under the commands of server-package/crates/frp-game-server/src/app.rs.
use orange_frp.Prelude.{
  ◌≡◌, refl, subst, inl, inr, false, some, ◌∷◌, ◌++◌, Bool-cases, nat_eq, list_eq, pair_eq, length,
  All, ok, ok_or, >>=-eq-ok, ok_or-eq-ok, map_err-eq-ok, Text, is_empty, trim,
}
use orange_frp.Utf8.{IsScalar, as_bytes}
use orange_frp.Crypto.{
  Primitives, Bytes, stored_text_version, nonce_length, encrypt_stored_text, b64decode, derive_key,
  invalid_payload, storage_hkdf_info,
}
use orange_frp.Crypto.Laws.{IsSound, IsBytes}
use orange_frp.Crypto.RoundTrip.{decrypt_stored_text-encrypt_stored_text}
use orange_frp.Config.{
  Argon2, hash_password, encrypt_user_password, decrypt_user_password, crypto_error, hash_failed,
}

-- Base64 of the bytes that are stored for a password is no white space.
abbrev pub IsVisible : Primitives → Type 0
IsVisible prims =
    (bs : Bytes) → is_empty (trim (prims.b64encode (stored_text_version ∷ bs))) ≡ false

module _ (prims : Primitives) (sound : IsSound prims) (visible : IsVisible prims) where
  stored-visible :
      (nonce : Bytes) (secret salt text stored : Text)
      → encrypt_stored_text prims nonce secret salt text ≡ ok stored
      → is_empty (trim stored) ≡ false
  unfolding encrypt_stored_text
  stored-visible nonce secret salt text stored h =
      let (bytes, s, h1) = >>=-eq-ok (b64decode prims salt) _ h in
      let (key, k, h2) = >>=-eq-ok (derive_key prims secret bytes storage_hkdf_info) _ h1 in
      let (sealed, c, h3) =
        >>=-eq-ok (ok_or (prims.seal key nonce (as_bytes text)) invalid_payload) _ h2 in
      let e : prims.b64encode ((stored_text_version ∷ nonce) ++ sealed) ≡ stored = cc h3 in
      subst (λ x. is_empty (trim x) ≡ false) e (visible (nonce ++ sealed))

  -- A password that is stored for a user is shown again under the same secret.
  pub decrypt_user_password-encrypt_user_password :
      (nonce : Bytes) (salt secret password stored : Text)
      → IsBytes nonce
      → length nonce ≡ nonce_length
      → All IsScalar password
      → encrypt_user_password prims nonce salt secret password ≡ ok stored
      → decrypt_user_password prims salt secret stored ≡ ok (some password)
  unfolding encrypt_user_password decrypt_user_password
  decrypt_user_password-encrypt_user_password nonce salt secret password stored nb nl scalars h =
      elim (Bool-cases (is_empty password)) [
        | inl blank ↦ absurd (cc (rw blank at h))
        | inr set ↦
            let sealed =
              map_err-eq-ok crypto_error (encrypt_stored_text prims nonce secret salt password)
                (rw set at h) in
            rw
              (
                stored-visible nonce secret salt password stored sealed,
                decrypt_stored_text-encrypt_stored_text prims sound nonce secret salt password
                    stored nb nl scalars sealed,
              )
              refl
      ]

pub hash_password-eq-ok :
    (argon : Argon2) (salt : Bytes) (password hash : Text)
    → hash_password argon salt password ≡ ok hash
    → argon.hash salt password ≡ some hash
unfolding hash_password
hash_password-eq-ok argon salt password hash h = elim (Bool-cases (is_empty password)) [
  | inl blank ↦ absurd (cc (rw blank at h))
  | inr set ↦ ok_or-eq-ok (argon.hash salt password) hash_failed (rw set at h)
]
