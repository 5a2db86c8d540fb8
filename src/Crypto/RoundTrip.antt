-- ===== src/Crypto/RoundTrip.antt =====
-- What is sealed is opened again by the same secret, inside the window of the clock.
use orange_frp.Prelude.{
  ℕ, ◌+◌, ◌^◌, ◌≤◌, ◌⊎◌, ◌<◌, ◌≡◌, ◌∙◌, subst, true, false, not, none, some, ◌∷◌, ◌++◌, arith, ltb,
  ltb-false-le, not-false, nat_beq, if◌then◌else◌, nat_beq_iff, nat_eq, list_eq, pair_eq, length,
  length-append, take-append, drop-append, All-append, All, ok, err, ok_or, >>=-eq-ok,
  fail_if-eq-ok, ok_or-eq-ok, Text,
}
use orange_frp.Utf8.{IsScalar, as_bytes, from_utf8-as_bytes}
use orange_frp.Json.{
  Value, obj, num, pos_int, get, as_i64, get_field, get_field-or_insert, and_then,
}
use orange_frp.Crypto.{
  unsupported_version, invalid_nonce, invalid_ciphertext, missing_timestamp, Bytes, Primitives,
  Envelope, invalid_payload, expired_timestamp, b64decode, derive_key, nonce_length,
  auth_tag_length, ts_key, max_clock_skew_seconds, stamped, is_expired, object_of, encrypt_payload,
  decrypt_payload, open_payload, accept_data, encrypt_stored_text, decrypt_stored_text, open_stored,
  stored_text_version, storage_hkdf_info, api_hkdf_info,
}
use orange_frp.Crypto.Laws.{IsSound, IsBytes, distance, is_expired-distance, is_expired-false}

-- `to_vec` prints the object, and `from_slice` reads it back.
abbrev pub PrintsExactly : Primitives → Value → Type 0
PrintsExactly prims v = (text : Bytes) → prims.to_vec v ≡ some text → prims.from_slice text ≡ some v

-- `from_slice` yields integers of 64 bits.
abbrev pub StampsFit : Primitives → Type 0
StampsFit prims =
    (text : Bytes) (v : Value) (t : ℕ)
    → prims.from_slice text ≡ some v
    → and_then (get v ts_key) as_i64 ≡ some t
    → t < 2 ^ 64

get-stamped :
    (now : ℕ) (payload : Value)
    → get_field ts_key (object_of payload) ≡ none
    → get (obj (stamped now payload)) ts_key ≡ some (num (pos_int now))
unfolding get stamped
get-stamped now payload h = get_field-or_insert ts_key (num (pos_int now)) (object_of payload) h

module _ (prims : Primitives) where
  b64decode-encode :
      IsSound prims → (bs : Bytes) → IsBytes bs → b64decode prims (prims.b64encode bs) ≡ ok bs
  unfolding b64decode
  b64decode-encode sound bs h = rw (sound.decode_encode bs h)

  accept-stamped :
      (sent now : ℕ) (payload : Value)
      → sent < 2 ^ 63
      → now < 2 ^ 63
      → get_field ts_key (object_of payload) ≡ none
      → accept_data prims now (obj (stamped sent payload)) ≡ (
          if ltb max_clock_skew_seconds (distance now sent)
          then err expired_timestamp
          else ok (obj (stamped sent payload)))
  unfolding accept_data as_i64
  accept-stamped sent now payload hs hn h =
      rw (get-stamped sent payload h) (ground (arith, is_expired-distance now sent hn hs))

  open-sealed :
      IsSound prims
      → (now : ℕ) (secret : Text) (salt nonce key text sealed : Bytes) (content : Value)
      → length nonce ≡ nonce_length
      → derive_key prims secret salt api_hkdf_info ≡ ok key
      → prims.seal key nonce text ≡ some sealed
      → prims.from_slice text ≡ some content
      → open_payload prims now secret salt nonce sealed ≡ accept_data prims now content
  unfolding open_payload
  open-sealed sound now secret salt nonce key text sealed content n k s p =
      let long : ltb (length sealed) auth_tag_length ≡ false =
        ground (arith, sound.sealed_length key nonce text sealed s) in
      rw n (rw long (rw k (rw (sound.unseal_seal key nonce text sealed s) (rw p))))

  -- A payload without a time stamp of its own, sealed at `sent` and opened at `now` with the same
  -- secret and salt, comes back with the time stamp exactly if the two clocks are at most 300
  -- seconds apart; otherwise the answer is that it expired.
  pub decrypt_payload-encrypt_payload :
      IsSound prims
      → (sent now : ℕ) (nonce : Bytes) (secret salt_b64 : Text) (payload : Value) (e : Envelope)
      → sent < 2 ^ 63
      → now < 2 ^ 63
      → IsBytes nonce
      → length nonce ≡ nonce_length
      → get_field ts_key (object_of payload) ≡ none
      → PrintsExactly prims (obj (stamped sent payload))
      → encrypt_payload prims sent nonce secret salt_b64 payload ≡ ok e
      → decrypt_payload prims now secret salt_b64 e ≡ (
          if ltb max_clock_skew_seconds (distance now sent)
          then err expired_timestamp
          else ok (obj (stamped sent payload)))
  unfolding encrypt_payload decrypt_payload
  decrypt_payload-encrypt_payload sound sent now nonce secret salt_b64 payload e hs hn nb nl no_ts
        exact h =
      let (salt, s, h1) = >>=-eq-ok (b64decode prims salt_b64) _ h in
      let (text, p, h2) =
        >>=-eq-ok (ok_or (prims.to_vec (obj (stamped sent payload))) invalid_payload) _ h1 in
      let (key, k, h3) = >>=-eq-ok (derive_key prims secret salt api_hkdf_info) _ h2 in
      let (sealed, c, h4) = >>=-eq-ok (ok_or (prims.seal key nonce text) invalid_payload) _ h3 in
      let printed = ok_or-eq-ok _ _ p in
      let closed = ok_or-eq-ok _ _ c in
      let shape : e ≡ record {
        version = 1;
        nonce = prims.b64encode nonce;
        payload = prims.b64encode sealed;
      } =
        cc h4 in
      rw shape (
        rw s (
          rw (b64decode-encode sound nonce nb) (
            rw (b64decode-encode sound sealed (sound.sealed_bytes key nonce text sealed closed)) (
              open-sealed sound now secret salt nonce key text sealed _ nl k closed
                (exact text printed)
              ∙ accept-stamped sent now payload hs hn no_ts))))

  -- A stored text is opened by the secret that closed it.
  pub decrypt_stored_text-encrypt_stored_text :
      IsSound prims
      → (nonce : Bytes) (secret salt_b64 plaintext stored : Text) → IsBytes nonce
      → length nonce ≡ nonce_length
      → All IsScalar plaintext
      → encrypt_stored_text prims nonce secret salt_b64 plaintext ≡ ok stored
      → decrypt_stored_text prims secret salt_b64 stored ≡ ok plaintext
  unfolding encrypt_stored_text decrypt_stored_text open_stored
  decrypt_stored_text-encrypt_stored_text sound nonce secret salt_b64 plaintext stored nb nl scalars
        h =
      let (salt, s, h1) = >>=-eq-ok (b64decode prims salt_b64) _ h in
      let (key, k, h2) = >>=-eq-ok (derive_key prims secret salt storage_hkdf_info) _ h1 in
      let (sealed, c, h3) =
        >>=-eq-ok (ok_or (prims.seal key nonce (as_bytes plaintext)) invalid_payload) _ h2 in
      let closed = ok_or-eq-ok _ _ c in
      let shape : stored ≡ prims.b64encode ((stored_text_version ∷ nonce) ++ sealed) = cc h3 in
      let bytes : IsBytes ((stored_text_version ∷ nonce) ++ sealed) = (
        omega arith,
        All-append _ nonce sealed nb (sound.sealed_bytes key nonce _ sealed closed),
      ) in
      let long : ltb (length ((stored_text_version ∷ nonce) ++ sealed)) 29 ≡ false = ground (
        arith,
        length-append nonce sealed,
        sound.sealed_length key nonce (as_bytes plaintext) sealed closed,
      ) in
      rw shape (
        rw (b64decode-encode sound _ bytes) (
          rw long (
            rw (take-append 12 nonce sealed nl) (
              rw (drop-append 12 nonce sealed nl) (
                rw s (
                  rw k (
                    rw (sound.unseal_seal key nonce _ sealed closed)
                      (rw (from_utf8-as_bytes plaintext scalars)))))))))

  accept_data-fresh :
      (now : ℕ) (content v : Value)
      → accept_data prims now content ≡ ok v
      → (content ≡ v)
        × (t : ℕ) × (and_then (get v ts_key) as_i64 ≡ some t)
        × (is_expired now t ≡ false)
  unfolding accept_data
  accept_data-fresh now content v h =
      let (t, found, h1) =
        >>=-eq-ok (ok_or (and_then (get content ts_key) as_i64) missing_timestamp) _ h in
      let (recent, h2) = fail_if-eq-ok (is_expired now t) expired_timestamp _ h1 in
      let same : content ≡ v = cc h2 in
      (
        same,
        t,
        subst (λ x. and_then (get x ts_key) as_i64 ≡ some t) same (ok_or-eq-ok _ _ found),
        recent,
      )

  -- The evidence behind an accepted request.
  pub record Opened (now : ℕ) (secret salt_b64 : Text) (e : Envelope) (v : Value) : Type 0 where
    pub salt : Bytes
    pub nonce : Bytes
    pub sealed : Bytes
    pub key : Bytes
    pub text : Bytes
    pub stamp : ℕ
    pub version_known : nat_beq e.version 1 ≡ true
    pub salt_read : b64decode prims salt_b64 ≡ ok salt
    pub nonce_read : b64decode prims e.nonce ≡ ok nonce
    pub sealed_read : b64decode prims e.payload ≡ ok sealed
    pub nonce_fits : length nonce ≡ nonce_length
    pub has_tag : auth_tag_length ≤ length sealed
    pub key_derived : derive_key prims secret salt api_hkdf_info ≡ ok key
    pub opened : prims.unseal key nonce sealed ≡ some text
    pub parsed : prims.from_slice text ≡ some v
    pub stamped : and_then (get v ts_key) as_i64 ≡ some stamp
    pub recent : (distance now stamp ≤ max_clock_skew_seconds) ⊎ (stamp ≡ now + 2 ^ 63)

  -- Whatever is accepted has the protocol's version, was opened with the key of the secret from a
  -- nonce of twelve bytes and a text no shorter than a tag, and carries a time stamp within 300
  -- seconds of the clock, or the one 2^63 seconds before it, if the clock stands between 300 and
  -- 2^62 seconds after 1970. The parser yields integers of 64 bits.
  pub decrypt_payload-Opened :
      StampsFit prims
      → (now : ℕ) (secret salt_b64 : Text) (e : Envelope) (v : Value) → max_clock_skew_seconds ≤ now
      → now < 2 ^ 62
      → decrypt_payload prims now secret salt_b64 e ≡ ok v
      → Opened now secret salt_b64 e v
  unfolding decrypt_payload open_payload
  decrypt_payload-Opened fits now secret salt_b64 e v late early h =
      let (version, h1) = fail_if-eq-ok (not (nat_beq e.version 1)) unsupported_version _ h in
      let (salt, s, h2) = >>=-eq-ok (b64decode prims salt_b64) _ h1 in
      let (nonce, n, h3) = >>=-eq-ok (b64decode prims e.nonce) _ h2 in
      let (sealed, c, h4) = >>=-eq-ok (b64decode prims e.payload) _ h3 in
      let (twelve, h5) = fail_if-eq-ok (not (nat_beq (length nonce) 12)) invalid_nonce _ h4 in
      let (long, h6) = fail_if-eq-ok (ltb (length sealed) 16) invalid_ciphertext _ h5 in
      let (key, k, h7) = >>=-eq-ok (derive_key prims secret salt api_hkdf_info) _ h6 in
      let (text, p, h8) = >>=-eq-ok (ok_or (prims.unseal key nonce sealed) invalid_payload) _ h7 in
      let (content, j, h9) = >>=-eq-ok (ok_or (prims.from_slice text) invalid_payload) _ h8 in
      let (same, t, found, recent) = accept_data-fresh now content v h9 in
      let parsed : prims.from_slice text ≡ some v =
        subst (λ x. prims.from_slice text ≡ some x) same (ok_or-eq-ok _ _ j) in
      record {
        salt = salt;
        nonce = nonce;
        sealed = sealed;
        key = key;
        text = text;
        stamp = t;
        version_known = not-false _ version;
        salt_read = s;
        nonce_read = n;
        sealed_read = c;
        nonce_fits = (nat_beq_iff _ _).0 (not-false _ twelve);
        has_tag = ltb-false-le _ _ long;
        key_derived = k;
        opened = ok_or-eq-ok _ _ p;
        parsed = parsed;
        stamped = found;
        recent = is_expired-false now t late early (fits text v t parsed found) recent;
      }
