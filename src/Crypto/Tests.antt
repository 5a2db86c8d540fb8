-- ===== src/Crypto/Tests.antt =====
-- Sealed and opened again, with primitives that do not hide anything.
use orange_frp.Prelude.{
  ◌≡◌, refl, sym, subst, inl, none, some, [], ◌∷◌, ◌++◌, arith, ltb, if◌then◌else◌, nat_eq, list_eq,
  pair_eq, ok, err, Text, codes,
}
use orange_frp.Json.{Value, obj, end, get_field, or_insert, get, as_i64, and_then}
use orange_frp.Utf8.{as_bytes, from_utf8, encode_char, from_utf8-as_bytes}
use orange_frp.Crypto.{
  Bytes, Envelope, is_expired, encrypt_payload, decrypt_payload, stamped, object_of, b64decode,
  derive_key, expired_timestamp, max_clock_skew_seconds, encrypt_stored_text, accept_data,
  open_payload, ts_key,
}
use orange_frp.Crypto.Laws.{IsBytes, distance}
use orange_frp.Crypto.RoundTrip.{
  PrintsExactly, StampsFit, Opened, decrypt_payload-encrypt_payload, decrypt_payload-Opened,
}
use orange_frp.Samples.{sample_prims, sample_prims-IsSound, sample_content, sample_tag, IsBytes-of}

abbrev nonce : Bytes
nonce = 1 ∷ 2 ∷ 3 ∷ 4 ∷ 5 ∷ 6 ∷ 7 ∷ 8 ∷ 9 ∷ 10 ∷ 11 ∷ 12 ∷ []

nonce-IsBytes : IsBytes nonce
nonce-IsBytes = IsBytes-of nonce refl

abbrev salt : Text
salt = codes "0123456789abcdef"

abbrev secret : Text
secret = codes "secret"

abbrev empty_object : Value
empty_object = obj end

abbrev sealed_empty : Envelope
sealed_empty = record { version = 1; nonce = nonce; payload = 123 ∷ 125 ∷ sample_tag }

empty_sealed : encrypt_payload sample_prims 1000 nonce secret salt empty_object ≡ ok sealed_empty
unfolding encrypt_payload b64decode derive_key stamped object_of or_insert
empty_sealed = refl

content_printed : PrintsExactly sample_prims (obj (stamped 1000 empty_object))
unfolding stamped object_of or_insert
content_printed text h = refl

no_stamp : get_field ts_key (object_of empty_object) ≡ none
unfolding get_field object_of
no_stamp = refl

decrypt_payload-encrypt_payload_example :
    decrypt_payload sample_prims 1200 secret salt sealed_empty ≡ (
      if ltb max_clock_skew_seconds (distance 1200 1000)
      then err expired_timestamp
      else ok (obj (stamped 1000 empty_object)))
decrypt_payload-encrypt_payload_example =
    decrypt_payload-encrypt_payload sample_prims sample_prims-IsSound 1000 1200 nonce secret salt
      empty_object sealed_empty (omega arith) (omega arith) nonce-IsBytes refl no_stamp
      content_printed empty_sealed

content_opened : decrypt_payload sample_prims 1200 secret salt sealed_empty ≡ ok sample_content
unfolding decrypt_payload open_payload accept_data b64decode derive_key is_expired get as_i64
content_opened = refl

content_fits : StampsFit sample_prims
unfolding get get_field as_i64
content_fits text v t parsed found =
    let e : some sample_content ≡ some v = parsed in
    let e' : sample_content ≡ v = cc e in
    let stamp : some 1000 ≡ some t =
      subst (λ x. and_then (get x ts_key) as_i64 ≡ some t) (sym e') found in
    let stamp' : 1000 ≡ t = cc stamp in omega (arith, stamp')

decrypt_payload-Opened_example : Opened sample_prims 1200 secret salt sealed_empty sample_content
decrypt_payload-Opened_example =
    decrypt_payload-Opened sample_prims content_fits 1200 secret salt sealed_empty sample_content
      (omega arith) (omega arith) content_opened

abbrev stored_hi : Text
stored_hi = 1 ∷ (nonce ++ (104 ∷ 105 ∷ sample_tag))

hi_stored : encrypt_stored_text sample_prims nonce secret salt (codes "hi") ≡ ok stored_hi
unfolding encrypt_stored_text b64decode derive_key as_bytes encode_char
hi_stored = refl

from_utf8-as_bytes_example : from_utf8 (as_bytes (codes "hi")) ≡ some (codes "hi")
from_utf8-as_bytes_example = from_utf8-as_bytes (codes "hi") (
  record { bounded = omega arith; no_surrogate = inl (omega arith) },
  (record { bounded = omega arith; no_surrogate = inl (omega arith) }, tt),
)
