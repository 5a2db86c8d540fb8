-- ===== src/Crypto.antt =====
-- server-package/crates/frp-game-common/src/crypto.rs: sealed requests and stored passwords.
-- Base64, HKDF, AES-GCM and the printing of JSON belong to other crates: they are the operations of
-- `Primitives`. The random nonce and the clock are arguments.
pub mod Laws
pub mod RoundTrip
pub mod Tests
use orange_frp.Prelude.{
  ℕ, ◌+◌, ◌-◌, ◌%◌, ◌^◌, Bool, false, not, ◌&&◌, ◌||◌, Option, List, [], ◌∷◌, ◌++◌, ltb, leb,
  nat_beq, if◌then◌else◌, length, take, drop, Result, ok, err, ◌>>=◌, ◌>>◌, fail_if, ok_or, Text,
  codes, is_empty,
}
use orange_frp.Utf8.{as_bytes, from_utf8}
use orange_frp.Json.{Value, Fields, obj, num, pos_int, get, as_i64, or_insert, and_then, end}

pub data CryptoError : Type 0 where
  unsupported_version invalid_base64 invalid_payload invalid_salt : CryptoError
  invalid_nonce invalid_ciphertext missing_timestamp expired_timestamp : CryptoError

abbrev pub Bytes : Type 0
Bytes = List ℕ

pub record Primitives : Type 0 where
  -- `URL_SAFE_NO_PAD`
  pub b64encode : Bytes → Text
  pub b64decode_engine : Text → Option Bytes
  -- `Hkdf::<Sha256>::new(salt, secret).expand(info)`, 32 bytes
  pub hkdf : Bytes → Bytes → Bytes → Option Bytes
  -- `Aes256Gcm`, by key, nonce and text
  pub seal : Bytes → Bytes → Bytes → Option Bytes
  pub unseal : Bytes → Bytes → Bytes → Option Bytes
  -- `serde_json::to_vec` and `from_slice`
  pub to_vec : Value → Option Bytes
  pub from_slice : Bytes → Option Value

pub record Envelope : Type 0 where
  pub version : ℕ
  pub nonce : Text
  pub payload : Text

abbrev pub protocol_version : ℕ
protocol_version = 1

abbrev pub max_clock_skew_seconds : ℕ
max_clock_skew_seconds = 300

abbrev pub stored_text_version : ℕ
stored_text_version = 1

abbrev pub nonce_length : ℕ
nonce_length = 12

abbrev pub auth_tag_length : ℕ
auth_tag_length = 16

abbrev pub api_hkdf_info : Bytes
api_hkdf_info = codes "frp-game-tool-api-v1"

abbrev pub storage_hkdf_info : Bytes
storage_hkdf_info = codes "frp-game-tool-storage-v1"

abbrev pub ts_key : Text
ts_key = codes "ts"

-- `i64` by its two's complement: a wrapping difference, a wrapping `abs`, and a signed test.
unfoldable pub sub_i64 : ℕ → ℕ → ℕ
sub_i64 a b = (a + 2 ^ 64 - b) % 2 ^ 64

unfoldable pub abs_i64 : ℕ → ℕ
abs_i64 a = if ltb a (2 ^ 63) then a else (2 ^ 64 - a) % 2 ^ 64

unfoldable pub gt_i64 : ℕ → ℕ → Bool
gt_i64 a b = ltb a (2 ^ 63) && ltb b a

-- `(now_unix() - timestamp).abs() > MAX_CLOCK_SKEW_SECONDS`.
unfoldable pub is_expired : ℕ → ℕ → Bool
unfolding sub_i64 abs_i64 gt_i64
is_expired now timestamp = gt_i64 (abs_i64 (sub_i64 now timestamp)) max_clock_skew_seconds

-- `match payload { Value::Object(map) => map, _ => Map::new() }`.
unfoldable pub object_of : Value → Fields
object_of (obj m) = m
object_of _ = end

-- The object that is sealed: the payload with a time stamp, unless it has one.
unfoldable pub stamped : ℕ → Value → Fields
unfolding object_of
stamped now payload = or_insert ts_key (num (pos_int now)) (object_of payload)

module _ (prims : Primitives) where
  open prims use {b64encode, b64decode_engine, hkdf, seal, unseal, to_vec, from_slice}

  unfoldable pub b64decode : Text → Result CryptoError Bytes
  b64decode value = ok_or (b64decode_engine value) invalid_base64

  unfoldable pub derive_key : Text → Bytes → Bytes → Result CryptoError Bytes
  derive_key secret salt info =
      if not (leb 16 (length salt) && leb (length salt) 64) || is_empty secret
      then err invalid_salt
      else ok_or (hkdf salt (as_bytes secret) info) invalid_payload

  unfoldable pub encrypt_payload : ℕ → Bytes → Text → Text → Value → Result CryptoError Envelope
  encrypt_payload now nonce_bytes secret salt_b64 payload = do
    salt ← b64decode salt_b64
    plaintext ← ok_or (to_vec (obj (stamped now payload))) invalid_payload
    key ← derive_key secret salt api_hkdf_info
    ciphertext ← ok_or (seal key nonce_bytes plaintext) invalid_payload
    ok (record {
      version = protocol_version;
      nonce = b64encode nonce_bytes;
      payload = b64encode ciphertext;
    })

  -- The checks on a decrypted object.
  unfoldable pub accept_data : ℕ → Value → Result CryptoError Value
  accept_data now content = do
    timestamp ← ok_or (and_then (get content ts_key) as_i64) missing_timestamp
    fail_if (is_expired now timestamp) expired_timestamp
    ok content

  unfoldable pub open_payload : ℕ → Text → Bytes → Bytes → Bytes → Result CryptoError Value
  open_payload now secret salt nonce ciphertext = do
    fail_if (not (nat_beq (length nonce) nonce_length)) invalid_nonce
    fail_if (ltb (length ciphertext) auth_tag_length) invalid_ciphertext
    key ← derive_key secret salt api_hkdf_info
    plaintext ← ok_or (unseal key nonce ciphertext) invalid_payload
    content ← ok_or (from_slice plaintext) invalid_payload
    accept_data now content

  unfoldable pub decrypt_payload : ℕ → Text → Text → Envelope → Result CryptoError Value
  decrypt_payload now secret salt_b64 envelope = do
    fail_if (not (nat_beq envelope.version protocol_version)) unsupported_version
    salt ← b64decode salt_b64
    nonce ← b64decode envelope.nonce
    ciphertext ← b64decode envelope.payload
    open_payload now secret salt nonce ciphertext

  unfoldable pub encrypt_stored_text : Bytes → Text → Text → Text → Result CryptoError Text
  encrypt_stored_text nonce_bytes secret salt_b64 plaintext = do
    salt ← b64decode salt_b64
    key ← derive_key secret salt storage_hkdf_info
    ciphertext ← ok_or (seal key nonce_bytes (as_bytes plaintext)) invalid_payload
    ok (b64encode ((stored_text_version ∷ nonce_bytes) ++ ciphertext))

  -- The stored bytes behind the version.
  unfoldable pub open_stored : Text → Text → Bytes → Bytes → Result CryptoError Text
  open_stored secret salt_b64 nonce ciphertext = do
    salt ← b64decode salt_b64
    key ← derive_key secret salt storage_hkdf_info
    plaintext ← ok_or (unseal key nonce ciphertext) invalid_payload
    ok_or (from_utf8 plaintext) invalid_payload

  abbrev first_is_version : Bytes → Bool
  first_is_version [] = false
  first_is_version (b ∷ bs) = nat_beq b stored_text_version

  unfoldable pub decrypt_stored_text : Text → Text → Text → Result CryptoError Text
  decrypt_stored_text secret salt_b64 stored_b64 = do
    stored ← b64decode stored_b64
    fail_if (not (first_is_version stored)) unsupported_version
    fail_if (ltb (length stored) (1 + nonce_length + auth_tag_length)) invalid_ciphertext
    open_stored secret salt_b64 (take nonce_length (drop 1 stored)) (drop (1 + nonce_length) stored)
