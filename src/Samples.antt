-- ===== src/Samples.antt =====
-- Concrete inputs of the tests: a source of identifiers, primitives that do not hide anything, and
-- a small configuration.
use orange_frp.Prelude.{
  ℕ, ◌-◌, ◌<◌, ◌≡◌, refl, ap, inl, inr, Bool, true, none, some, [], ◌∷◌, ◌++◌, arith, ltb,
  if◌then◌else◌, Bool-cases, nat_eq, list_eq, pair_eq, length, take, all, All, length-append,
  take-append, All-append, all-All, ok, Text, codes, is_whitespace, is_ascii_digit,
  is_ascii_alphanumeric, to_upper, to_ascii_uppercase, trim_start_matches, trim_end_matches,
  trim_matches, trim, char_len, byte_len,
}
use orange_frp.Tunnel.{
  Tunnel, normalize_tunnels, normalize_from, check_fields, prepare, with_proxy_name, with_id,
  trimmed, has_control, is_control_below_space, is_valid_port, clean_char, cleaned, proxy_name_for,
}
use orange_frp.Tunnel.Normalize.{IsUuidSource}
use orange_frp.Utf8.{IsScalar}
use orange_frp.Json.{Value, obj, num, pos_int, field, end}
use orange_frp.Crypto.{Bytes, Primitives}
use orange_frp.Crypto.Laws.{IsSound, IsBytes}
use orange_frp.Config.{ServerConfig, ServerUser}
use orange_frp.Config.Normalize.{
  normalize_loaded_config, check_server, check_users, check_user, prepare_user, check_tunnels,
  check_tunnel, mark, mark_user,
}
use orange_frp.Config.Sort.{insert_sorted, sort, text_leb}
use orange_frp.Config.{decrypt_user_password}
use orange_frp.Config.Valid.Config.{IsValid, normalize_loaded_config-IsValid}

abbrev pub sample_uuid : ℕ → Text
sample_uuid n = codes "0123456789abcdef0123456789abcdef"

pub sample_uuid-IsUuidSource : IsUuidSource sample_uuid
unfolding is_ascii_alphanumeric
sample_uuid-IsUuidSource = record {
  sized = λ n. refl;
  digits = λ n. all-All is_ascii_alphanumeric (codes "0123456789abcdef0123456789abcdef") refl;
}

-- What is sealed at 1000: an empty object with its time stamp.
abbrev pub sample_content : Value
sample_content = obj (field (codes "ts") (num (pos_int 1000)) end)

abbrev pub sample_tag : Bytes
sample_tag = 0 ∷ 0 ∷ 0 ∷ 0 ∷ 0 ∷ 0 ∷ 0 ∷ 0 ∷ 0 ∷ 0 ∷ 0 ∷ 0 ∷ 0 ∷ 0 ∷ 0 ∷ 0 ∷ []

abbrev pub is_byte : ℕ → Bool
is_byte b = ltb b 256

abbrev pub sample_prims : Primitives
sample_prims = record {
  b64encode = λ bs. bs;
  b64decode_engine = λ text. some text;
  hkdf = λ salt secret info. some secret;
  seal = λ key nonce text. if all is_byte text then some (text ++ sample_tag) else none;
  unseal = λ key nonce sealed. some (take (length sealed - 16) sealed);
  to_vec = λ v. some (123 ∷ 125 ∷ []);
  from_slice = λ bs. some sample_content;
}

byte_of : (b : ℕ) → is_byte b ≡ true → b < 256
byte_of b h = ground arith

pub IsBytes-of : (bs : Bytes) → all is_byte bs ≡ true → IsBytes bs
IsBytes-of [] h = tt
IsBytes-of (b ∷ bs) h = (byte_of b (ground arith), IsBytes-of bs (ground arith))

-- What `seal` returns.
sealed_as :
    (text sealed : Bytes)
    → (if all is_byte text then some (text ++ sample_tag) else none) ≡ some sealed
    → (all is_byte text ≡ true) × (sealed ≡ text ++ sample_tag)
sealed_as text sealed h = elim (Bool-cases (all is_byte text)) [
  | inl bytes ↦ let e : some (text ++ sample_tag) ≡ some sealed = rw bytes at h in (bytes, cc)
  | inr other ↦ absurd (cc (rw other at h))
]

pub sample_prims-IsSound : IsSound sample_prims
sample_prims-IsSound = record {
  decode_encode = λ bs b. refl;
  unseal_seal = λ key nonce text sealed h.
      let (bytes, e) = sealed_as text sealed h in
      rw e (
        ap some (
          take-append (length (text ++ sample_tag) - 16) text sample_tag
            (omega (arith, length-append text sample_tag))));
  sealed_bytes = λ key nonce text sealed h.
      let (bytes, e) = sealed_as text sealed h in
      rw e (
        All-append (λ b. b < 256) text sample_tag (IsBytes-of text bytes)
          (IsBytes-of sample_tag refl));
  sealed_length = λ key nonce text sealed h.
      let (bytes, e) = sealed_as text sealed h in rw e (length-append text sample_tag);
}

abbrev pub web : Tunnel
web = record {
  id = codes "web";
  proxy_name = codes "fg-web";
  protocol = codes "TCP";
  name = codes "web";
  remark = codes "site";
  local_ip = codes "127.0.0.1";
  local_port = 80;
  remote_port = 8080;
  backend_port = 20000;
}

abbrev pub dns : Tunnel
dns = record {
  id = codes "dns";
  proxy_name = codes "fg-dns";
  protocol = codes "UDP";
  name = codes "dns";
  remark = codes "names";
  local_ip = codes "127.0.0.1";
  local_port = 53;
  remote_port = 8053;
  backend_port = 20001;
}

abbrev pub ann : ServerUser
ann = record {
  id = codes "u1";
  account = codes "ann";
  password_hash = codes "hash";
  password_encrypted = [];
  secret = codes "0123456789abcdef0123456789abcdef0123";
  tunnels = web ∷ dns ∷ [];
  tunnel_limit = 4;
  traffic_limit_bytes = 1000;
  traffic_used_bytes = 100;
  speed_limit_mbps = 0;
  traffic_by_proxy = [];
  created_at = 1;
  updated_at = 1;
}

abbrev pub bob : ServerUser
bob = record {
  id = codes "u2";
  account = codes "bob";
  password_hash = codes "hash";
  password_encrypted = [];
  secret = codes "abcdef0123456789abcdef01234567890123";
  tunnels = [];
  tunnel_limit = 4;
  traffic_limit_bytes = 0;
  traffic_used_bytes = 7;
  speed_limit_mbps = 8;
  traffic_by_proxy = [];
  created_at = 1;
  updated_at = 1;
}

abbrev pub sample_config : ServerConfig
sample_config = record {
  revision = 1;
  api_salt = codes "0123456789abcdef0123456789abcdef";
  api_bind = codes "0.0.0.0";
  api_port = 7631;
  frps_bind_port = 7000;
  frps_token = codes "token";
  frps_binary = codes "frps";
  plugin_port = 7632;
  public_bind = codes "0.0.0.0";
  users = ann ∷ bob ∷ [];
  created_at = 1;
  updated_at = 1;
}

pub sample_config_normal :
    normalize_loaded_config sample_prims sample_uuid 0 sample_config ≡ ok (sample_config, 0)
unfolding normalize_loaded_config check_server check_users check_user prepare_user check_tunnels
    check_tunnel mark mark_user insert_sorted sort text_leb decrypt_user_password normalize_tunnels
    normalize_from check_fields prepare with_proxy_name with_id trimmed has_control
    is_control_below_space is_valid_port clean_char cleaned proxy_name_for trim byte_len char_len
    is_ascii_alphanumeric is_ascii_digit is_whitespace to_upper to_ascii_uppercase
    trim_start_matches trim_end_matches trim_matches
sample_config_normal = refl

pub sample_config-IsValid : IsValid sample_prims sample_config
sample_config-IsValid =
    (normalize_loaded_config-IsValid sample_prims sample_uuid sample_uuid-IsUuidSource 0
      sample_config sample_config 0 sample_config_normal).0

abbrev pub is_ascii : ℕ → Bool
is_ascii c = ltb c 128

pub ascii-IsScalar : (text : Text) → all is_ascii text ≡ true → All IsScalar text
ascii-IsScalar [] h = tt
ascii-IsScalar (c ∷ text) h = (
  record { bounded = ground arith; no_surrogate = inl (ground arith) },
  ascii-IsScalar text (ground arith),
)
