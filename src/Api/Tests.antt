-- ===== src/Api/Tests.antt =====
-- The requests at the sample configuration; hashes are the passwords themselves.
use orange_frp.Prelude.{
  ◌<◌, ◌≡◌, refl, ◌↔◌, Bool, true, some, [], ◌∷◌, ◌==◌, nat_eq, list_eq, list_beq_iff, pair_eq, ok,
  codes, is_whitespace, is_ascii_digit, is_ascii_alphanumeric, to_upper, to_ascii_uppercase,
  trim_start_matches, trim_end_matches, trim_matches, trim, char_len, byte_len,
}
use orange_frp.Utf8.{as_bytes, encode_char}
use orange_frp.Json.{
  Value, obj, str, num, pos_int, field, end, get, get_field, get_str, as_str, as_i64,
}
use orange_frp.Tunnel.{
  Tunnel, normalize_tunnels, normalize_from, check_fields, prepare, with_proxy_name, with_id,
  trimmed, has_control, is_control_below_space, is_valid_port, clean_char, cleaned, proxy_name_for,
}
use orange_frp.Crypto.{
  Bytes, Primitives, Envelope, decrypt_payload, open_payload, accept_data, b64decode, derive_key,
  is_expired,
}
use orange_frp.Config.{ServerUser, Argon2, verify_password, allocate_backend_port, allocate_from}
use orange_frp.Floats.{whole}
use orange_frp.Gate.{remaining}
use orange_frp.Controller.{fresh_gate}
use orange_frp.Api.{
  unchanged, AuthContext, secure_equal, traffic_summary, plugin_proxy_response, is_authentic,
  auth_from, decrypt_and_auth,
}
use orange_frp.Api.Equal.{IsCtEq}
use orange_frp.Api.Summary.{traffic_summary-gate}
use orange_frp.Api.Auth.{Authenticated, decrypt_and_auth-Authenticated}
use orange_frp.Api.Plugin.{IsAuthorized, IsProxyOf, plugin_proxy_response_iff}
use orange_frp.Api.Tunnels.{
  normalize_user_tunnels, assign_backends, backend_for, check_others, tunnels_except,
  collect_backends, used_by_users, is_id_char,
}
use orange_frp.Api.Tunnels.Backends.{MaySave, normalize_user_tunnels-MaySave}
use orange_frp.Samples.{
  sample_prims, sample_tag, sample_uuid, sample_config, sample_config-IsValid, ascii-IsScalar, ann,
  bob, web,
}

abbrev same_bytes : Bytes → Bytes → Bool
same_bytes a b = a == b

same_bytes-IsCtEq : IsCtEq same_bytes
same_bytes-IsCtEq a b = list_beq_iff a b

abbrev open_hash : Argon2
open_hash = record {
  hash = λ salt password. some password;
  verify = λ password_hash password. password_hash == password;
}

-- A login of ann.
abbrev login_payload : Value
login_payload = obj (
    field (codes "op") (str (codes "login")) (
      field (codes "account") (str (codes "ann")) (
        field (codes "key") (str ann.secret) (
          field (codes "password") (str (codes "hash"))
            (field (codes "ts") (num (pos_int 1000)) end)))))

abbrev login_prims : Primitives
login_prims = record sample_prims { from_slice = λ bs. some login_payload }

abbrev login_envelope : Envelope
login_envelope = record {
  version = 1;
  nonce = 1 ∷ 2 ∷ 3 ∷ 4 ∷ 5 ∷ 6 ∷ 7 ∷ 8 ∷ 9 ∷ 10 ∷ 11 ∷ 12 ∷ [];
  payload = sample_tag;
}

abbrev login_context : AuthContext
login_context = record { user_index = 0; payload = login_payload }

login_taken :
    decrypt_and_auth same_bytes login_prims open_hash 1100 sample_config login_envelope
      (codes "login")
    ≡ ok login_context
unfolding decrypt_and_auth auth_from is_authentic secure_equal verify_password decrypt_payload
    open_payload accept_data b64decode derive_key is_expired get get_field get_str as_str as_i64
    as_bytes encode_char byte_len char_len
login_taken = refl

decrypt_and_auth-Authenticated_example :
    Authenticated same_bytes login_prims open_hash 1100 sample_config login_envelope
      (codes "login")
      login_context
decrypt_and_auth-Authenticated_example =
    decrypt_and_auth-Authenticated same_bytes login_prims open_hash 1100 sample_config
      login_envelope (codes "login") login_context login_taken

plugin_proxy_response_iff_example :
    (plugin_proxy_response same_bytes sample_config
        (codes "ann")
        ann.secret
        (codes "ann.fg-web")
        (codes "tcp")
        20000
      ≡ unchanged)
    ↔ ((user : ServerUser) × IsAuthorized sample_config (codes "ann") ann.secret user
        × ((t : Tunnel) × IsProxyOf user (codes "ann") (codes "ann.fg-web") (codes "tcp") 20000 t))
plugin_proxy_response_iff_example =
    plugin_proxy_response_iff same_bytes sample_config (codes "ann") ann.secret (codes "ann.fg-web")
      (codes "tcp") 20000 same_bytes-IsCtEq (ascii-IsScalar ann.secret refl)
      (ascii-IsScalar ann.secret refl, (ascii-IsScalar bob.secret refl, tt))

traffic_summary-gate_example :
    (((traffic_summary ann).exhausted ≡ true) ↔ (remaining (fresh_gate whole 5 ann) ≡ 0))
    × (0 < ann.traffic_limit_bytes
        → (traffic_summary ann).remaining_bytes ≡ remaining (fresh_gate whole 5 ann))
traffic_summary-gate_example = traffic_summary-gate whole 5 ann

-- One known tunnel and a new one.
abbrev mail : Tunnel
mail = record web {
  id = codes "mail";
  proxy_name = codes "fg-mail";
  name = codes "mail";
  remote_port = 8025;
}

abbrev saved_mail : Tunnel
saved_mail = record mail { backend_port = 20002 }

mail_accepted :
    normalize_user_tunnels sample_uuid 0 sample_config 0 (web ∷ mail ∷ [])
    ≡ ok (web ∷ saved_mail ∷ [], 0)
unfolding normalize_user_tunnels assign_backends backend_for check_others tunnels_except
    collect_backends used_by_users is_id_char allocate_backend_port allocate_from normalize_tunnels
    normalize_from check_fields prepare with_proxy_name with_id trimmed has_control
    is_control_below_space is_valid_port clean_char cleaned proxy_name_for trim byte_len char_len
    is_ascii_alphanumeric is_ascii_digit is_whitespace to_upper to_ascii_uppercase
    trim_start_matches trim_end_matches trim_matches
mail_accepted = refl

normalize_user_tunnels-MaySave_example :
    MaySave sample_uuid 0 sample_config 0 (web ∷ mail ∷ []) (web ∷ saved_mail ∷ [])
normalize_user_tunnels-MaySave_example =
    normalize_user_tunnels-MaySave sample_uuid sample_prims 0 sample_config 0 (web ∷ mail ∷ [])
      (web ∷ saved_mail ∷ []) 0 sample_config-IsValid mail_accepted
