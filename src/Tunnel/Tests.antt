-- ===== src/Tunnel/Tests.antt =====
-- The normalisation of tunnels at concrete lists.
use orange_frp.Prelude.{
  ◌≡◌, refl, [], ◌∷◌, nat_eq, list_eq, pair_eq, length, ok, codes, is_whitespace, is_ascii_digit,
  is_ascii_alphanumeric, to_upper, to_ascii_uppercase, trim_start_matches, trim_end_matches,
  trim_matches, trim,
}
use orange_frp.Tunnel.{
  Tunnel, normalize_tunnels, normalize_from, check_fields, prepare, with_proxy_name, with_id,
  trimmed, has_control, is_control_below_space, is_valid_port, clean_char, cleaned, proxy_name_for,
}
use orange_frp.Tunnel.Normalize.{AreNormal, normalize_tunnels-AreNormal, normalize_tunnels_idem}
use orange_frp.Samples.{sample_uuid, sample_uuid-IsUuidSource, web, dns}

-- As a client sends it: not trimmed, in lower case, without identifiers.
abbrev raw_web : Tunnel
raw_web = record web { id = []; proxy_name = []; protocol = codes "tcp"; name = codes " web " }

abbrev named_web : Tunnel
named_web = record web { id = codes "0123456789ab"; proxy_name = codes "fg-0123456789ab" }

raw_accepted : normalize_tunnels sample_uuid 0 (raw_web ∷ dns ∷ []) ≡ ok (named_web ∷ dns ∷ [], 1)
unfolding normalize_tunnels normalize_from check_fields prepare with_proxy_name with_id trimmed
    has_control is_control_below_space is_valid_port clean_char cleaned proxy_name_for trim
    is_ascii_alphanumeric is_ascii_digit is_whitespace to_upper to_ascii_uppercase
    trim_start_matches trim_end_matches trim_matches
raw_accepted = refl

normalize_tunnels-AreNormal_example :
    AreNormal (named_web ∷ dns ∷ []) × (length (named_web ∷ dns ∷ []) ≡ length (raw_web ∷ dns ∷ []))
normalize_tunnels-AreNormal_example =
    normalize_tunnels-AreNormal sample_uuid sample_uuid-IsUuidSource 0 (raw_web ∷ dns ∷ [])
      (named_web ∷ dns ∷ []) 1 raw_accepted

normalize_tunnels_idem_example :
    normalize_tunnels sample_uuid 7 (named_web ∷ dns ∷ []) ≡ ok (named_web ∷ dns ∷ [], 7)
normalize_tunnels_idem_example =
    normalize_tunnels_idem sample_uuid sample_uuid-IsUuidSource 0 (raw_web ∷ dns ∷ [])
      (named_web ∷ dns ∷ []) 1 7 raw_accepted
