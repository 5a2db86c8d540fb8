-- ===== src/Tunnel/Profile.antt =====
-- `normalize_server` and `ServerProfile` of server-package/crates/frp-game-common/src/model.rs.
-- The parser of the `url` crate is a parameter: the host and the port that it reads, if any.
use orange_frp.Prelude.{
  ℕ, zero, suc, ◌+◌, ◌/◌, ◌%◌, Bool, true, false, not, ◌&&◌, ◌||◌, Option, none, some, List, [],
  ◌∷◌, ◌++◌, nat_beq, if◌then◌else◌, ◌==◌, nat_eq, list_eq, pair_eq, contains, Result, ok, err,
  ◌>>=◌, ok_or, Text, codes, is_empty, trim_start_matches, trim_end_matches, trim,
}
use orange_frp.Tunnel.{FrpGameError, Tunnel, empty_server, invalid_server, api_port_default}

-- What is read of a `Url`: `host_str` and `port`.
pub record Url : Type 0 where
  pub host_str : Option Text
  pub port : Option ℕ

-- The result of `normalize_server`.
pub record Server : Type 0 where
  pub display : Text
  pub host : Text
  pub port : ℕ
  pub base_url : Text

-- `{port}`: decimal digits, on fuel; a `u16` has five at most.
unfoldable pub decimal_from : ℕ → ℕ → Text → Text
decimal_from zero n acc = acc
decimal_from (suc f) n acc =
    let digit = b'0' + n % 10 in
    let rest = decimal_from f (n / 10) (digit ∷ acc) in
    if nat_beq (n / 10) 0 then digit ∷ acc else rest

unfoldable pub decimal : ℕ → Text
unfolding decimal_from
decimal n = decimal_from 5 n []

unfoldable pub starts_with : Text → Text → Bool
starts_with [] s = true
starts_with (p ∷ ps) [] = false
starts_with (p ∷ ps) (c ∷ s) = p == c && starts_with ps s

unfoldable pub contains_text : Text → Text → Bool
unfolding starts_with
contains_text p [] = is_empty p
contains_text p (c ∷ s) = starts_with p (c ∷ s) || contains_text p s

unfoldable pub bracketed : Text → Text
bracketed host = if contains host b':' then codes "[" ++ host ++ codes "]" else host

unfoldable pub get_or : {A : Type 0} → Option A → A → A
get_or none d = d
get_or (some a) d = a

unfoldable pub server_of : Text → ℕ → Server
unfolding bracketed decimal
server_of host port = record {
  display =
      if nat_beq port api_port_default
      then bracketed host
      else bracketed host ++ codes ":" ++ decimal port;
  host = host;
  port = port;
  base_url = codes "http://" ++ bracketed host ++ codes ":" ++ decimal port;
}

module _ (parse_url : Text → Option Url) where
  unfoldable pub normalize_server : Text → Result FrpGameError Server
  unfolding contains_text get_or server_of
  normalize_server value =
      let raw = trim value in
      if is_empty raw then err empty_server else do
        url ←
            ok_or
              (if contains_text (codes "://") raw
                then parse_url raw
                else parse_url (codes "http://" ++ raw))
              invalid_server
        host ← ok_or url.host_str invalid_server
        ok (
            server_of (trim_end_matches (λ c. c == b']') (trim_start_matches (λ c. c == b'[') host))
              (get_or url.port api_port_default))

-- `PortTrafficUsage` and `TrafficSummary`.
pub record PortTrafficUsage : Type 0 where
  pub proxy_name : Text
  pub protocol : Text
  pub remote_port : ℕ
  pub traffic_in_bytes : ℕ
  pub traffic_out_bytes : ℕ

pub record TrafficSummary : Type 0 where
  pub limit_bytes : ℕ
  pub used_bytes : ℕ
  pub remaining_bytes : ℕ
  pub speed_limit_mbps : ℕ
  pub exhausted : Bool
  pub ports : List PortTrafficUsage

pub record ServerProfile : Type 0 where
  pub id : Text
  pub label : Text
  pub server_ip : Text
  pub server_host : Text
  pub account : Text
  pub password : Text
  pub key : Text
  pub api_port : ℕ
  pub api_salt : Text
  pub frps_port : ℕ
  pub frps_token : Text
  pub frps_version : Text
  pub frps_online : Bool
  pub traffic : TrafficSummary
  pub tunnel_limit : ℕ
  pub tunnels : List Tunnel

-- `ServerProfile::title`.
unfoldable pub title : ServerProfile → Text
title p =
    if not (is_empty (trim p.label))
    then p.label
    else if not (is_empty (trim p.server_ip))
    then p.server_ip
    else codes "未命名服务器"
