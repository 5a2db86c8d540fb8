-- ===== src/Tunnel.antt =====
-- server-package/crates/frp-game-common/src/model.rs: tunnels and their normalisation.
-- The calls of `Uuid::new_v4` are a parameter: `uuid n` is the simple form that the n-th call
-- returns, and the counter is passed on.
pub mod Checks
pub mod Trim
pub mod Normalize
pub mod Version
pub mod Profile
pub mod Tests
use orange_frp.Prelude.{
  ℕ, ◌+◌, ◌-◌, Bool, not, ◌&&◌, ◌||◌, List, [], ◌∷◌, ◌++◌, map, ltb, if◌then◌else◌, ◌==◌, nat_eq,
  list_eq, pair_eq, length, take, any, contains, Result, ok, ◌>>=◌, ◌>>◌, fail_if, Text, codes,
  is_empty, is_ascii_alphanumeric, to_ascii_uppercase, trim_matches, trim,
}

-- `FrpGameError`.
pub data FrpGameError : Type 0 where
  empty_server invalid_server invalid_protocol missing_tunnel_field : FrpGameError
  control_character tunnel_field_too_long invalid_port : FrpGameError
  duplicate_name : Text → FrpGameError
  duplicate_remote_port : Text → ℕ → FrpGameError

pub record Tunnel : Type 0 where
  pub id : Text
  pub proxy_name : Text
  pub protocol : Text
  pub name : Text
  pub remark : Text
  pub local_ip : Text
  pub local_port : ℕ
  pub remote_port : ℕ
  pub backend_port : ℕ

abbrev pub tcp : Text
tcp = codes "TCP"

abbrev pub udp : Text
udp = codes "UDP"

abbrev pub api_port_default : ℕ
api_port_default = 7631

abbrev pub frps_port_default : ℕ
frps_port_default = 7000

abbrev pub default_tunnel_limit : ℕ
default_tunnel_limit = 256

abbrev pub max_tunnel_limit : ℕ
max_tunnel_limit = 256

abbrev pub is_dash : ℕ → Bool
is_dash c = c == b'-'

-- One character of `proxy_name_for`.
unfoldable pub clean_char : ℕ → ℕ
clean_char c = if is_ascii_alphanumeric c || c == b'_' || c == b'-' then c else b'-'

unfoldable pub cleaned : Text → Text
unfolding clean_char
cleaned tunnel_id = trim_matches is_dash (map clean_char tunnel_id)

unfoldable pub is_valid_port : ℕ → Bool
is_valid_port value = ltb 0 value

-- The fields that are trimmed, before any check.
unfoldable pub trimmed : Tunnel → Tunnel
trimmed t = record t {
  protocol = to_ascii_uppercase (trim t.protocol);
  name = trim t.name;
  remark = trim t.remark;
  local_ip = trim t.local_ip;
}

unfoldable pub is_control_below_space : ℕ → Bool
is_control_below_space c = ltb c 32

-- `any(|ch| ch < ' ')`.
unfoldable pub has_control : Text → Bool
unfolding is_control_below_space
has_control = any is_control_below_space

-- The checks of one tunnel that do not look at the others.
unfoldable pub check_fields : Tunnel → Result FrpGameError (Unit {0})
unfolding is_valid_port
check_fields t = do
  fail_if (not (t.protocol == tcp) && not (t.protocol == udp)) invalid_protocol
  fail_if (is_empty t.name || is_empty t.remark || is_empty t.local_ip) missing_tunnel_field
  fail_if (ltb 64 (length t.name) || ltb 256 (length t.remark) || ltb 255 (length t.local_ip))
      tunnel_field_too_long
  fail_if (has_control (t.name ++ (t.remark ++ t.local_ip))) control_character
  fail_if (not (is_valid_port t.local_port) || not (is_valid_port t.remote_port)) invalid_port
  ok tt

module _ (uuid : ℕ → Text) where
  abbrev pub new_tunnel_id : ℕ → Text
  new_tunnel_id n = take 12 (uuid n)

  -- The name, and the number of the next call of `Uuid::new_v4`.
  unfoldable pub proxy_name_for : ℕ → Text → Text × ℕ
  unfolding cleaned
  proxy_name_for n tunnel_id =
      if is_empty (cleaned tunnel_id)
      then (codes "fg-" ++ new_tunnel_id n, n + 1)
      else (codes "fg-" ++ cleaned tunnel_id, n)

  unfoldable pub with_id : ℕ → Tunnel → Tunnel × ℕ
  with_id n t = if is_empty (trim t.id) then (record t { id = new_tunnel_id n }, n + 1) else (t, n)

  unfoldable pub with_proxy_name : ℕ → Tunnel → Tunnel × ℕ
  with_proxy_name n t =
      let (proxy_name, n') = proxy_name_for n t.id in
      if is_empty (trim t.proxy_name) then (record t { proxy_name = proxy_name }, n') else (t, n)

  -- `tunnel.clone()` up to the checks.
  unfoldable pub prepare : ℕ → Tunnel → Tunnel × ℕ
  prepare n t = let (item, n') = with_id n (trimmed t) in with_proxy_name n' item

  -- The loop, over the sets `names` and `remote_ports`.
  unfoldable pub normalize_from :
      ℕ → List Text → List (Text × ℕ) → List Tunnel → Result FrpGameError (List Tunnel × ℕ)
  normalize_from n names remote_ports [] = ok ([], n)
  normalize_from n names remote_ports (t ∷ ts) =
      let item = (prepare n t).0 in
      let remote_key : Text × ℕ = (item.protocol, item.remote_port) in
      do
        check_fields item
        fail_if (contains names item.name) (duplicate_name item.name)
        fail_if (contains remote_ports remote_key)
            (duplicate_remote_port item.protocol item.remote_port)
        (items, n') ←
            normalize_from (prepare n t).1 (item.name ∷ names) (remote_key ∷ remote_ports) ts
        ok (item ∷ items, n')

  unfoldable pub normalize_tunnels : ℕ → List Tunnel → Result FrpGameError (List Tunnel × ℕ)
  unfolding normalize_from
  normalize_tunnels n tunnels = normalize_from n [] [] tunnels
