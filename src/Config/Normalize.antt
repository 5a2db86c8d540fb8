-- ===== src/Config/Normalize.antt =====
-- `normalize_loaded_config` of server-package/crates/frp-game-server/src/storage.rs, which stands
-- before every write of the configuration and after every read.
use orange_frp.Prelude.{
  ℕ, ◌+◌, Bool, not, ◌||◌, List, [], ◌∷◌, ltb, nat_beq, if◌then◌else◌, nat_eq, list_eq, pair_eq,
  length, any, all, contains, Result, ok, ◌>>=◌, ◌>>◌, fail_if, map_err, ok_or, Text, is_empty,
  is_ascii_alphanumeric, trim, byte_len,
}
use orange_frp.Tunnel.{Tunnel, max_tunnel_limit, normalize_tunnels, proxy_name_for}
use orange_frp.Crypto.{Primitives}
use orange_frp.Config.{
  ServerConfig, ServerUser, Error, zero_port, port_clash, blank_bind, bad_salt, incomplete_auth,
  bad_account, duplicate_user_id, blank_hash, bad_secret, bad_password, limit_too_large,
  too_many_tunnels, duplicate_tunnel, reserved_port, public_port_taken, bad_backend_port,
  public_backend_clash, tunnel_error, max_tunnels_per_user, reserved_ports, decrypt_user_password,
  new_user_id,
}
use orange_frp.Config.Sort.{text_leb, sort}

-- The sets that the loop fills from the tunnels of all users.
pub record TunnelSets : Type 0 where
  pub tunnel_ids : List Text
  pub proxy_names : List Text
  pub public_ports : List (Text × ℕ)
  pub public_port_numbers : List ℕ
  pub backend_ports : List ℕ

pub record UserSets : Type 0 where
  pub accounts : List Text
  pub user_ids : List Text
  pub secrets : List Text

abbrev pub no_tunnels : TunnelSets
no_tunnels = record {
  tunnel_ids = [];
  proxy_names = [];
  public_ports = [];
  public_port_numbers = [];
  backend_ports = [];
}

abbrev pub no_users : UserSets
no_users = record { accounts = []; user_ids = []; secrets = [] }

abbrev pub public_key : Tunnel → Text × ℕ
public_key t = (t.protocol, t.remote_port)

-- The insertions of one tunnel.
unfoldable pub mark : TunnelSets → Tunnel → TunnelSets
mark s t = record {
  tunnel_ids = t.id ∷ s.tunnel_ids;
  proxy_names = t.proxy_name ∷ s.proxy_names;
  public_ports = public_key t ∷ s.public_ports;
  public_port_numbers = t.remote_port ∷ s.public_port_numbers;
  backend_ports = t.backend_port ∷ s.backend_ports;
}

unfoldable pub mark_user : UserSets → ServerUser → UserSets
mark_user s u = record {
  accounts = u.account ∷ s.accounts;
  user_ids = u.id ∷ s.user_ids;
  secrets = u.secret ∷ s.secrets;
}

unfoldable pub check_tunnel : List ℕ → TunnelSets → Tunnel → Result Error (Unit {0})
check_tunnel reserved s t = do
  fail_if (contains s.tunnel_ids t.id || contains s.proxy_names t.proxy_name) duplicate_tunnel
  fail_if (contains reserved t.remote_port) reserved_port
  fail_if (contains s.public_ports (public_key t)) public_port_taken
  fail_if
      (nat_beq t.backend_port 0
        || contains reserved t.backend_port
        || contains s.backend_ports t.backend_port)
      bad_backend_port
  ok tt

-- The checks of a user that come before those of its tunnels.
unfoldable pub check_user : Primitives → Text → UserSets → ServerUser → Result Error (Unit {0})
check_user prims api_salt s u = do
  fail_if (is_empty u.account || contains s.accounts u.account) bad_account
  fail_if (contains s.user_ids u.id) duplicate_user_id
  fail_if (is_empty (trim u.password_hash)) blank_hash
  fail_if
      (not (nat_beq (byte_len u.secret) 36)
        || not (all is_ascii_alphanumeric u.secret)
        || contains s.secrets u.secret)
      bad_secret
  password ←
      map_err (λ _. bad_password)
        (decrypt_user_password prims api_salt u.secret u.password_encrypted)
  fail_if (ltb max_tunnel_limit u.tunnel_limit) limit_too_large
  fail_if (ltb max_tunnels_per_user (length u.tunnels)) too_many_tunnels
  ok tt

unfoldable pub check_server : Primitives → ServerConfig → Result Error (Unit {0})
check_server prims c = do
  fail_if (nat_beq c.api_port 0 || nat_beq c.frps_bind_port 0 || nat_beq c.plugin_port 0) zero_port
  fail_if
      (nat_beq c.api_port c.frps_bind_port
        || nat_beq c.api_port c.plugin_port
        || nat_beq c.frps_bind_port c.plugin_port)
      port_clash
  fail_if (is_empty (trim c.api_bind) || is_empty (trim c.public_bind)) blank_bind
  salt ← ok_or (prims.b64decode_engine c.api_salt) bad_salt
  fail_if
      (not (nat_beq (length salt) 32)
        || is_empty (trim c.frps_token)
        || is_empty (trim c.frps_binary))
      incomplete_auth
  ok tt

abbrev pub account_leb : ServerUser → ServerUser → Bool
account_leb u v = text_leb u.account v.account

module _ (prims : Primitives) (uuid : ℕ → Text) where
  -- `tunnel.proxy_name = proxy_name_for(&tunnel.id)`, then the checks.
  unfoldable pub check_tunnels :
      List ℕ → ℕ → TunnelSets → List Tunnel → Result Error (List Tunnel × TunnelSets × ℕ)
  check_tunnels reserved n s [] = ok ([], s, n)
  check_tunnels reserved n s (t ∷ ts) =
      let named = record t { proxy_name = (proxy_name_for uuid n t.id).0 } in
      do
        check_tunnel reserved s named
        (rest, s', n') ← check_tunnels reserved (proxy_name_for uuid n t.id).1 (mark s named) ts
        ok (named ∷ rest, s', n')

  -- The account is trimmed and a blank identifier replaced.
  unfoldable pub prepare_user : ℕ → ServerUser → ServerUser × ℕ
  prepare_user n u =
      if is_empty (trim u.id)
      then (record u { account = trim u.account; id = new_user_id uuid n }, n + 1)
      else (record u { account = trim u.account }, n)

  unfoldable pub check_users :
      Text
      → List ℕ
      → ℕ
      → UserSets
      → TunnelSets
      → List ServerUser
      → Result Error (List ServerUser × TunnelSets × ℕ)
  check_users api_salt reserved n us ts [] = ok ([], ts, n)
  check_users api_salt reserved n us ts (u ∷ rest) =
      let user = (prepare_user n u).0 in
      do
        check_user prims api_salt us user
        (tunnels, n1) ←
            map_err tunnel_error (normalize_tunnels uuid (prepare_user n u).1 user.tunnels)
        (checked, ts', n2) ← check_tunnels reserved n1 ts tunnels
        (users, ts'', n3) ← check_users api_salt reserved n2 (mark_user us user) ts' rest
        ok (record user { tunnels = checked } ∷ users, ts'', n3)

  unfoldable pub normalize_loaded_config : ℕ → ServerConfig → Result Error (ServerConfig × ℕ)
  normalize_loaded_config n c = do
    check_server prims c
    (users, sets, n') ← check_users c.api_salt (reserved_ports c) n no_users no_tunnels c.users
    fail_if (any (contains sets.backend_ports) sets.public_port_numbers) public_backend_clash
    ok (record c { users = sort account_leb users }, n')
