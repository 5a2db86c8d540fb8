-- ===== src/Api/Tunnels.antt =====
-- `normalize_user_tunnels` of server-package/crates/frp-game-server/src/app.rs: the tunnels that a
-- user wants to save. An index that is out of range would panic.
pub mod Accepted
pub mod Backends
pub mod Ports
use orange_frp.Prelude.{
  ℕ, zero, suc, ◌+◌, ◌-◌, Bool, not, ◌&&◌, ◌||◌, none, some, List, [], ◌∷◌, ◌++◌, map, ltb,
  if◌then◌else◌, ◌==◌, nat_eq, list_eq, pair_eq, length, get_elem?, all, contains, lookup, insert,
  Result, ok, ◌>>=◌, ◌>>◌, fail_if, map_err, ok_or, Text, is_ascii_alphanumeric, byte_len,
}
use orange_frp.Tunnel.{Tunnel, proxy_name_for, normalize_tunnels}
use orange_frp.Config.{
  ServerConfig, ServerUser, Error, reserved_ports, allocate_backend_port, max_tunnels_per_user,
  over_tunnel_limit, too_many_tunnels, bad_tunnel_id, duplicate_tunnel, reserved_port,
  backend_clash, public_port_taken, proxy_name_taken, index_out_of_range, tunnel_error,
}

-- The tunnels of a list of users, and those of the users but one.
abbrev pub tunnels_of : List ServerUser → List Tunnel
tunnels_of [] = []
tunnels_of (user ∷ users) = user.tunnels ++ tunnels_of users

unfoldable pub tunnels_except : ℕ → List ServerUser → List Tunnel
tunnels_except i [] = []
tunnels_except zero (user ∷ users) = tunnels_of users
tunnels_except (suc i) (user ∷ users) = user.tunnels ++ tunnels_except i users

abbrev pub backends_of : List Tunnel → List ℕ
backends_of tunnels = map (λ t. t.backend_port) tunnels

-- `existing_backends`.
unfoldable pub collect_backends : List Tunnel → List (Text × ℕ) → List (Text × ℕ)
collect_backends [] m = m
collect_backends (t ∷ ts) m = collect_backends ts (insert t.id t.backend_port m)

-- The ports that the two loops over the users put into `used_ports`.
unfoldable pub used_by_users : Text → List ServerUser → List ℕ
used_by_users current [] = []
used_by_users current (user ∷ users) =
    backends_of user.tunnels
    ++ ((if not (user.id == current) then map (λ t. t.remote_port) user.tunnels else [])
        ++ used_by_users current users)

unfoldable pub is_id_char : ℕ → Bool
is_id_char c = is_ascii_alphanumeric c || c == b'-' || c == b'_'

-- The comparison with the tunnels of the other users.
unfoldable pub check_others : List Tunnel → Tunnel → Result Error (Unit {0})
check_others [] t = ok tt
check_others (other ∷ others) t = do
  fail_if (other.protocol == t.protocol && other.remote_port == t.remote_port) public_port_taken
  fail_if (other.proxy_name == t.proxy_name) proxy_name_taken
  check_others others t

-- The old port of the tunnel, or a new one.
unfoldable pub backend_for : List (Text × ℕ) → List ℕ → Text → Result Error (ℕ × List ℕ)
backend_for existing used id = elim (lookup id existing) [
  | none ↦ allocate_backend_port used
  | some port ↦ ok (port, used)
]

module _ (uuid : ℕ → Text) (reserved backends : List ℕ) (others : List Tunnel)
    (existing : List (Text × ℕ)) where
  -- The loop over the normalised tunnels.
  unfoldable pub assign_backends :
      ℕ → List Text → List Text → List ℕ → List Tunnel → Result Error (List Tunnel × ℕ)
  unfolding is_id_char check_others backend_for
  assign_backends n ids names used [] = ok ([], n)
  assign_backends n ids names used (t ∷ ts) =
      let named = record t { proxy_name = (proxy_name_for uuid n t.id).0 } in
      do
        fail_if (ltb 64 (byte_len t.id) || not (all is_id_char t.id)) bad_tunnel_id
        fail_if (contains ids t.id || contains names named.proxy_name) duplicate_tunnel
        fail_if (contains reserved t.remote_port) reserved_port
        fail_if (contains backends t.remote_port) backend_clash
        done ← check_others others named
        (port, used') ← backend_for existing used t.id
        (rest, n') ←
            assign_backends (proxy_name_for uuid n t.id).1 (t.id ∷ ids) (named.proxy_name ∷ names)
              used' ts
        ok (record named { backend_port = port } ∷ rest, n')

module _ (uuid : ℕ → Text) where
  -- `used_ports` before the loop.
  abbrev pub initial_ports : ServerConfig → ServerUser → List Tunnel → List ℕ
  initial_ports config current tunnels =
      map (λ t. t.remote_port) tunnels
      ++ (used_by_users current.id config.users ++ reserved_ports config)

  unfoldable pub normalize_user_tunnels :
      ℕ → ServerConfig → ℕ → List Tunnel → Result Error (List Tunnel × ℕ)
  unfolding assign_backends tunnels_except collect_backends used_by_users
  normalize_user_tunnels n config user_index tunnels = do
    current ← ok_or (get_elem? config.users user_index) index_out_of_range
    fail_if
        (ltb current.tunnel_limit (length tunnels) && ltb (length current.tunnels) (length tunnels))
        over_tunnel_limit
    fail_if (ltb max_tunnels_per_user (length tunnels)) too_many_tunnels
    (normalized, n1) ← map_err tunnel_error (normalize_tunnels uuid n tunnels)
    assign_backends uuid (reserved_ports config) (backends_of (tunnels_of config.users))
        (tunnels_except user_index config.users) (collect_backends current.tunnels []) n1 [] []
        (initial_ports config current normalized) normalized
