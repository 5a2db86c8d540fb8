-- ===== src/Config/Valid.antt =====
-- What a configuration that `normalize_loaded_config` accepts satisfies: the loops.
mod Views
pub mod Users
pub mod Config
use orange_frp.Prelude.{
  ℕ, ◌+◌, ◌-◌, ◌≤◌, ◌<◌, ◌≡◌, refl, true, false, ◌||◌, List, [], ◌∷◌, ◌++◌, map, arith, nat_beq,
  nat_eq, list_eq, pair_eq, Fresh, length, All, contains, ok, fail_if-eq-ok, Text, is_empty,
  is_ascii_alphanumeric, trim, byte_len,
}
use orange_frp.Tunnel.{Tunnel, max_tunnel_limit}
use orange_frp.Tunnel.Checks.{HasFields}
use orange_frp.Tunnel.Normalize.{IsNormal}
use orange_frp.Crypto.{Primitives}
use orange_frp.Config.{
  ServerUser, duplicate_tunnel, reserved_port, public_port_taken, bad_backend_port,
  max_tunnels_per_user,
}
use orange_frp.Config.Normalize.{TunnelSets, public_key, mark, check_tunnel}

-- A tunnel with good fields, whose ports the server does not need for itself.
pub record GoodTunnel (reserved : List ℕ) (t : Tunnel) : Type 0 where
  pub fields : HasFields t
  pub public_free : contains reserved t.remote_port ≡ false
  pub backend_set : 0 < t.backend_port
  pub backend_free : contains reserved t.backend_port ≡ false

-- The tunnels add no identifier, name or port that the sets hold already, nor any twice.
pub record Distinct (s : TunnelSets) (ts : List Tunnel) : Type 0 where
  pub ids : Fresh s.tunnel_ids (map (λ t. t.id) ts)
  pub proxy_names : Fresh s.proxy_names (map (λ t. t.proxy_name) ts)
  pub public_ports : Fresh s.public_ports (map public_key ts)
  pub backends : Fresh s.backend_ports (map (λ t. t.backend_port) ts)

abbrev pub mark_all : TunnelSets → List Tunnel → TunnelSets
mark_all s [] = s
mark_all s (t ∷ ts) = mark_all (mark s t) ts

mark_all-append :
    (s : TunnelSets) (ts us : List Tunnel) → mark_all s (ts ++ us) ≡ mark_all (mark_all s ts) us
mark_all-append s [] us = refl
mark_all-append s (t ∷ ts) us = mark_all-append (mark s t) ts us

Distinct-cons :
    (s : TunnelSets) (t : Tunnel) (ts : List Tunnel)
    → contains s.tunnel_ids t.id ≡ false
    → contains s.proxy_names t.proxy_name ≡ false
    → contains s.public_ports (public_key t) ≡ false
    → contains s.backend_ports t.backend_port ≡ false
    → Distinct (mark s t) ts
    → Distinct s (t ∷ ts)
unfolding mark
Distinct-cons s t ts a b c d v = record {
  ids = (a, v.ids);
  proxy_names = (b, v.proxy_names);
  public_ports = (c, v.public_ports);
  backends = (d, v.backends);
}

Distinct-append :
    (s : TunnelSets) (ts us : List Tunnel)
    → Distinct s ts
    → Distinct (mark_all s ts) us
    → Distinct s (ts ++ us)
unfolding mark
Distinct-append s [] us v w = w
Distinct-append s (t ∷ ts) us v w =
    Distinct-cons s t (ts ++ us) v.ids.0 v.proxy_names.0 v.public_ports.0 v.backends.0 (
      Distinct-append (mark s t) ts us
        (record {
          ids = v.ids.1;
          proxy_names = v.proxy_names.1;
          public_ports = v.public_ports.1;
          backends = v.backends.1;
        })
        w)

-- What one tunnel's checks say.
record Passed (reserved : List ℕ) (s : TunnelSets) (t : Tunnel) : Type 0 where
  id_new : contains s.tunnel_ids t.id ≡ false
  name_new : contains s.proxy_names t.proxy_name ≡ false
  public_new : contains s.public_ports (public_key t) ≡ false
  backend_new : contains s.backend_ports t.backend_port ≡ false
  public_free : contains reserved t.remote_port ≡ false
  backend_set : 0 < t.backend_port
  backend_free : contains reserved t.backend_port ≡ false

check_tunnel-Passed :
    (reserved : List ℕ) (s : TunnelSets) (t : Tunnel)
    → check_tunnel reserved s t ≡ ok tt
    → Passed reserved s t
unfolding check_tunnel
check_tunnel-Passed reserved s t h =
    let (a, h1) =
      fail_if-eq-ok (contains s.tunnel_ids t.id || contains s.proxy_names t.proxy_name)
        duplicate_tunnel _ h in
    let (b, h2) = fail_if-eq-ok (contains reserved t.remote_port) reserved_port _ h1 in
    let (c, h3) = fail_if-eq-ok (contains s.public_ports (public_key t)) public_port_taken _ h2 in
    let (d, h4) =
      fail_if-eq-ok
        (nat_beq t.backend_port 0
          || contains reserved t.backend_port
          || contains s.backend_ports t.backend_port)
        bad_backend_port _ h3 in
    record {
      id_new = ground arith;
      name_new = ground arith;
      public_new = c;
      backend_new = ground arith;
      public_free = b;
      backend_set = ground arith;
      backend_free = ground arith;
    }

HasFields-renamed : (t : Tunnel) (p : Text) → HasFields t → HasFields (record t { proxy_name = p })
HasFields-renamed t p v = record {
  transport = v.transport;
  named = v.named;
  remarked = v.remarked;
  placed = v.placed;
  name_fits = v.name_fits;
  remark_fits = v.remark_fits;
  ip_fits = v.ip_fits;
  name_printable = v.name_printable;
  remark_printable = v.remark_printable;
  ip_printable = v.ip_printable;
  local_port_set = v.local_port_set;
  remote_port_set = v.remote_port_set;
}

All-fields : (ts : List Tunnel) → All IsNormal ts → All HasFields ts
All-fields [] a = tt
All-fields (t ∷ ts) a = (a.0.fields, All-fields ts a.1)

-- A user as the server accepts it.
pub record GoodUser (prims : Primitives) (api_salt : Text) (reserved : List ℕ) (u : ServerUser)
    : Type 0 where
  pub account_set : is_empty u.account ≡ false
  pub hash_set : is_empty (trim u.password_hash) ≡ false
  pub secret_size : byte_len u.secret ≡ 36
  pub secret_alphanumeric : All (λ c. is_ascii_alphanumeric c ≡ true) u.secret
  pub limit_fits : u.tunnel_limit ≤ max_tunnel_limit
  pub tunnels_fit : length u.tunnels ≤ max_tunnels_per_user
  pub tunnels_good : All (GoodTunnel reserved) u.tunnels

abbrev pub all_tunnels : List ServerUser → List Tunnel
all_tunnels [] = []
all_tunnels (u ∷ us) = u.tunnels ++ all_tunnels us
