-- ===== src/Api/Tunnels/Backends.antt =====
-- The whole of `normalize_user_tunnels`, on a valid configuration.
use orange_frp.Prelude.{
  ℕ, zero, suc, ◌≤◌, ◌≡◌, refl, sym, subst, ◌⊎◌, inl, inr, true, false, not, ◌&&◌, some, List, [],
  ◌∷◌, ◌++◌, map, arith, ltb, if◌then◌else◌, nat_beq_iff, Bool-cases, ◌==◌, nat_eq, list_eq,
  list_beq_iff, pair_eq, length, get_elem?, All, contains, count, count-append, Nodup,
  contains-append, lookup, insert, lookup-insert, ok, map_err, ok_or, >>=-eq-ok, fail_if-eq-ok,
  ok_or-eq-ok, map_err-eq-ok, Text,
}
use mathlib.Core.List.{map-append}
use orange_frp.Tunnel.{Tunnel, normalize_tunnels}
use orange_frp.Crypto.{Primitives}
use orange_frp.Config.{
  ServerConfig, ServerUser, reserved_ports, tunnel_error, over_tunnel_limit, too_many_tunnels,
  index_out_of_range, max_tunnels_per_user,
}
use orange_frp.Config.Valid.{all_tunnels}
use orange_frp.Config.Valid.Config.{IsValid}
use orange_frp.Controller.Specs.{count-Nodup}
use orange_frp.Api.Tunnels.{
  tunnels_of, tunnels_except, backends_of, collect_backends, used_by_users, initial_ports,
  normalize_user_tunnels,
}
use orange_frp.Api.Tunnels.Ports.{
  stripped, HasBackend, All-HasBackend, assign_backends-stripped, same_publics,
}
use orange_frp.Api.Tunnels.Accepted.{Backend, AreKept, Assigned, assign_backends-Assigned}

lookup-collect_backends :
    (ts : List Tunnel) (m : List (Text × ℕ)) (id : Text) (p : ℕ)
    → lookup id (collect_backends ts m) ≡ some p
    → (lookup id m ≡ some p) ⊎ (contains (backends_of ts) p ≡ true)
unfolding collect_backends
lookup-collect_backends [] m id p h = inl h
lookup-collect_backends (t ∷ ts) m id p h =
    elim (lookup-collect_backends ts (insert t.id t.backend_port m) id p h) [
      | inr later ↦ inr (ground arith)
      | inl here ↦
          ground (arith, lookup-insert t.id id t.backend_port m, nat_beq_iff t.backend_port p)
    ]

record Injective (m : List (Text × ℕ)) : Type 0 where
  distinct : (a b : Text) (p : ℕ) → lookup a m ≡ some p → lookup b m ≡ some p → a ≡ b

-- No port of the map is one of the list.
abbrev Avoids : List (Text × ℕ) → List ℕ → Type 0
Avoids m ports = (a : Text) (p : ℕ) → lookup a m ≡ some p → contains ports p ≡ false

Injective-insert :
    (m : List (Text × ℕ)) (id : Text) (port : ℕ) (ports : List ℕ)
    → Injective m
    → Avoids m (port ∷ ports)
    → Injective (insert id port m)
Injective-insert m id port ports i avoids = record {
  distinct = λ a b p ha hb. ground (
    arith,
    lookup-insert id a port m,
    lookup-insert id b port m,
    list_beq_iff id a,
    list_beq_iff id b,
    ha,
    hb,
    i.distinct a b p,
    avoids a p,
    avoids b p,
    nat_beq_iff port p,
  );
}

Avoids-insert :
    (m : List (Text × ℕ)) (id : Text) (port : ℕ) (ports : List ℕ)
    → Avoids m (port ∷ ports)
    → contains ports port ≡ false
    → Avoids (insert id port m) ports
Avoids-insert m id port ports avoids h a p found = elim (Bool-cases (id == a)) [
  | inl same ↦
      let e : some port ≡ some p = rw same at (rw (lookup-insert id a port m) at found) in
      let e' : port ≡ p = cc e in subst (λ q. contains ports q ≡ false) e' h
  | inr other ↦
      let old = rw other at (rw (lookup-insert id a port m) at found) in
      ground (arith, avoids a p old)
]

Injective-collect_backends :
    (ts : List Tunnel) (m : List (Text × ℕ))
    → Injective m
    → Avoids m (backends_of ts)
    → Nodup (backends_of ts)
    → Injective (collect_backends ts m)
unfolding collect_backends
Injective-collect_backends [] m i avoids d = i
Injective-collect_backends (t ∷ ts) m i avoids d =
    Injective-collect_backends ts (insert t.id t.backend_port m)
      (Injective-insert m t.id t.backend_port (backends_of ts) i avoids)
      (Avoids-insert m t.id t.backend_port (backends_of ts) avoids d.0) d.1

-- The tunnels of the user at an index are among the tunnels of all.
used_by_users-backends :
    (current : Text) (users : List ServerUser) (i : ℕ) (u : ServerUser) (p : ℕ)
    → get_elem? users i ≡ some u
    → contains (backends_of u.tunnels) p ≡ true
    → contains (used_by_users current users) p ≡ true
unfolding used_by_users
used_by_users-backends current [] i u p here h = absurd cc
used_by_users-backends current (v ∷ users) zero u p here h =
    let same : v ≡ u = cc here in
    rw (contains-append (backends_of v.tunnels) _ p)
      (rw (subst (λ x. contains (backends_of x.tunnels) p ≡ true) (sym same) h) refl)
used_by_users-backends current (v ∷ users) (suc i) u p here h =
    let later = used_by_users-backends current users i u p here h in
    rw (contains-append (backends_of v.tunnels) _ p) (
      rw
        (contains-append (if not (v.id == current) then map (λ t. t.remote_port) v.tunnels else [])
          (used_by_users current users) p)
        (ground arith))

count-backends :
    (users : List ServerUser) (i : ℕ) (u : ServerUser) (p : ℕ)
    → get_elem? users i ≡ some u
    → count p (backends_of u.tunnels) ≤ count p (map (λ t. t.backend_port) (all_tunnels users))
count-backends [] i u p here = absurd cc
count-backends (v ∷ users) zero u p here =
    let same : v ≡ u = cc here in
    rw (sym same) (
      rw (map-append (λ t. t.backend_port) v.tunnels (all_tunnels users)) (
        omega (
          arith,
          count-append p (backends_of v.tunnels) (map (λ t. t.backend_port) (all_tunnels users)),
        )))
count-backends (v ∷ users) (suc i) u p here =
    rw (map-append (λ t. t.backend_port) v.tunnels (all_tunnels users)) (
      omega (
        arith,
        count-append p (backends_of v.tunnels) (map (λ t. t.backend_port) (all_tunnels users)),
        count-backends users i u p here,
      ))

AreKept-collect_backends :
    (uuid : ℕ → Text) (prims : Primitives) (config : ServerConfig) (i : ℕ) (current : ServerUser)
    (tunnels : List Tunnel)
    → IsValid prims config
    → get_elem? config.users i ≡ some current
    → AreKept (collect_backends current.tunnels []) (initial_ports uuid config current tunnels)
AreKept-collect_backends uuid prims config i current tunnels v here = record {
  covered = λ id p h. rw (contains-append (map (λ t. t.remote_port) tunnels) _ p) (
      rw (contains-append (used_by_users current.id config.users) (reserved_ports config) p) (
        rw (used_by_users-backends current.id config.users i current p here (old id p h))
          (ground arith)));
  injective =
      (Injective-collect_backends current.tunnels [] (record { distinct = λ a b p h k. absurd cc })
        (λ a p h. absurd cc)
        (count-Nodup _ (λ p.
          omega (arith, count-backends config.users i current p here, v.backends p)))).distinct;
}
  where
    old :
        (id : Text) (p : ℕ)
        → lookup id (collect_backends current.tunnels []) ≡ some p
        → contains (backends_of current.tunnels) p ≡ true
    old id p h = elim (lookup-collect_backends current.tunnels [] id p h) [
      | inl nothing ↦ absurd cc
      | inr found ↦ found
    ]

-- What the user at an index may save: the normalised tunnels, with the names and ports of the
-- server.
pub record MaySave (uuid : ℕ → Text) (n : ℕ) (config : ServerConfig) (i : ℕ)
    (tunnels saved : List Tunnel) : Type 0 where
  pub current : ServerUser
  pub here : get_elem? config.users i ≡ some current
  pub normalized : List Tunnel
  pub issued : ℕ
  pub normal : normalize_tunnels uuid n tunnels ≡ ok (normalized, issued)
  pub requested : map stripped saved ≡ map stripped normalized
  pub backends : All (HasBackend config current saved) saved
  pub limited : (length tunnels ≤ current.tunnel_limit) ⊎ (length tunnels ≤ length current.tunnels)
  pub few : length tunnels ≤ max_tunnels_per_user
  pub assigned :
      Assigned uuid
        (reserved_ports config)
        (backends_of (tunnels_of config.users))
        (tunnels_except i config.users)
        (collect_backends current.tunnels [])
        []
        []
        (initial_ports uuid config current normalized)
        saved

-- From a valid configuration the server only accepts the normalised tunnels, within the user's
-- limit or number, with identifiers, proxy names and backend ports that are distinct, whose public
-- ports are neither the server's own nor backend ports nor taken by another user. A known tunnel
-- keeps its backend port; a new one gets a port of the range that is no public port of the saved
-- tunnels or of another user, no backend port of any user and no port of the server.
pub normalize_user_tunnels-MaySave :
    (uuid : ℕ → Text) (prims : Primitives) (n : ℕ) (config : ServerConfig) (i : ℕ)
    (tunnels saved : List Tunnel) (n' : ℕ)
    → IsValid prims config
    → normalize_user_tunnels uuid n config i tunnels ≡ ok (saved, n')
    → MaySave uuid n config i tunnels saved
unfolding normalize_user_tunnels
normalize_user_tunnels-MaySave uuid prims n config i tunnels saved n' v h =
    let (current, a, h1) = >>=-eq-ok (ok_or (get_elem? config.users i) index_out_of_range) _ h in
    let here = ok_or-eq-ok (get_elem? config.users i) index_out_of_range a in
    let (b, h2) =
      fail_if-eq-ok
        (ltb current.tunnel_limit (length tunnels) && ltb (length current.tunnels) (length tunnels))
        over_tunnel_limit _ h1 in
    let (c, h3) = fail_if-eq-ok (ltb max_tunnels_per_user (length tunnels)) too_many_tunnels _ h2 in
    let ((normalized, n1), d, h4) =
      >>=-eq-ok (map_err tunnel_error (normalize_tunnels uuid n tunnels)) _ h3 in
    let assigned =
      assign_backends-Assigned uuid (reserved_ports config) (backends_of (tunnels_of config.users))
        (tunnels_except i config.users) (collect_backends current.tunnels []) n1 [] []
        (initial_ports uuid config current normalized) normalized saved n'
        (AreKept-collect_backends uuid prims config i current normalized v here) h4 in
    let requested =
      assign_backends-stripped uuid (reserved_ports config) (backends_of (tunnels_of config.users))
        (tunnels_except i config.users) (collect_backends current.tunnels []) n1 [] []
        (initial_ports uuid config current normalized) normalized saved n' h4 in
    let used = λ (publics : List ℕ).
      publics ++ (used_by_users current.id config.users ++ reserved_ports config) in
    record {
      current = current;
      here = here;
      normalized = normalized;
      issued = n1;
      normal = map_err-eq-ok tunnel_error (normalize_tunnels uuid n tunnels) d;
      requested = requested;
      backends = All-HasBackend config current saved saved (
          subst
            (λ publics. All (Backend (collect_backends current.tunnels []) (used publics)) saved)
            (sym (same_publics saved normalized requested)) assigned.ports);
      limited = ground arith;
      few = ground arith;
      assigned = assigned;
    }
