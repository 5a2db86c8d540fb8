-- ===== src/Api/Tunnels/Ports.antt =====
-- The ports that `normalize_user_tunnels` of server-package/crates/frp-game-server/src/app.rs keeps or
-- allocates, described without its tables.
use orange_frp.Prelude.{
  ℕ, zero, suc, ◌≤◌, ◌≡◌, refl, sym, ap, ◌∙◌, subst, ◌≢◌, ◌⊎◌, inl, inr, false, not, ◌||◌, none,
  some, List, [], ◌∷◌, ◌++◌, map, arith, ltb, if◌then◌else◌, Bool-cases, ◌==◌, nat_eq, list_eq,
  list_beq_iff, pair_eq, get_elem?, all, All, contains, contains-append, lookup, insert,
  lookup-insert, ok, >>=-eq-ok, fail_if-eq-ok, Text, byte_len,
}
use orange_frp.Tunnel.{Tunnel, proxy_name_for}
use orange_frp.Config.{
  ServerConfig, ServerUser, reserved_ports, backend_port_start, backend_port_end, bad_tunnel_id,
  duplicate_tunnel, reserved_port, backend_clash,
}
use orange_frp.Api.Tunnels.{
  backends_of, collect_backends, used_by_users, is_id_char, check_others, backend_for,
  assign_backends,
}
use orange_frp.Api.Tunnels.Accepted.{Backend}

abbrev pub publics_of : List Tunnel → List ℕ
publics_of tunnels = map (λ t. t.remote_port) tunnels

-- A port of the range that is neither a public port of the tunnels to be saved, nor a port of the
-- server, nor a backend port of any user, nor a public port of another user.
pub record IsFree (config : ServerConfig) (current : ServerUser) (saved : List Tunnel) (p : ℕ)
    : Type 0 where
  pub low : backend_port_start ≤ p
  pub high : p ≤ backend_port_end
  pub not_public : contains (publics_of saved) p ≡ false
  pub not_reserved : contains (reserved_ports config) p ≡ false
  pub unused :
      (j : ℕ) (v : ServerUser)
      → get_elem? config.users j ≡ some v
      → (contains (backends_of v.tunnels) p ≡ false)
        × (v.id ≢ current.id → contains (publics_of v.tunnels) p ≡ false)

-- The backend port of the user's tunnel with the same identifier, or a free one if there is none.
abbrev pub HasBackend : ServerConfig → ServerUser → List Tunnel → Tunnel → Type 0
HasBackend config current saved t =
    ((j : ℕ) × (old : Tunnel) × (get_elem? current.tunnels j ≡ some old)
      × (old.id ≡ t.id)
      × (old.backend_port ≡ t.backend_port))
    ⊎ ((contains (map (λ old. old.id) current.tunnels) t.id ≡ false)
        × IsFree config current saved t.backend_port)

-- What the assignment of names and backend ports leaves alone.
abbrev pub stripped : Tunnel → Tunnel
stripped t = record t { proxy_name = []; backend_port = 0 }

publics_of-stripped : (ts : List Tunnel) → publics_of (map stripped ts) ≡ publics_of ts
publics_of-stripped [] = refl
publics_of-stripped (t ∷ ts) = ap (◌∷◌ t.remote_port) (publics_of-stripped ts)

pub same_publics :
    (ts us : List Tunnel) → map stripped ts ≡ map stripped us → publics_of ts ≡ publics_of us
same_publics ts us h = sym (publics_of-stripped ts) ∙ ap publics_of h ∙ publics_of-stripped us

pub assign_backends-stripped :
    (uuid : ℕ → Text) (reserved backends : List ℕ) (others : List Tunnel)
    (existing : List (Text × ℕ)) (n : ℕ) (ids names : List Text) (used : List ℕ)
    (ts ts' : List Tunnel) (n' : ℕ)
    → assign_backends uuid reserved backends others existing n ids names used ts ≡ ok (ts', n')
    → map stripped ts' ≡ map stripped ts
unfolding assign_backends
assign_backends-stripped uuid reserved backends others existing n ids names used [] ts' n' h =
    let e : [] ≡ ts' = cc h in ap (map stripped) (sym e)
assign_backends-stripped uuid reserved backends others existing n ids names used (t ∷ ts) ts' n' h =
    let named = record t { proxy_name = (proxy_name_for uuid n t.id).0 } in
    let (_, h1) =
      fail_if-eq-ok (ltb 64 (byte_len t.id) || not (all is_id_char t.id)) bad_tunnel_id _ h in
    let (_, h2) =
      fail_if-eq-ok (contains ids t.id || contains names named.proxy_name) duplicate_tunnel _ h1 in
    let (_, h3) = fail_if-eq-ok (contains reserved t.remote_port) reserved_port _ h2 in
    let (_, h4) = fail_if-eq-ok (contains backends t.remote_port) backend_clash _ h3 in
    let (checked, _, h5) = >>=-eq-ok (check_others others named) _ h4 in
    let ((port, used'), _, h6) = >>=-eq-ok (backend_for existing used t.id) _ h5 in
    let ((rest, n''), loop, last) =
      >>=-eq-ok
        (assign_backends uuid reserved backends others existing (proxy_name_for uuid n t.id).1
          (t.id ∷ ids) (named.proxy_name ∷ names) used' ts)
        _ h6 in
    let e : record named { backend_port = port } ∷ rest ≡ ts' = cc last in
    let rest_same : map stripped rest ≡ map stripped ts =
      assign_backends-stripped uuid reserved backends others existing (proxy_name_for uuid n t.id).1
        (t.id ∷ ids) (named.proxy_name ∷ names) used' ts rest n'' loop in
    subst (λ us. map stripped us ≡ stripped t ∷ map stripped ts) e (ap (◌∷◌ (stripped t)) rest_same)

collect_backends-found :
    (ts : List Tunnel) (m : List (Text × ℕ)) (id : Text) (p : ℕ)
    → lookup id (collect_backends ts m) ≡ some p
    → (lookup id m ≡ some p)
      ⊎ ((j : ℕ) × (old : Tunnel) × (get_elem? ts j ≡ some old)
          × (old.id ≡ id)
          × (old.backend_port ≡ p))
unfolding collect_backends
collect_backends-found [] m id p h = inl h
collect_backends-found (t ∷ ts) m id p h =
    elim (collect_backends-found ts (insert t.id t.backend_port m) id p h) [
      | inr (j, old, at, same, port) ↦ inr (suc j, old, at, same, port)
      | inl here ↦ elim (Bool-cases (t.id == id)) [
        | inr other ↦ inl (rw other at (rw (lookup-insert t.id id t.backend_port m) at here))
        | inl same ↦
            let e : some t.backend_port ≡ some p =
              rw same at (rw (lookup-insert t.id id t.backend_port m) at here) in
            inr (0, t, refl, (list_beq_iff t.id id).0 same, cc e)
      ]
    ]

collect_backends-none :
    (ts : List Tunnel) (m : List (Text × ℕ)) (id : Text)
    → lookup id (collect_backends ts m) ≡ none
    → (lookup id m ≡ none) × (contains (map (λ t. t.id) ts) id ≡ false)
unfolding collect_backends
collect_backends-none [] m id h = (h, refl)
collect_backends-none (t ∷ ts) m id h =
    let (absent, rest) = collect_backends-none ts (insert t.id t.backend_port m) id h in
    elim (Bool-cases (t.id == id)) [
      | inl same ↦ absurd (cc (rw same at (rw (lookup-insert t.id id t.backend_port m) at absent)))
      | inr other ↦
          (rw other at (rw (lookup-insert t.id id t.backend_port m) at absent), rw other rest)
    ]

append_absent :
    (xs ys : List ℕ) (p : ℕ)
    → contains (xs ++ ys) p ≡ false
    → (contains xs p ≡ false) × (contains ys p ≡ false)
append_absent xs ys p h = ground (arith, contains-append xs ys p)

abbrev Unused : Text → ℕ → ServerUser → Type 0
Unused current p v =
    (contains (backends_of v.tunnels) p ≡ false)
    × (v.id ≢ current → contains (publics_of v.tunnels) p ≡ false)

-- The first user and the others.
Unused-parts :
    (current : Text) (u : ServerUser) (users : List ServerUser) (p : ℕ)
    → contains (used_by_users current (u ∷ users)) p ≡ false
    → Unused current p u × (contains (used_by_users current users) p ≡ false)
unfolding used_by_users
Unused-parts current u users p h =
    let shared = if not (u.id == current) then publics_of u.tunnels else [] in
    let (mine, others) = append_absent (backends_of u.tunnels) _ p h in
    let (public, later) = append_absent shared (used_by_users current users) p others in
    (
      (
        mine,
        λ differs. elim (Bool-cases (u.id == current)) [
          | inl e ↦ absurd (differs ((list_beq_iff u.id current).0 e))
          | inr e ↦ rw e at public
        ],
      ),
      later,
    )

Unused-by_users :
    (current : Text) (users : List ServerUser) (p : ℕ)
    → contains (used_by_users current users) p ≡ false
    → (j : ℕ) (v : ServerUser) → get_elem? users j ≡ some v
    → Unused current p v
Unused-by_users current [] p h j v at = absurd (cc at)
Unused-by_users current (u ∷ users) p h zero v at =
    let same : u ≡ v = cc at in subst (Unused current p) same (Unused-parts current u users p h).0
Unused-by_users current (u ∷ users) p h (suc j) v at =
    Unused-by_users current users p (Unused-parts current u users p h).1 j v at

-- A port that the code takes for the old one or for a free one is such a port.
pub Backend-HasBackend :
    (config : ServerConfig) (current : ServerUser) (saved : List Tunnel) (t : Tunnel)
    → Backend
        (collect_backends current.tunnels [])
        (publics_of saved ++ (used_by_users current.id config.users ++ reserved_ports config))
        t
    → HasBackend config current saved t
Backend-HasBackend config current saved t (inl old) =
    elim (collect_backends-found current.tunnels [] t.id t.backend_port old) [
      | inl nothing ↦ absurd (cc nothing)
      | inr found ↦ inl found
    ]
Backend-HasBackend config current saved t (inr (absent, low, high, free)) =
    let p = t.backend_port in
    let (not_public, rest) = append_absent (publics_of saved) _ p free in
    let (by_users, not_reserved) =
      append_absent (used_by_users current.id config.users) (reserved_ports config) p rest in
    inr (
      (collect_backends-none current.tunnels [] t.id absent).1,
      record {
        low = low;
        high = high;
        not_public = not_public;
        not_reserved = not_reserved;
        unused = Unused-by_users current.id config.users p by_users;
      },
    )

pub All-HasBackend :
    (config : ServerConfig) (current : ServerUser) (saved ts : List Tunnel)
    → All
        (Backend
          (collect_backends current.tunnels [])
          (publics_of saved ++ (used_by_users current.id config.users ++ reserved_ports config)))
        ts
    → All (HasBackend config current saved) ts
All-HasBackend config current saved [] a = tt
All-HasBackend config current saved (t ∷ ts) a =
    (Backend-HasBackend config current saved t a.0, All-HasBackend config current saved ts a.1)
