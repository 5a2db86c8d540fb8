-- ===== src/Controller/Specs.antt =====
-- The specifications that a configuration wants: one for each tunnel.
use orange_frp.Prelude.{
  ℕ, ◌≤◌, ◌≡◌, refl, sym, ap, ◌∙◌, subst, true, false, ◌||◌, some, List, [], ◌∷◌, ◌++◌, map, arith,
  Eq, ◌==◌, nat_eq, beq_refl, list_eq, list_beq_iff, pair_eq, AllValues, AllValues-insert,
  All-append, All, contains, count, count-zero, Nodup, lookup, insert, lookup-insert, Text,
}
use orange_frp.Tunnel.{Tunnel, tcp, udp}
use orange_frp.Tunnel.Checks.{HasFields}
use orange_frp.Crypto.{Primitives}
use orange_frp.Config.{ServerConfig, ServerUser, reserved_ports}
use orange_frp.Config.Valid.{GoodTunnel, GoodUser, all_tunnels}
use orange_frp.Config.Valid.Config.{IsValid}
use orange_frp.Controller.{TunnelSpec, Specs, tunnel_spec, all_specs, collect, desired}

abbrev names : List TunnelSpec → List Text
names specs = map (λ s. s.proxy_name) specs

pub count-Nodup {ℓ} : {A : Type ℓ} ⦃e : Eq A⦄ (xs : List A) → ((a : A) → count a xs ≤ 1) → Nodup xs
count-Nodup [] h = tt
count-Nodup (x ∷ xs) h = (
  count-zero x xs (let one : count x (x ∷ xs) ≤ 1 = h x in omega (arith, rw (beq_refl x) at one)),
  count-Nodup xs (λ a. omega (arith, h a)),
)

lookup-collect-absent :
    (specs : List TunnelSpec) (m : Specs) (key : Text)
    → contains (names specs) key ≡ false
    → lookup key (collect specs m) ≡ lookup key m
unfolding collect
lookup-collect-absent [] m key h = refl
lookup-collect-absent (s ∷ specs) m key h =
    lookup-collect-absent specs (insert s.proxy_name s m) key (ground arith)
    ∙ rw (lookup-insert s.proxy_name key s m) (ground arith)

lookup-collect :
    (specs : List TunnelSpec) (m : Specs)
    → Nodup (names specs)
    → All (λ s. lookup s.proxy_name (collect specs m) ≡ some s) specs
unfolding collect
lookup-collect [] m d = tt
lookup-collect (s ∷ specs) m d = (
  lookup-collect-absent specs (insert s.proxy_name s m) s.proxy_name d.0
      ∙ rw (lookup-insert s.proxy_name s.proxy_name s m) (rw (beq_refl s.proxy_name) refl),
  lookup-collect specs (insert s.proxy_name s m) d.1,
)

names-all_specs :
    (public_bind : Text) (users : List ServerUser)
    → names (all_specs public_bind users) ≡ map (λ t. t.proxy_name) (all_tunnels users)
unfolding all_specs tunnel_spec
names-all_specs public_bind [] = refl
names-all_specs public_bind (u ∷ users) = go u.tunnels (names-all_specs public_bind users)
  where
    go :
        (ts : List Tunnel)
        → names (all_specs public_bind users) ≡ map (λ t. t.proxy_name) (all_tunnels users)
        → names (map (tunnel_spec public_bind u) ts ++ all_specs public_bind users)
          ≡ map (λ t. t.proxy_name) (ts ++ all_tunnels users)
    go [] e = e
    go (t ∷ ts) e = ap (◌∷◌ t.proxy_name) (go ts e)

All-unmap {ℓ κ μ} :
    {A : Type ℓ} {B : Type κ} (P : B → Type μ) (f : A → B) (xs : List A) (ys : List B)
    → All P (map f xs ++ ys)
    → All (λ x. P (f x)) xs × All P ys
All-unmap P f [] ys a = (tt, a)
All-unmap P f (x ∷ xs) ys a = let (b, c) = All-unmap P f xs ys a.1 in ((a.0, b), c)

All-all_specs {ℓ} :
    (P : TunnelSpec → Type ℓ) (public_bind : Text) (users : List ServerUser)
    → All P (all_specs public_bind users)
    → All (λ u. All (λ t. P (tunnel_spec public_bind u t)) u.tunnels) users
unfolding all_specs
All-all_specs P public_bind [] a = tt
All-all_specs P public_bind (u ∷ users) a =
    let (b, c) = All-unmap P (tunnel_spec public_bind u) u.tunnels _ a in
    (b, All-all_specs P public_bind users c)

-- A valid configuration wants, under the proxy name of each tunnel of each user, just that tunnel.
pub desired-tunnels :
    (prims : Primitives) (config : ServerConfig)
    → IsValid prims config
    → All
        (λ u.
          All
            (λ t. lookup t.proxy_name (desired config) ≡ some (tunnel_spec config.public_bind u t))
            u.tunnels)
        config.users
unfolding desired tunnel_spec
desired-tunnels prims config v =
    All-all_specs (λ s. lookup s.proxy_name (desired config) ≡ some s) config.public_bind
      config.users
      (lookup-collect (all_specs config.public_bind config.users) [] (
        subst Nodup (sym (names-all_specs config.public_bind config.users))
          (count-Nodup _ v.proxy_names)))

-- What starting needs of a specification: a user of the configuration and a protocol.
pub record Wanted (ids : List Text) (s : TunnelSpec) : Type 0 where
  pub known : contains ids s.user_id ≡ true
  pub transport : (s.protocol == tcp || s.protocol == udp) ≡ true

transport-tested : (t : Tunnel) → HasFields t → (t.protocol == tcp || t.protocol == udp) ≡ true
transport-tested t h =
    ground (arith, h.transport, list_beq_iff t.protocol tcp, list_beq_iff t.protocol udp)

tunnels-Wanted :
    (ids : List Text) (public_bind : Text) (reserved : List ℕ) (u : ServerUser) (ts : List Tunnel)
    → contains ids u.id ≡ true
    → All (GoodTunnel reserved) ts
    → All (Wanted ids) (map (tunnel_spec public_bind u) ts)
unfolding tunnel_spec
tunnels-Wanted ids public_bind reserved u [] known g = tt
tunnels-Wanted ids public_bind reserved u (t ∷ ts) known g = (
  record { known = known; transport = transport-tested t g.0.fields },
  tunnels-Wanted ids public_bind reserved u ts known g.1,
)

users-Wanted :
    (prims : Primitives) (api_salt : Text) (reserved : List ℕ) (public_bind : Text)
    (ids : List Text) (users : List ServerUser)
    → All (λ u. contains ids u.id ≡ true) users
    → All (GoodUser prims api_salt reserved) users
    → All (Wanted ids) (all_specs public_bind users)
unfolding all_specs
users-Wanted prims api_salt reserved public_bind ids [] known g = tt
users-Wanted prims api_salt reserved public_bind ids (u ∷ users) known g =
    All-append (Wanted ids) _ _
      (tunnels-Wanted ids public_bind reserved u u.tunnels known.0 g.0.tunnels_good)
      (users-Wanted prims api_salt reserved public_bind ids users known.1 g.1)

ids-contained :
    (ids : List Text) (users : List ServerUser)
    → ((a : Text) → contains (map (λ u. u.id) users) a ≡ true → contains ids a ≡ true)
    → All (λ u. contains ids u.id ≡ true) users
ids-contained ids [] h = tt
ids-contained ids (u ∷ users) h =
    (h u.id (ground (arith, beq_refl u.id)), ids-contained ids users (λ a c. h a (ground arith)))

AllValues-collect {ℓ} :
    (P : TunnelSpec → Type ℓ) (specs : List TunnelSpec) (m : Specs)
    → All P specs
    → AllValues P m
    → AllValues P (collect specs m)
unfolding collect
AllValues-collect P [] m a b = b
AllValues-collect P (s ∷ specs) m a b =
    AllValues-collect P specs (insert s.proxy_name s m) a.1
      (AllValues-insert P s.proxy_name s m a.0 b)

pub desired-Wanted :
    (prims : Primitives) (config : ServerConfig)
    → IsValid prims config
    → AllValues (Wanted (map (λ u. u.id) config.users)) (desired config)
unfolding desired
desired-Wanted prims config v =
    AllValues-collect _ (all_specs config.public_bind config.users) []
      (users-Wanted prims config.api_salt (reserved_ports config) config.public_bind _ config.users
        (ids-contained _ config.users (λ a c. c)) v.users)
      tt

pub user_ids-Nodup :
    (prims : Primitives) (config : ServerConfig)
    → IsValid prims config
    → Nodup (map (λ u. u.id) config.users)
user_ids-Nodup prims config v = count-Nodup _ v.user_ids
