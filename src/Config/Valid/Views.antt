-- ===== src/Config/Valid/Views.antt =====
-- Sorting the users changes no count of a key.
use orange_frp.Prelude.{
  ℕ, ◌≡◌, refl, ◌||◌, List, [], ◌∷◌, map, arith, if◌then◌else◌, Eq, ◌==◌, nat_eq, list_eq, pair_eq,
  contains, count, count-append,
}
use mathlib.Core.List.{map-append}
use orange_frp.Tunnel.{Tunnel}
use orange_frp.Config.{ServerUser}
use orange_frp.Config.Sort.{sort, total, total-sort}
use orange_frp.Config.Normalize.{TunnelSets, account_leb, mark}
use orange_frp.Config.Valid.{all_tunnels, mark_all}

module _ {K : Type 0} ⦃e : Eq K⦄ (a : K) where
  module _ (key : Tunnel → K) where
    count-all_tunnels :
        (us : List ServerUser)
        → count a (map key (all_tunnels us)) ≡ total (λ u. count a (map key u.tunnels)) us
    count-all_tunnels [] = refl
    count-all_tunnels (u ∷ us) = rw (map-append key u.tunnels (all_tunnels us)) (
        omega (
          arith,
          count-append a (map key u.tunnels) (map key (all_tunnels us)),
          count-all_tunnels us,
        ))

    pub count-sort_tunnels :
        (us : List ServerUser)
        → count a (map key (all_tunnels (sort account_leb us))) ≡ count a (map key (all_tunnels us))
    count-sort_tunnels us = omega (
      arith,
      count-all_tunnels us,
      count-all_tunnels (sort account_leb us),
      total-sort account_leb (λ u. count a (map key u.tunnels)) us,
    )

  module _ (key : ServerUser → K) where
    count-users :
        (us : List ServerUser) → count a (map key us) ≡ total (λ u. if key u == a then 1 else 0) us
    count-users [] = refl
    count-users (u ∷ us) = omega (arith, count-users us)

    pub count-sort_users :
        (us : List ServerUser) → count a (map key (sort account_leb us)) ≡ count a (map key us)
    count-sort_users us = omega (
      arith,
      count-users us,
      count-users (sort account_leb us),
      total-sort account_leb (λ u. if key u == a then 1 else 0) us,
    )

-- What the two sets of ports hold in the end.
pub numbers-mark_all :
    (s : TunnelSets) (ts : List Tunnel) (p : ℕ)
    → contains (mark_all s ts).public_port_numbers p
      ≡ (contains s.public_port_numbers p || contains (map (λ t. t.remote_port) ts) p)
unfolding mark
numbers-mark_all s [] p = ground arith
numbers-mark_all s (t ∷ ts) p = ground (arith, numbers-mark_all (mark s t) ts p)

pub backends-mark_all :
    (s : TunnelSets) (ts : List Tunnel) (p : ℕ)
    → contains (mark_all s ts).backend_ports p
      ≡ (contains s.backend_ports p || contains (map (λ t. t.backend_port) ts) p)
unfolding mark
backends-mark_all s [] p = ground arith
backends-mark_all s (t ∷ ts) p = ground (arith, backends-mark_all (mark s t) ts p)
