-- ===== src/Replay/Exact.antt =====
-- Which requests the guard rejects.
use orange_frp.Prelude.{
  ℕ, ◌-◌, ◌≤◌, ◌≡◌, refl, sym, ap, inl, inr, not, List, [], ◌∷◌, map, arith, leb→le, leb,
  Bool-cases, nat_eq, list_eq, pair_eq, retain, All, contains, erase, Text,
}
use orange_frp.Replay.{Key, ReplayGuard, replay_ttl, expire, admit, accept, request_key}
use orange_frp.Replay.Invariant.{IsConsistent, expire-IsConsistent}

-- The queue is in the order of time.
abbrev pub InOrder : List (ℕ × Key) → Type 0
InOrder [] = Unit
InOrder ((at, k) ∷ order) = All (λ e. at ≤ e.0) order × InOrder order

-- The entries that have not expired.
abbrev pub live : ℕ → List (ℕ × Key) → List (ℕ × Key)
live now order = retain (λ e. leb (now - e.0) replay_ttl) order

live_later :
    (now at : ℕ) (order : List (ℕ × Key))
    → All (λ e. at ≤ e.0) order
    → now - at ≤ replay_ttl
    → live now order ≡ order
live_later now at [] a h = refl
live_later now at (e ∷ order) a h = ground (arith, live_later now at order a.1 h)

expire-live :
    (now : ℕ) (seen : List Key) (order : List (ℕ × Key))
    → InOrder order
    → (expire now seen order).order ≡ live now order
unfolding expire
expire-live now seen [] o = refl
expire-live now seen ((at, k) ∷ order) o = elim (Bool-cases (leb (now - at) replay_ttl)) [
  | inl recent ↦
      rw recent (ap (◌∷◌ (at, k)) (sym (live_later now at order o.0 (leb→le _ _ recent))))
  | inr old ↦ rw old (expire-live now (erase k seen) order o.1)
]

-- A request is accepted exactly if no entry of its key that is at most 300 seconds old is left.
pub accept-iff_not-live :
    (sha256 : List ℕ → Key) (now : ℕ) (user_id operation nonce : Text) (g : ReplayGuard)
    → IsConsistent g
    → InOrder g.order
    → (accept sha256 now user_id operation nonce g).1
      ≡ not (
          contains (map (λ e. e.1) (live now g.order)) (request_key sha256 user_id operation nonce))
unfolding accept admit
accept-iff_not-live sha256 now user_id operation nonce g v o =
    let key = request_key sha256 user_id operation nonce in
    let same = (expire-IsConsistent now g.seen g.order v).same key in
    rw (← expire-live now g.seen g.order o) (rw (← same) (ground arith))
