-- ===== src/Replay/History.antt =====
-- A request that was accepted stays in the queue for its time.
use orange_frp.Prelude.{
  ℕ, suc, ◌+◌, ◌-◌, ◌≤◌, ◌<◌, ◌≡◌, refl, ◌∙◌, ◌⊎◌, inl, inr, Bool, true, false, List, [], ◌∷◌, ◌++◌,
  map, arith, ltb, ltb→lt, leb, Bool-cases, nat_eq, list_eq, list_beq_iff, pair_eq, length,
  length-append, All, contains, erase, Text,
}
use native.Mathlib.Nat.{add-zero}
use orange_frp.Replay.{
  Key, ReplayGuard, max_replay_entries, replay_ttl, expire, evict, admit, accept, request_key,
}
use orange_frp.Replay.Invariant.{IsConsistent, expire-IsConsistent, accept-IsConsistent}

-- The entry of a key at a time is in the queue, with at most `n` entries behind it.
abbrev Holds : ℕ → Key → ℕ → List (ℕ × Key) → Type 0
Holds at key n [] = ⊥
Holds at key n ((t, k) ∷ order) = ((t ≡ at) × (k ≡ key) × (length order ≤ n)) ⊎ Holds at key n order

Holds-contains :
    (at : ℕ) (key : Key) (n : ℕ) (order : List (ℕ × Key))
    → Holds at key n order
    → contains (map (λ e. e.1) order) key ≡ true
Holds-contains at key n [] h = absurd h
Holds-contains at key n ((t, k) ∷ order) (inl (_, same, _)) = ground (arith, list_beq_iff k key)
Holds-contains at key n ((t, k) ∷ order) (inr h) = ground (arith, Holds-contains at key n order h)

Holds-weaken :
    (at : ℕ) (key : Key) (n : ℕ) (order : List (ℕ × Key))
    → Holds at key n order
    → Holds at key (n + 1) order
Holds-weaken at key n [] h = h
Holds-weaken at key n ((t, k) ∷ order) (inl (a, b, c)) = inl (a, b, omega arith)
Holds-weaken at key n ((t, k) ∷ order) (inr h) = inr (Holds-weaken at key n order h)

Holds-snoc :
    (at : ℕ) (key : Key) (n : ℕ) (e : ℕ × Key) (order : List (ℕ × Key))
    → Holds at key n order
    → Holds at key (n + 1) (order ++ e ∷ [])
Holds-snoc at key n e [] h = absurd h
Holds-snoc at key n e ((t, k) ∷ order) (inl (a, b, c)) =
    inl (a, b, omega (arith, length-append order (e ∷ [])))
Holds-snoc at key n e ((t, k) ∷ order) (inr h) = inr (Holds-snoc at key n e order h)

Holds-last :
    (at : ℕ) (key : Key) (order : List (ℕ × Key)) → Holds at key 0 (order ++ (at, key) ∷ [])
Holds-last at key [] = inl (refl, refl, omega arith)
Holds-last at key (e ∷ order) = inr (Holds-last at key order)

expire-Holds :
    (now at : ℕ) (key : Key) (n : ℕ) (seen : List Key) (order : List (ℕ × Key))
    → now - at ≤ replay_ttl
    → Holds at key n order
    → Holds at key n (expire now seen order).order
unfolding expire
expire-Holds now at key n seen [] recent h = h
expire-Holds now at key n seen ((t, k) ∷ order) recent h =
    elim (Bool-cases (leb (now - t) replay_ttl)) [
      | inl young ↦ rw young h
      | inr old ↦ rw old (expire-Holds now at key n (erase k seen) order recent (behind h old))
    ]
  where
    behind :
        Holds at key n ((t, k) ∷ order) → leb (now - t) replay_ttl ≡ false → Holds at key n order
    behind (inl (same, _, _)) old = absurd (ground arith)
    behind (inr there) old = there

evict-Holds :
    (at : ℕ) (key : Key) (n : ℕ) (seen : List Key) (order : List (ℕ × Key))
    → length seen ≡ length order + 1
    → n + 1 < max_replay_entries
    → Holds at key n order
    → Holds at key n (evict seen order).order
unfolding evict
evict-Holds at key n seen [] size few h = h
evict-Holds at key n seen ((t, k) ∷ order) size few h =
    elim (Bool-cases (ltb max_replay_entries (length seen))) [
      | inl full ↦ rw full (behind h full)
      | inr room ↦ rw room h
    ]
  where
    behind :
        Holds at key n ((t, k) ∷ order)
        → ltb max_replay_entries (length seen) ≡ true
        → Holds at key n order
    behind (inl (_, _, c)) full = absurd (omega (arith, ltb→lt _ _ full))
    behind (inr there) full = there

-- A request as the guard sees it.
pub record Request : Type 0 where
  pub now : ℕ
  pub user_id : Text
  pub operation : Text
  pub nonce : Text

module _ (sha256 : List ℕ → Key) where
  abbrev pub handle : Request → ReplayGuard → ReplayGuard × Bool
  handle r g = accept sha256 r.now r.user_id r.operation r.nonce g

  -- The guard after a sequence of requests.
  pub serve : List Request → ReplayGuard → ReplayGuard
  serve [] g = g
  serve (r ∷ rs) g = serve rs (handle r g).0

  handle-Holds :
      (r : Request) (at : ℕ) (key : Key) (n : ℕ) (g : ReplayGuard)
      → IsConsistent g
      → r.now - at ≤ replay_ttl
      → n + 1 < max_replay_entries
      → Holds at key n g.order
      → Holds at key (n + 1) (handle r g).0.order
  unfolding accept admit
  handle-Holds r at key n g v recent few h =
      let g1 = expire r.now g.seen g.order in
      let k = request_key sha256 r.user_id r.operation r.nonce in
      let h1 = expire-Holds r.now at key n g.seen g.order recent h in
      elim (Bool-cases (contains g1.seen k)) [
        | inl again ↦ rw again (Holds-weaken at key n g1.order h1)
        | inr fresh ↦ rw fresh (
            Holds-snoc at key n (r.now, k) (evict (k ∷ g1.seen) g1.order).order
              (evict-Holds at key n (k ∷ g1.seen) g1.order
                (omega (arith, (expire-IsConsistent r.now g.seen g.order v).same_size)) few h1))
      ]

  serve-Holds :
      (rs : List Request) (at : ℕ) (key : Key) (n : ℕ) (g : ReplayGuard)
      → IsConsistent g
      → All (λ r. r.now - at ≤ replay_ttl) rs
      → n + length rs < max_replay_entries
      → Holds at key n g.order
      → Holds at key (n + length rs) (serve rs g).order × IsConsistent (serve rs g)
  unfolding serve
  serve-Holds [] at key n g v recent few h = rw (add-zero n) (h, v)
  serve-Holds (r ∷ rs) at key n g v recent few h =
      let first = handle-Holds r at key n g v recent.0 (omega arith) h in
      let e : n + suc (length rs) ≡ n + 1 + length rs = omega arith in
      rw e (
        serve-Holds rs at key (n + 1) (handle r g).0
          (accept-IsConsistent sha256 r.now r.user_id r.operation r.nonce g v) recent.1
          (omega arith) first)

  accepted-Holds :
      (r : Request) (g : ReplayGuard)
      → (handle r g).1 ≡ true
      → Holds r.now (request_key sha256 r.user_id r.operation r.nonce) 0 (handle r g).0.order
  unfolding accept admit
  accepted-Holds r g h =
      let g1 = expire r.now g.seen g.order in
      let k = request_key sha256 r.user_id r.operation r.nonce in
      elim (Bool-cases (contains g1.seen k)) [
        | inl again ↦ absurd (ground arith)
        | inr fresh ↦ rw fresh (Holds-last r.now k (evict (k ∷ g1.seen) g1.order).order)
      ]

  Holds-rejected :
      (r : Request) (at : ℕ) (key : Key) (n : ℕ) (g : ReplayGuard)
      → IsConsistent g
      → Holds at key n g.order
      → r.now - at ≤ replay_ttl
      → request_key sha256 r.user_id r.operation r.nonce ≡ key
      → (handle r g).1 ≡ false
  unfolding accept admit
  Holds-rejected r at key n g v h soon e =
      let still = expire-Holds r.now at key n g.seen g.order soon h in
      let same = (expire-IsConsistent r.now g.seen g.order v).same key in
      rw e (rw (same ∙ Holds-contains at key n _ still))

  -- An accepted request is not accepted again: after at most 16383 other requests, all of them
  -- within 300 seconds of it, a request with the same user, operation and nonce that comes within
  -- these 300 seconds is rejected.
  pub replay_rejected :
      (g : ReplayGuard) (first again : Request) (between : List Request)
      → IsConsistent g
      → (handle first g).1 ≡ true
      → All (λ r. r.now - first.now ≤ replay_ttl) between
      → again.now - first.now ≤ replay_ttl
      → length between < max_replay_entries
      → again.user_id ≡ first.user_id
      → again.operation ≡ first.operation
      → again.nonce ≡ first.nonce
      → (handle again (serve between (handle first g).0)).1 ≡ false
  replay_rejected g first again between v accepted recent soon few u o n =
      let key = request_key sha256 first.user_id first.operation first.nonce in
      let (held, v') =
        serve-Holds between first.now key 0 (handle first g).0
          (accept-IsConsistent sha256 first.now first.user_id first.operation first.nonce g v)
          recent (omega arith) (accepted-Holds first g accepted) in
      Holds-rejected again first.now key _ _ v' held soon (cc (u, o, n))
