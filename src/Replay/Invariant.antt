-- ===== src/Replay/Invariant.antt =====
-- The set and the queue of the guard hold the same keys, and no more than the limit.
use orange_frp.Prelude.{
  ℕ, ◌+◌, ◌-◌, ◌≤◌, ◌<◌, ◌≡◌, refl, sym, ◌∙◌, inl, inr, true, false, List, [], ◌∷◌, ◌++◌, map,
  arith, ltb, ltb-false-le, leb, Bool-cases, ◌==◌, nat_eq, list_eq, list_beq_iff, pair_eq,
  Nodup-erase, length-erase, length, length-append, contains, erase, Nodup, contains-append,
  contains-erase, Nodup-snoc, Text,
}
use mathlib.Core.List.{map-append}
use orange_frp.Replay.{
  Key, ReplayGuard, empty_guard, max_replay_entries, replay_ttl, expire, evict, admit, accept,
}

abbrev pub queued : ReplayGuard → List Key
queued g = map (λ e. e.1) g.order

pub record IsConsistent (g : ReplayGuard) : Type 0 where
  pub seen_distinct : Nodup g.seen
  pub distinct : Nodup (queued g)
  pub same : (k : Key) → contains g.seen k ≡ contains (queued g) k
  pub same_size : length g.seen ≡ length g.order
  pub bounded : length g.order ≤ max_replay_entries

-- Without its front entry the guard is consistent.
drop_front :
    (seen : List Key) (at : ℕ) (k : Key) (order : List (ℕ × Key))
    → IsConsistent (record { seen = seen; order = (at, k) ∷ order })
    → IsConsistent (record { seen = erase k seen; order = order })
drop_front seen at k order v = record {
  seen_distinct = Nodup-erase k seen v.seen_distinct;
  distinct = v.distinct.1;
  same = λ j. ground (arith, contains-erase k j seen, v.same j, list_beq_iff k j, v.distinct.0);
  same_size = omega (
    arith,
    v.same_size,
    length-erase k seen v.seen_distinct (ground (arith, v.same k, list_beq_iff k k)),
  );
  bounded = omega (arith, v.bounded);
}

pub expire-IsConsistent :
    (now : ℕ) (seen : List Key) (order : List (ℕ × Key))
    → IsConsistent (record { seen = seen; order = order })
    → IsConsistent (expire now seen order)
unfolding expire
expire-IsConsistent now seen [] v = v
expire-IsConsistent now seen ((at, k) ∷ order) v = elim (Bool-cases (leb (now - at) replay_ttl)) [
  | inl recent ↦ rw recent v
  | inr old ↦ rw old (expire-IsConsistent now (erase k seen) order (drop_front seen at k order v))
]

length-snoc : (order : List (ℕ × Key)) (e : ℕ × Key) → length (order ++ e ∷ []) ≡ length order + 1
length-snoc order e = omega (arith, length-append order (e ∷ []))

-- A new key at the back, while there is room.
push_back :
    (seen : List Key) (order : List (ℕ × Key)) (now : ℕ) (key : Key)
    → IsConsistent (record { seen = seen; order = order })
    → contains seen key ≡ false
    → length order < max_replay_entries
    → IsConsistent (record { seen = key ∷ seen; order = order ++ (now, key) ∷ [] })
push_back seen order now key v fresh room = record {
  seen_distinct = (fresh, v.seen_distinct);
  distinct =
      rw (map-append (λ (e : ℕ × Key). e.1) order ((now, key) ∷ []))
        (Nodup-snoc _ key v.distinct (sym (v.same key) ∙ fresh));
  same = λ j. rw (map-append (λ (e : ℕ × Key). e.1) order ((now, key) ∷ [])) (
      rw (contains-append (map (λ (e : ℕ × Key). e.1) order) (key ∷ []) j)
        (ground (arith, v.same j)));
  same_size = omega (arith, v.same_size, length-snoc order (now, key));
  bounded = omega (arith, length-snoc order (now, key));
}

evict-IsConsistent :
    (seen : List Key) (order : List (ℕ × Key)) (now : ℕ) (key : Key)
    → IsConsistent (record { seen = seen; order = order })
    → contains seen key ≡ false
    → IsConsistent (record {
      seen = (evict (key ∷ seen) order).seen;
      order = (evict (key ∷ seen) order).order ++ (now, key) ∷ [];
    })
unfolding evict
evict-IsConsistent seen [] now key v fresh = push_back seen [] now key v fresh (omega arith)
evict-IsConsistent seen ((at, oldest) ∷ order) now key v fresh =
    elim (Bool-cases (ltb max_replay_entries (length (key ∷ seen)))) [
      | inl full ↦
          let here : contains seen oldest ≡ true =
            v.same oldest ∙ ground (arith, list_beq_iff oldest oldest) in
          let other : (key == oldest) ≡ false =
            ground (arith, list_beq_iff key oldest, here, fresh) in
          rw full (
            rw other (
              push_back (erase oldest seen) order now key (drop_front seen at oldest order v)
                (ground (arith, contains-erase oldest key seen)) (omega (arith, v.bounded))))
      | inr room ↦ rw room (
          push_back seen ((at, oldest) ∷ order) now key v fresh
            (omega (arith, ltb-false-le _ _ room, v.same_size)))
    ]

admit-IsConsistent :
    (now : ℕ) (key : Key) (g : ReplayGuard) → IsConsistent g → IsConsistent (admit now key g).0
unfolding admit
admit-IsConsistent now key g v = elim (Bool-cases (contains g.seen key)) [
  | inl again ↦ rw again v
  | inr fresh ↦ rw fresh (evict-IsConsistent g.seen g.order now key v fresh)
]

-- The guard stays consistent: set and queue hold the same keys, each once, 16384 at most.
pub accept-IsConsistent :
    (sha256 : List ℕ → Key) (now : ℕ) (user_id operation nonce : Text) (g : ReplayGuard)
    → IsConsistent g
    → IsConsistent (accept sha256 now user_id operation nonce g).0
unfolding accept
accept-IsConsistent sha256 now user_id operation nonce g v =
    admit-IsConsistent now _ _ (expire-IsConsistent now g.seen g.order v)

pub IsConsistent-empty : IsConsistent empty_guard
IsConsistent-empty = record {
  seen_distinct = tt;
  distinct = tt;
  same = λ k. refl;
  same_size = refl;
  bounded = omega arith;
}
