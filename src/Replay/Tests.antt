-- ===== src/Replay/Tests.antt =====
-- The guard at concrete requests, with the identity in place of SHA-256.
use orange_frp.Prelude.{
  ℕ, ◌≡◌, refl, inl, true, false, not, List, [], ◌∷◌, map, arith, ltb, nat_eq, list_eq, pair_eq,
  all, All, contains, Text, codes,
}
use orange_frp.Replay.{Key, ReplayGuard, empty_guard, accept, admit, expire, evict, request_key}
use orange_frp.Utf8.{as_bytes, encode_char, IsScalar}
use orange_frp.Replay.Invariant.{IsConsistent-empty, accept-IsConsistent}
use orange_frp.Replay.Exact.{InOrder, live, accept-iff_not-live}
use orange_frp.Replay.History.{Request, handle, serve, replay_rejected}
use orange_frp.Replay.Framing.{IsText}

abbrev plain : List ℕ → Key
plain bs = bs

abbrev login_one : Request
login_one = record { now = 5; user_id = codes "a"; operation = codes "login"; nonce = codes "n" }

abbrev usage_two : Request
usage_two = record { now = 6; user_id = codes "a"; operation = codes "usage"; nonce = codes "n" }

abbrev login_again : Request
login_again = record {
  now = 200;
  user_id = codes "a";
  operation = codes "login";
  nonce = codes "n";
}

abbrev guard_one : ReplayGuard
guard_one = (handle plain login_one empty_guard).0

login_accepted : (handle plain login_one empty_guard).1 ≡ true
unfolding accept admit expire request_key
login_accepted = refl

replay_rejected_example :
    (handle plain login_again (serve plain (usage_two ∷ []) guard_one)).1 ≡ false
replay_rejected_example =
    replay_rejected plain empty_guard login_one login_again (usage_two ∷ []) IsConsistent-empty
      login_accepted (omega arith, tt) (omega arith) (omega arith) refl refl refl

guard_one-InOrder : InOrder guard_one.order
unfolding accept admit expire evict request_key
guard_one-InOrder = (tt, tt)

accept-iff_not-live_example :
    (accept plain 200 (codes "a") (codes "login") (codes "n") guard_one).1
    ≡ not (
        contains
          (map (λ e. e.1) (live 200 guard_one.order))
          (request_key plain (codes "a") (codes "login") (codes "n")))
accept-iff_not-live_example =
    accept-iff_not-live plain 200 (codes "a") (codes "login") (codes "n") guard_one
      (accept-IsConsistent plain 5 (codes "a") (codes "login") (codes "n") empty_guard
        IsConsistent-empty)
      guard_one-InOrder

ascii : (s : Text) → all (λ c. ltb c 128) s ≡ true → All IsScalar s
ascii [] h = tt
ascii (c ∷ s) h =
    (record { bounded = ground arith; no_surrogate = inl (ground arith) }, ascii s (ground arith))

a-IsText : IsText (codes "a")
unfolding as_bytes encode_char
a-IsText = record { scalars = ascii (codes "a") refl; sized = omega arith }
