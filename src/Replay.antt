-- ===== src/Replay.antt =====
-- `ReplayGuard` of server-package/crates/frp-game-server/src/app.rs. SHA-256 is a parameter; an
-- `Instant` is a number of nanoseconds.
pub mod Framing
pub mod Invariant
pub mod Exact
pub mod History
pub mod Tests
use orange_frp.Prelude.{
  ℕ, ◌+◌, ◌-◌, ◌*◌, ◌/◌, ◌%◌, ◌^◌, Bool, true, false, List, [], ◌∷◌, ◌++◌, ltb, leb, if◌then◌else◌,
  nat_eq, list_eq, pair_eq, length, contains, erase, Text,
}
use orange_frp.Utf8.{as_bytes}

abbrev pub Key : Type 0
Key = List ℕ

pub record ReplayGuard : Type 0 where
  pub seen : List Key
  pub order : List (ℕ × Key)

-- `ReplayGuard::default`.
abbrev pub empty_guard : ReplayGuard
empty_guard = record { seen = []; order = [] }

abbrev pub max_replay_entries : ℕ
max_replay_entries = 16384

-- 300 seconds.
abbrev pub replay_ttl : ℕ
replay_ttl = 300 * 10 ^ 9

-- `(n as u64).to_le_bytes()`.
unfoldable pub to_le_bytes : ℕ → List ℕ
to_le_bytes n =
    n % 256
    ∷ (n / 2 ^ 8 % 256)
    ∷ (n / 2 ^ 16 % 256)
    ∷ (n / 2 ^ 24 % 256)
    ∷ (n / 2 ^ 32 % 256)
    ∷ (n / 2 ^ 40 % 256)
    ∷ (n / 2 ^ 48 % 256)
    ∷ (n / 2 ^ 56 % 256)
    ∷ []

-- One field of the digest: its length in bytes, then its bytes.
unfoldable pub frame : Text → List ℕ
unfolding to_le_bytes as_bytes
frame field = to_le_bytes (length (as_bytes field)) ++ as_bytes field

unfoldable pub digest_input : Text → Text → Text → List ℕ
unfolding frame
digest_input user_id operation nonce = frame user_id ++ (frame operation ++ frame nonce)

-- The loop that drops what is older than the limit, from the front.
unfoldable pub expire : ℕ → List Key → List (ℕ × Key) → ReplayGuard
expire now seen [] = record { seen = seen; order = [] }
expire now seen ((seen_at, key) ∷ order) =
    let rest = expire now (erase key seen) order in
    if leb (now - seen_at) replay_ttl
    then record { seen = seen; order = (seen_at, key) ∷ order }
    else rest

-- `if self.seen.len() > MAX` after the insertion: the oldest entry goes.
unfoldable pub evict : List Key → List (ℕ × Key) → ReplayGuard
evict seen [] = record { seen = seen; order = [] }
evict seen ((at, oldest) ∷ order) =
    if ltb max_replay_entries (length seen)
    then record { seen = erase oldest seen; order = order }
    else record { seen = seen; order = (at, oldest) ∷ order }

-- What follows the loop, for the key of the request.
unfoldable pub admit : ℕ → Key → ReplayGuard → ReplayGuard × Bool
unfolding evict
admit now key g =
    if contains g.seen key
    then (g, false)
    else let kept = evict (key ∷ g.seen) g.order in
      (record { seen = kept.seen; order = kept.order ++ (now, key) ∷ [] }, true)

module _ (sha256 : List ℕ → Key) where
  unfoldable pub request_key : Text → Text → Text → Key
  unfolding digest_input
  request_key user_id operation nonce = sha256 (digest_input user_id operation nonce)

  unfoldable pub accept : ℕ → Text → Text → Text → ReplayGuard → ReplayGuard × Bool
  accept now user_id operation nonce g =
      admit now (request_key user_id operation nonce) (expire now g.seen g.order)
