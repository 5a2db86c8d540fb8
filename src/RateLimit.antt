-- ===== src/RateLimit.antt =====
-- `ApiRateLimiter` of server-package/crates/frp-game-server/src/app.rs: a token bucket for each
-- client address.
pub mod Laws
pub mod Tests
use orange_frp.Prelude.{
  ℕ, ◌-◌, ◌*◌, ◌^◌, min, Bool, true, false, not, ◌&&◌, Option, none, some, List, ltb, leb,
  if◌then◌else◌, Eq, nat_eq, list_eq, pair_eq, length, retain, lookup, insert, contains_key,
}
use orange_frp.Floats.{Float}

abbrev pub max_rate_limit_clients : ℕ
max_rate_limit_clients = 8192

abbrev pub rate_limit_idle_ttl : ℕ
rate_limit_idle_ttl = 300 * 10 ^ 9

abbrev pub rate_limit_cleanup_interval : ℕ
rate_limit_cleanup_interval = 60 * 10 ^ 9

abbrev pub capacity : ℕ
capacity = 60

abbrev pub refill_per_second : ℕ
refill_per_second = 2

pub record RateBucket (F : Type 0) : Type 0 where
  pub tokens : F
  pub updated : ℕ

pub record ApiRateLimiter (F IpAddr : Type 0) : Type 0 where
  pub clients : List (IpAddr × RateBucket F)
  pub last_cleanup : Option ℕ

unfoldable pub cleanup_due : ℕ → Option ℕ → Bool
cleanup_due now none = true
cleanup_due now (some last) = leb rate_limit_cleanup_interval (now - last)

module _ (fl : Float) where
  open fl use {F, of_ℕ, as_secs, add, sub, mul, lt}

  -- `entry(ip).or_insert(...)`.
  unfoldable pub bucket_of : ℕ → Option (RateBucket F) → RateBucket F
  bucket_of now none = record { tokens = of_ℕ capacity; updated = now }
  bucket_of now (some b) = b

  unfoldable pub refilled : ℕ → RateBucket F → F
  refilled now b =
      fl.min (add b.tokens (mul (as_secs (now - b.updated)) (of_ℕ refill_per_second)))
        (of_ℕ capacity)

  -- The bucket after a request of a cost, and whether it is allowed.
  unfoldable pub draw : ℕ → F → RateBucket F → RateBucket F × Bool
  draw now cost b =
      let tokens = refilled now b in
      if lt tokens cost
      then (record { tokens = tokens; updated = now }, false)
      else (record { tokens = sub tokens cost; updated = now }, true)

  module _ {IpAddr : Type 0} ⦃e : Eq IpAddr⦄ where
    unfoldable pub is_active : ℕ → IpAddr × RateBucket F → Bool
    is_active now c = ltb (now - c.1.updated) rate_limit_idle_ttl

    unfoldable pub clean : ℕ → ApiRateLimiter F IpAddr → ApiRateLimiter F IpAddr
    clean now l =
        if cleanup_due now l.last_cleanup
        then record { clients = retain (is_active now) l.clients; last_cleanup = some now }
        else l

    -- A new client while the table is full.
    unfoldable pub is_full : IpAddr → List (IpAddr × RateBucket F) → Bool
    is_full ip clients =
        not (contains_key ip clients) && leb max_rate_limit_clients (length clients)

    unfoldable pub allow : ℕ → IpAddr → F → ApiRateLimiter F IpAddr → ApiRateLimiter F IpAddr × Bool
    allow now ip cost l =
        let cleaned = clean now l in
        let drawn = draw now cost (bucket_of now (lookup ip cleaned.clients)) in
        if is_full ip cleaned.clients
        then (cleaned, false)
        else (record cleaned { clients = insert ip drawn.0 cleaned.clients }, drawn.1)
