-- ===== src/RateLimit/Tests.antt =====
-- The rate limiter at concrete requests, on whole numbers.
use orange_frp.Prelude.{
  ℕ, ◌*◌, ◌^◌, ◌≡◌, refl, none, [], ◌∷◌, arith, nat_eq, list_eq, pair_eq, lookup,
}
use orange_frp.Floats.{whole, whole-IsFloat}
use orange_frp.RateLimit.{ApiRateLimiter, bucket_of, draw, clean, allow}
use orange_frp.RateLimit.Laws.{IsTable, allow-IsTable, draw-clean}

abbrev one_client : ApiRateLimiter ℕ ℕ
one_client = record { clients = (7, record { tokens = 3; updated = 0 }) ∷ []; last_cleanup = none }

one_client-IsTable : IsTable whole one_client
one_client-IsTable = record {
  distinct = (refl, tt);
  bounded = omega arith;
  level = (record { above = refl; below = refl }, tt);
}

allow-IsTable_example : IsTable whole (allow whole 400 9 8 one_client).0
allow-IsTable_example = allow-IsTable whole whole-IsFloat 400 9 8 one_client refl one_client-IsTable

draw-clean_example :
    draw whole
      (400 * 10 ^ 9)
      8
      (bucket_of whole (400 * 10 ^ 9) (lookup 7 (clean whole (400 * 10 ^ 9) one_client).clients))
    ≡ draw whole (400 * 10 ^ 9) 8 (bucket_of whole (400 * 10 ^ 9) (lookup 7 one_client.clients))
draw-clean_example = draw-clean whole whole-IsFloat (400 * 10 ^ 9) 7 8 one_client one_client-IsTable
