-- ===== src/RateLimit/Laws.antt =====
-- What the rate limiter keeps, and what its cleanup cannot change.
use orange_frp.Prelude.{
  ℕ, ◌-◌, ◌≤◌, ◌≡◌, sym, ◌≢◌, inl, inr, true, false, none, List, arith, ltb-false-le, Bool-cases,
  Option-cases, Eq, nat_eq, list_eq, pair_eq, insert-Nodup, retain-Nodup, lookup-retain, AllValues,
  AllValues-retain, AllValues-insert, AllValues-lookup, length, length-retain-le, Nodup, keys,
  lookup, contains_key, lookup-insert, length-insert,
}
use orange_frp.Floats.{Float, IsFloat, refill_at_least}
use orange_frp.RateLimit.{
  RateBucket, ApiRateLimiter, max_rate_limit_clients, capacity, rate_limit_idle_ttl, cleanup_due,
  bucket_of, refilled, draw, is_active, clean, is_full, allow,
}

module _ (fl : Float) where
  open fl use {F, of_ℕ, le, lt, add, mul, as_secs}

  -- A bucket between empty and full.
  pub record IsLevel (b : RateBucket F) : Type 0 where
    pub above : le (of_ℕ 0) b.tokens ≡ true
    pub below : le b.tokens (of_ℕ capacity) ≡ true

  module _ (laws : IsFloat fl) where
    refilled-nonneg :
        (now : ℕ) (b : RateBucket F) → IsLevel b → le (of_ℕ 0) (refilled fl now b) ≡ true
    unfolding refilled
    refilled-nonneg now b v =
        laws.le_min _ _ 60
          (refill_at_least fl laws b.tokens (now - b.updated) 0 0 2 v.above (omega arith)
            (omega arith) (omega arith) (omega arith))
          (laws.of_mono 0 60 (omega arith))

    refilled-le : (now : ℕ) (b : RateBucket F) → le (refilled fl now b) (of_ℕ capacity) ≡ true
    unfolding refilled
    refilled-le now b = laws.min_le _ 60

    draw-IsLevel :
        (now : ℕ) (cost : F) (b : RateBucket F)
        → le (of_ℕ 0) cost ≡ true
        → IsLevel b
        → IsLevel (draw fl now cost b).0
    unfolding draw
    draw-IsLevel now cost b c v = elim (Bool-cases (lt (refilled fl now b) cost)) [
      | inl poor ↦ rw poor (record { above = refilled-nonneg now b v; below = refilled-le now b })
      | inr rich ↦ rw rich (record {
        above = laws.sub_nonneg _ _ 60 c (refilled-le now b) rich;
        below = laws.sub_le _ _ 60 c (refilled-le now b);
      })
    ]

    -- After 300 seconds a bucket is full, as a new one is.
    refilled_idle :
        (now : ℕ) (b : RateBucket F)
        → IsLevel b
        → rate_limit_idle_ttl ≤ now - b.updated
        → refilled fl now b ≡ of_ℕ capacity
    unfolding refilled
    refilled_idle now b v idle = laws.min_right _ 60 (
        laws.le_trans _ (of_ℕ 600) _ (laws.of_mono 60 600 (omega arith)) (
          refill_at_least fl laws b.tokens (now - b.updated) 0 300 2 v.above idle (omega arith)
            (omega arith) (omega arith)))

    refilled_new : (now : ℕ) → refilled fl now (bucket_of fl now none) ≡ of_ℕ capacity
    unfolding refilled bucket_of
    refilled_new now = laws.min_right _ 60 (
        refill_at_least fl laws (of_ℕ 60) (now - now) 60 0 2 (laws.of_mono 60 60 (omega arith))
          (omega arith) (omega arith) (omega arith) (omega arith))

    -- A request is answered alike by a bucket that was idle for 300 seconds and by a new one.
    draw_idle :
        (now : ℕ) (cost : F) (b : RateBucket F)
        → IsLevel b
        → rate_limit_idle_ttl ≤ now - b.updated
        → draw fl now cost b ≡ draw fl now cost (bucket_of fl now none)
    unfolding draw
    draw_idle now cost b v idle = rw (refilled_idle now b v idle) (rw (refilled_new now))

    bucket-IsLevel :
        {IpAddr : Type 0} ⦃e : Eq IpAddr⦄ (now : ℕ) (ip : IpAddr)
        (clients : List (IpAddr × RateBucket F))
        → AllValues IsLevel clients
        → IsLevel (bucket_of fl now (lookup ip clients))
    unfolding bucket_of
    bucket-IsLevel now ip clients a = elim (Option-cases (lookup ip clients)) [
      | inl new ↦ rw new (record {
        above = laws.of_mono 0 60 (omega arith);
        below = laws.of_mono 60 60 (omega arith);
      })
      | inr (b, known) ↦ rw known (AllValues-lookup IsLevel ip clients b a known)
    ]

  module _ {IpAddr : Type 0} ⦃e : Eq IpAddr⦄ where
    idle_long :
        (now : ℕ) (ip : IpAddr) (b : RateBucket F)
        → is_active fl now (ip, b) ≡ false
        → rate_limit_idle_ttl ≤ now - b.updated
    unfolding is_active
    idle_long now ip b h = ltb-false-le _ _ h

    -- One bucket for an address, no more than the limit, each between empty and full.
    pub record IsTable (l : ApiRateLimiter F IpAddr) : Type 0 where
      pub distinct : Nodup (keys l.clients)
      pub bounded : length l.clients ≤ max_rate_limit_clients
      pub level : AllValues IsLevel l.clients

    clean-IsTable : (now : ℕ) (l : ApiRateLimiter F IpAddr) → IsTable l → IsTable (clean fl now l)
    unfolding clean
    clean-IsTable now l v = elim (Bool-cases (cleanup_due now l.last_cleanup)) [
      | inl due ↦ rw due (record {
        distinct = retain-Nodup (is_active fl now) l.clients v.distinct;
        bounded = omega (arith, length-retain-le (is_active fl now) l.clients, v.bounded);
        level = AllValues-retain IsLevel (is_active fl now) l.clients v.level;
      })
      | inr early ↦ rw early v
    ]

    -- No request, allowed or not, makes the table larger than 8192 buckets, gives an address two of
    -- them, or leaves one below empty or above its capacity.
    pub allow-IsTable :
        IsFloat fl
        → (now : ℕ) (ip : IpAddr) (cost : F) (l : ApiRateLimiter F IpAddr) → le (of_ℕ 0) cost ≡ true
        → IsTable l
        → IsTable (allow fl now ip cost l).0
    unfolding allow is_full
    allow-IsTable laws now ip cost l c v =
        let cleaned = clean fl now l in
        let w = clean-IsTable now l v in
        let drawn = draw fl now cost (bucket_of fl now (lookup ip cleaned.clients)) in
        elim (Bool-cases (is_full fl ip cleaned.clients)) [
          | inl full ↦ rw full w
          | inr room ↦ rw room (record {
            distinct = insert-Nodup ip drawn.0 cleaned.clients w.distinct;
            bounded = ground (arith, length-insert ip drawn.0 cleaned.clients, w.bounded);
            level =
                AllValues-insert IsLevel ip drawn.0 cleaned.clients
                  (draw-IsLevel laws now cost _ c (bucket-IsLevel laws now ip _ w.level)) w.level;
          })
        ]

    -- The cleanup takes nothing from a client and gives it nothing: what a client draws after it,
    -- maybe from a new bucket, is the answer and the bucket of a draw without it. Room in a full
    -- table is not meant.
    pub draw-clean :
        IsFloat fl
        → (now : ℕ) (ip : IpAddr) (cost : F) (l : ApiRateLimiter F IpAddr) → IsTable l
        → draw fl now cost (bucket_of fl now (lookup ip (clean fl now l).clients))
          ≡ draw fl now cost (bucket_of fl now (lookup ip l.clients))
    unfolding clean bucket_of
    draw-clean laws now ip cost l v = elim (Bool-cases (cleanup_due now l.last_cleanup)) [
      | inr early ↦ rw early
      | inl due ↦ rw due (elim (lookup-retain (is_active fl now) ip l.clients v.distinct) [
        | inl same ↦ rw same
        | inr (b, known, idle, gone) ↦ rw gone (
            rw known (
              sym (
                draw_idle laws now cost b (AllValues-lookup IsLevel ip l.clients b v.level known)
                  (idle_long now ip b idle))))
      ])
    ]

    -- A request of one address leaves the buckets of the others as the cleanup left them.
    pub lookup-allow_ne :
        (now : ℕ) (ip j : IpAddr) (cost : F) (l : ApiRateLimiter F IpAddr)
        → ip ≢ j
        → lookup j (allow fl now ip cost l).0.clients ≡ lookup j (clean fl now l).clients
    unfolding allow
    lookup-allow_ne now ip j cost l other = ground (
      arith,
      e.beq_iff ip j,
      lookup-insert ip j
          (draw fl now cost (bucket_of fl now (lookup ip (clean fl now l).clients))).0
          (clean fl now l).clients,
    )

    -- While 8192 addresses have buckets after the cleanup, a request from another address is
    -- refused and leaves no trace.
    pub allow_full :
        (now : ℕ) (ip : IpAddr) (cost : F) (l : ApiRateLimiter F IpAddr)
        → contains_key ip (clean fl now l).clients ≡ false
        → max_rate_limit_clients ≤ length (clean fl now l).clients
        → allow fl now ip cost l ≡ (clean fl now l, false)
    unfolding allow is_full
    allow_full now ip cost l new full = ground arith
