-- ===== src/Gate.antt =====
-- `UserGate` of server-package/crates/frp-game-server/src/controller.rs: the traffic quota and the
-- speed limit of a user. Sizes of memory (`usize`) have 64 bits; an `Instant` is a number of
-- nanoseconds.
pub mod Quota
pub mod Progress
pub mod Tests
use orange_frp.Prelude.{
  ℕ, ◌-◌, ◌*◌, ◌/◌, ◌^◌, min, max, Bool, true, false, ◌&&◌, ◌||◌, Option, none, some, List, [], ◌∷◌,
  ltb, nat_beq, if◌then◌else◌,
}
use orange_frp.Floats.{Float}
use orange_frp.Config.{u64_max, saturating_add}

abbrev pub copy_buffer_bytes : ℕ
copy_buffer_bytes = 16 * 1024

pub record GateState (F : Type 0) : Type 0 where
  pub limit_bytes : ℕ
  pub used_bytes : ℕ
  pub bytes_per_second : ℕ
  pub tokens : F
  pub last_refill : ℕ

unfoldable pub speed_bytes_per_second : ℕ → ℕ
speed_bytes_per_second speed_limit_mbps = min (speed_limit_mbps * 1000000) u64_max / 8

unfoldable pub burst_capacity : ℕ → ℕ
burst_capacity bytes_per_second = max bytes_per_second (copy_buffer_bytes * 4)

-- What one turn of the loop ends with: the result of `reserve`, or a sleep of some nanoseconds.
pub data Turn : Type 0 where
  done : Option ℕ → Turn
  sleep : ℕ → Turn

-- `Duration::clamp`.
unfoldable pub clamp : ℕ → ℕ → ℕ → ℕ
clamp low high x = if ltb x low then low else if ltb high x then high else x

module _ {F : Type 0} where
  unfoldable pub remaining : GateState F → ℕ
  remaining s = if nat_beq s.limit_bytes 0 then u64_max else s.limit_bytes - s.used_bytes

  -- `used_bytes = used_bytes.saturating_add(desired)`.
  unfoldable pub use_bytes : ℕ → GateState F → GateState F
  unfolding saturating_add
  use_bytes desired s = record s { used_bytes = saturating_add s.used_bytes desired }

module _ (fl : Float) where
  open fl use {F, of_ℕ, as_secs, from_secs, add, sub, mul, div, le}

  -- `UserGate::new`.
  unfoldable pub new_gate : ℕ → ℕ → ℕ → ℕ → GateState F
  unfolding speed_bytes_per_second burst_capacity
  new_gate now limit_bytes used_bytes speed_limit_mbps =
      let bytes_per_second = speed_bytes_per_second speed_limit_mbps in
      record {
        limit_bytes = limit_bytes;
        used_bytes = used_bytes;
        bytes_per_second = bytes_per_second;
        tokens = of_ℕ (burst_capacity bytes_per_second);
        last_refill = now;
      }

  unfoldable pub update_limits : ℕ → ℕ → ℕ → GateState F → GateState F
  unfolding speed_bytes_per_second burst_capacity
  update_limits now limit_bytes speed_limit_mbps s =
      let bytes_per_second = speed_bytes_per_second speed_limit_mbps in
      if nat_beq s.bytes_per_second bytes_per_second
      then record s { limit_bytes = limit_bytes }
      else record s {
        limit_bytes = limit_bytes;
        bytes_per_second = bytes_per_second;
        tokens = of_ℕ (burst_capacity bytes_per_second);
        last_refill = now;
      }

  unfoldable pub refill_tokens : ℕ → GateState F → GateState F
  refill_tokens now s = record s {
    tokens =
        fl.min (add s.tokens (mul (as_secs (now - s.last_refill)) (of_ℕ s.bytes_per_second)))
          (of_ℕ (burst_capacity s.bytes_per_second));
    last_refill = now;
  }

  -- The part behind the quota: without a speed limit at once, else against the tokens.
  unfoldable pub spend : ℕ → ℕ → GateState F → GateState F × Turn
  unfolding use_bytes clamp
  spend now desired s =
      let refilled = refill_tokens now s in
      if nat_beq s.bytes_per_second 0
      then (use_bytes desired s, done (some desired))
      else if le (of_ℕ desired) refilled.tokens
      then (
        use_bytes desired (record refilled { tokens = sub refilled.tokens (of_ℕ desired) }),
        done (some desired),
      )
      else (
        refilled,
        sleep (
            clamp (10 ^ 6) (2 * 10 ^ 9)
              (from_secs (div (sub (of_ℕ desired) refilled.tokens) (of_ℕ s.bytes_per_second)))),
      )

  -- One turn of the loop of `reserve`, under the lock.
  unfoldable pub reserve_turn : ℕ → ℕ → Bool → GateState F → GateState F × Turn
  unfolding remaining
  reserve_turn now requested exact s =
      if nat_beq (remaining s) 0 || (exact && ltb (remaining s) requested)
      then (s, done none)
      else spend now (min requested (remaining s)) s

  -- A wake-up: what the other tasks did to the gate during the sleep, and the time.
  pub record Wake : Type 0 where
    pub meanwhile : GateState F → GateState F
    pub now : ℕ

  -- `reserve`, over the wake-ups that come: `none` while it still waits.
  unfoldable pub reserve_loop : ℕ → Bool → List Wake → GateState F → GateState F × Option (Option ℕ)
  reserve_loop requested exact [] s = (s, none)
  reserve_loop requested exact (w ∷ wakes) s =
      let (s', turn) = reserve_turn w.now requested exact (w.meanwhile s) in
      elim turn [
        | done result ↦ (s', some result)
        | sleep d ↦ reserve_loop requested exact wakes s'
      ]

  unfoldable pub reserve : ℕ → Bool → List Wake → GateState F → GateState F × Option (Option ℕ)
  unfolding reserve_loop
  reserve requested exact wakes s =
      let looped = reserve_loop requested exact wakes s in
      if nat_beq requested 0 then (s, some (some 0)) else looped

  abbrev pub reserve_stream : ℕ → List Wake → GateState F → GateState F × Option (Option ℕ)
  reserve_stream requested wakes s = reserve requested false wakes s

  -- `self.reserve(requested, true).await == Some(requested)`.
  unfoldable pub granted_whole : ℕ → Option ℕ → Bool
  granted_whole requested none = false
  granted_whole requested (some n) = nat_beq n requested

  unfoldable pub reserve_datagram : ℕ → List Wake → GateState F → GateState F × Option Bool
  unfolding granted_whole reserve
  reserve_datagram requested wakes s =
      let (s', result) = reserve requested true wakes s in
      (s', elim result [ none ↦ none | some r ↦ some (granted_whole requested r) ])
