-- ===== src/Gate/Quota.antt =====
-- The gate never grants more than the quota has left.
use orange_frp.Prelude.{
  ℕ, ◌+◌, ◌-◌, ◌≤◌, ◌<◌, ◌≡◌, ◌∙◌, ◌⊎◌, Bool, true, none, some, List, [], ◌∷◌, arith, nat_eq,
  list_eq, pair_eq, All,
}
use orange_frp.Floats.{Float}
use orange_frp.Config.{u64_max, saturating_add}
use orange_frp.Gate.{
  GateState, Turn, done, sleep, refill_tokens, spend, reserve_turn, update_limits,
}

-- The bytes that a turn grants.
abbrev pub granted : Turn → ℕ
granted (done none) = 0
granted (done (some n)) = n
granted (sleep d) = 0

module _ (fl : Float) where
  open fl use {F}

  -- The counter fits its type.
  abbrev pub IsCounted : GateState F → Type 0
  IsCounted s = (s.limit_bytes ≤ u64_max) × (s.used_bytes ≤ u64_max)

  -- What a turn does: it grants no more than was asked for and is left, counts exactly that, and
  -- keeps the limits.
  pub record Honest (requested : ℕ) (exact : Bool) (s : GateState F) (r : GateState F × Turn)
      : Type 0 where
    pub few : granted r.1 ≤ requested
    pub counted : 0 < s.limit_bytes → r.0.used_bytes ≡ s.used_bytes + granted r.1
    pub within : 0 < s.limit_bytes → granted r.1 ≤ s.limit_bytes - s.used_bytes
    pub same_limit : r.0.limit_bytes ≡ s.limit_bytes
    pub same_speed : r.0.bytes_per_second ≡ s.bytes_per_second
    pub whole : (n : ℕ) → exact ≡ true → r.1 ≡ done (some n) → n ≡ requested
    pub refused :
        r.1 ≡ done none
        → (0 < s.limit_bytes)
          × ((s.limit_bytes ≤ s.used_bytes)
              ⊎ ((exact ≡ true) × (s.limit_bytes - s.used_bytes < requested)))
    pub never_empty : (n : ℕ) → 0 < requested → r.1 ≡ done (some n) → 0 < n

  -- Every turn of `reserve` grants at most what was asked for and what the quota has left, and adds
  -- just that to the counter; it grants a datagram whole or not at all, grants nothing only as a
  -- sleep or a refusal, refuses only when the quota is used up or too small for the datagram, and
  -- keeps both limits.
  pub reserve_turn-Honest :
      (now requested : ℕ) (exact : Bool) (s : GateState F)
      → IsCounted s
      → requested ≤ u64_max
      → Honest requested exact s (reserve_turn fl now requested exact s)
  unfolding reserve_turn spend refill_tokens saturating_add
  reserve_turn-Honest now requested exact s v h = record {
    few = ground arith;
    counted = λ p. ground arith;
    within = λ p. ground arith;
    same_limit = ground arith;
    same_speed = ground arith;
    whole = λ n e d. ground arith;
    refused = λ d. ground arith;
    never_empty = λ n p d. ground arith;
  }

  -- What the tasks of one user do to their gate, in the order in which they take its lock.
  pub data Action : Type 0 where
    reserves : ℕ → ℕ → Bool → Action
    updates : ℕ → ℕ → Action

  -- A request is the length of a buffer.
  abbrev pub FitsAction : Action → Type 0
  FitsAction (reserves now requested exact) = requested ≤ u64_max
  FitsAction (updates now speed) = Unit

  -- The state after an action, and the bytes that it granted; an update keeps the quota `limit`.
  pub act : ℕ → Action → GateState F → GateState F × ℕ
  act limit (reserves now requested exact) s =
      let (s', turn) = reserve_turn fl now requested exact s in (s', granted turn)
  act limit (updates now speed) s = (update_limits fl now limit speed s, 0)

  pub act_all : ℕ → List Action → GateState F → GateState F × ℕ
  act_all limit [] s = (s, 0)
  act_all limit (a ∷ rest) s =
      let (s', n) = act limit a s in let (s'', m) = act_all limit rest s' in (s'', n + m)

  update_limits-keeps :
      (now limit speed : ℕ) (s : GateState F)
      → ((update_limits fl now limit speed s).limit_bytes ≡ limit)
        × ((update_limits fl now limit speed s).used_bytes ≡ s.used_bytes)
  unfolding update_limits
  update_limits-keeps now limit speed s = ground arith

  record Within (limit : ℕ) (s : GateState F) : Type 0 where
    limited : s.limit_bytes ≡ limit
    room : s.used_bytes ≤ limit

  act-Within :
      (limit : ℕ) (a : Action) (s : GateState F)
      → 0 < limit
      → limit ≤ u64_max
      → FitsAction a
      → Within limit s
      → Within limit (act limit a s).0
        × ((act limit a s).0.used_bytes ≡ s.used_bytes + (act limit a s).1)
  unfolding act
  act-Within limit (reserves now requested exact) s pos big fits v =
      let h = reserve_turn-Honest now requested exact s (omega arith) fits in
      (
        record {
          limited = h.same_limit ∙ v.limited;
          room = omega (arith, h.counted, h.within, v.limited);
        },
        h.counted (omega arith),
      )
  act-Within limit (updates now speed) s pos big fits v =
      let (l, u) = update_limits-keeps now limit speed s in
      (record { limited = l; room = omega (arith, u, v.room) }, omega (arith, u))

  -- However the reservations and speed changes of a user's connections interleave, the bytes that
  -- the gate grants under a quota are the growth of its counter, which stays within the quota.
  pub act_all-quota :
      (limit : ℕ) (rest : List Action) (s : GateState F)
      → 0 < limit
      → limit ≤ u64_max
      → All FitsAction rest
      → s.limit_bytes ≡ limit
      → s.used_bytes ≤ limit
      → ((act_all limit rest s).0.used_bytes ≡ s.used_bytes + (act_all limit rest s).1)
        × ((act_all limit rest s).0.used_bytes ≤ limit)
  unfolding act_all
  act_all-quota limit [] s pos big fits l u = omega arith
  act_all-quota limit (a ∷ rest) s pos big fits l u =
      let (v, e) = act-Within limit a s pos big fits.0 (record { limited = l; room = u }) in
      let (f, g) = act_all-quota limit rest (act limit a s).0 pos big fits.1 v.limited v.room in
      (omega (arith, e, f), g)
