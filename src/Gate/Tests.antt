-- ===== src/Gate/Tests.antt =====
-- The gate at concrete requests, on whole numbers.
use orange_frp.Prelude.{
  ℕ, ◌+◌, ◌*◌, ◌^◌, ◌≤◌, ◌≡◌, refl, false, List, [], ◌∷◌, arith, nat_eq, list_eq, pair_eq,
}
use orange_frp.Floats.{whole}
use orange_frp.Gate.{GateState, reserve_turn}
use orange_frp.Gate.Quota.{
  Honest, Action, reserves, updates, act_all, act_all-quota, reserve_turn-Honest,
}

-- A quota of ten bytes, and a megabit in a second.
abbrev small : GateState ℕ
small = record {
  limit_bytes = 10;
  used_bytes = 0;
  bytes_per_second = 125000;
  tokens = 0;
  last_refill = 0;
}

reserve_turn-Honest_example : Honest whole 7 false small (reserve_turn whole 5 7 false small)
reserve_turn-Honest_example =
    reserve_turn-Honest whole 5 7 false small (omega arith, omega arith) (omega arith)

abbrev connections : List (Action whole)
connections =
    reserves (10 ^ 9) 7 false ∷ updates (2 * 10 ^ 9) 0 ∷ reserves (3 * 10 ^ 9) 7 false ∷ []

act_all-quota_example :
    ((act_all whole 10 connections small).0.used_bytes ≡ 0 + (act_all whole 10 connections small).1)
    × ((act_all whole 10 connections small).0.used_bytes ≤ 10)
act_all-quota_example =
    act_all-quota whole 10 connections small (omega arith) (omega arith)
      (omega arith, (tt, (omega arith, tt))) refl (omega arith)
