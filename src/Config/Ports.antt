-- ===== src/Config/Ports.antt =====
-- The allocation of backend ports.
use orange_frp.Prelude.{
  ℕ, zero, suc, ◌+◌, ◌≤◌, ◌<◌, ◌≡◌, sym, inl, inr, true, false, Option, none, some, List, [], ◌∷◌,
  arith, nat_beq, nat_beq_iff, Bool-cases, Option-cases, nat_eq, list_eq, pair_eq, length, contains,
  erase, contains-erase, ok, ok_or-eq-ok,
}
use orange_frp.Config.{allocate_from, allocate_backend_port, backend_port_start, backend_port_end}

record Allocated (left start : ℕ) (used : List ℕ) (port : ℕ) : Type 0 where
  from_start : start ≤ port
  before_end : port < start + left
  unused : contains used port ≡ false
  first : (q : ℕ) → start ≤ q → q < port → contains used q ≡ true

allocate_from-Allocated :
    (left start : ℕ) (used : List ℕ) (port : ℕ) (used' : List ℕ)
    → allocate_from left start used ≡ some (port, used')
    → Allocated left start used port × (used' ≡ port ∷ used)
unfolding allocate_from
allocate_from-Allocated zero start used port used' h = absurd (ground arith)
allocate_from-Allocated (suc left) start used port used' h =
    elim (Bool-cases (contains used start)) [
      | inl taken ↦
          let (a, e) = allocate_from-Allocated left (start + 1) used port used' (rw taken at h) in
          (
            record {
              from_start = omega (arith, a.from_start);
              before_end = omega (arith, a.before_end);
              unused = a.unused;
              first = λ q lo hi. elim (Bool-cases (nat_beq start q)) [
                | inl same ↦ rw (sym ((nat_beq_iff start q).0 same)) taken
                | inr other ↦ a.first q (ground arith) hi
              ];
            },
            e,
          )
      | inr free ↦
          let e : ◌≡◌ {A = Option (ℕ × List ℕ)} (some (start, start ∷ used)) (some (port, used')) =
            rw free at h in
          let here : start ≡ port = cc e in
          (
            record {
              from_start = omega arith;
              before_end = omega arith;
              unused = rw (sym here) free;
              first = λ q lo hi. absurd (omega arith);
            },
            cc e,
          )
    ]

-- The port lies in 20000-59999, was not in use, and is the first such; it is marked as used, and
-- nothing else is.
pub allocate_backend_port-first :
    (used : List ℕ) (port : ℕ) (used' : List ℕ)
    → allocate_backend_port used ≡ ok (port, used')
    → (backend_port_start ≤ port)
      × (port ≤ backend_port_end)
      × (contains used port ≡ false)
      × ((q : ℕ) → backend_port_start ≤ q → q < port → contains used q ≡ true)
      × (used' ≡ port ∷ used)
unfolding allocate_backend_port
allocate_backend_port-first used port used' h =
    let (a, e) = allocate_from-Allocated 40000 20000 used port used' (ok_or-eq-ok _ _ h) in
    (a.from_start, omega (arith, a.before_end), a.unused, a.first, e)

length-erase-le : (a : ℕ) (xs : List ℕ) → length (erase a xs) ≤ length xs
length-erase-le a [] = omega arith
length-erase-le a (x ∷ xs) = ground (arith, length-erase-le a xs)

length-erase : (a : ℕ) (xs : List ℕ) → contains xs a ≡ true → length (erase a xs) + 1 ≤ length xs
length-erase a [] h = absurd (ground arith)
length-erase a (x ∷ xs) h = elim (Bool-cases (nat_beq x a)) [
  | inl same ↦ rw same (omega (arith, length-erase-le a xs))
  | inr other ↦ rw other (omega (arith, length-erase a xs (rw other at h)))
]

-- The ports of a range that are all in use are no more than the used ports.
used_range :
    (left start : ℕ) (used : List ℕ)
    → ((q : ℕ) → start ≤ q → q < start + left → contains used q ≡ true)
    → left ≤ length used
used_range zero start used all_used = omega arith
used_range (suc left) start used all_used =
    let here = all_used start (omega arith) (omega arith) in
    let smaller = used_range left (start + 1) (erase start used) λ q lo hi.
      rw (contains-erase start q used)
        (ground (arith, nat_beq_iff start q, all_used q (omega arith) (omega arith))) in
    omega (arith, smaller, length-erase start used here)

allocate_from-none :
    (left start : ℕ) (used : List ℕ)
    → allocate_from left start used ≡ none
    → (q : ℕ) → start ≤ q
    → q < start + left
    → contains used q ≡ true
unfolding allocate_from
allocate_from-none zero start used h q lo hi = absurd (omega arith)
allocate_from-none (suc left) start used h q lo hi = elim (Bool-cases (contains used start)) [
  | inl taken ↦ elim (Bool-cases (nat_beq start q)) [
    | inl same ↦ rw (sym ((nat_beq_iff start q).0 same)) taken
    | inr other ↦
        allocate_from-none left (start + 1) used (rw taken at h) q (ground arith) (omega arith)
  ]
  | inr free ↦ absurd (ground arith)
]

-- While fewer than 40000 ports are in use there is a port to allocate.
pub allocate_backend_port_total :
    (used : List ℕ)
    → length used < 40000
    → (port : ℕ) × (allocate_backend_port used ≡ ok (port, port ∷ used))
unfolding allocate_backend_port
allocate_backend_port_total used h = elim (Option-cases (allocate_from 40000 20000 used)) [
  | inl nothing ↦
      absurd
        (omega (arith, used_range 40000 20000 used (allocate_from-none 40000 20000 used nothing)))
  | inr ((port, used'), found) ↦
      let (_, e) = allocate_from-Allocated 40000 20000 used port used' found in
      (port, rw found (rw e))
]
