-- ===== src/Controller/Copy/Counts.antt =====
-- What a copied connection writes is counted, byte for byte.
use orange_frp.Prelude.{
  ℕ, zero, suc, ◌+◌, ◌≤◌, ◌≡◌, refl, sym, ap, ◌∙◌, ◌≢◌, ◌⊎◌, inl, inr, Bool, false, Option, some,
  List, [], ◌∷◌, ◌++◌, append-nil, append_assoc, arith, nat_beq, Bool-cases, Option-cases, nat_eq,
  beq_refl, list_eq, pair_eq, length, take, drop, length-append, Text,
}
use orange_frp.Crypto.{Bytes}
use orange_frp.Floats.{Float}
use orange_frp.Gate.{
  GateState, Turn, done, sleep, Wake, reserve_turn, spend, reserve_loop, reserve, reserve_stream,
}
use orange_frp.Accounting.{TrafficEvent, Direction}
use orange_frp.Accounting.Pending.{user_bytes}
use orange_frp.Controller.{TunnelSpec}
use orange_frp.Controller.Copy.{
  Progress, drained, shut_down, failed, waiting, dropped, Writing, whole, broken, abandoned,
  Attempt, Copying, event_of, copy_buffer,
}

-- The buffer is a part that was written and a rest that is empty when the loop is done; the part
-- was counted for the user, but for bytes of a turn that failed or was dropped.
pub record Copied {F : Type 0} (user_id : Text) (buffer : Bytes) (c : Copying F)
    (r : Copying F × Progress) : Type 0 where
  pub sent : Bytes
  pub rest : Bytes
  pub parts : sent ++ rest ≡ buffer
  pub wrote : r.0.written ≡ c.written ++ sent
  pub unreported : ℕ
  pub counted :
      user_bytes user_id r.0.events + unreported ≡ user_bytes user_id c.events + length sent
  pub exact : r.1 ≢ failed → r.1 ≢ dropped → unreported ≡ 0
  pub complete : r.1 ≡ drained → rest ≡ []

user_bytes-append :
    (id : Text) (xs ys : List TrafficEvent)
    → user_bytes id (xs ++ ys) ≡ user_bytes id xs + user_bytes id ys
user_bytes-append id [] ys = omega arith
user_bytes-append id (x ∷ xs) ys = omega (arith, user_bytes-append id xs ys)

take-drop {ℓ} : {A : Type ℓ} (n : ℕ) (xs : List A) → take n xs ++ drop n xs ≡ xs
take-drop zero xs = refl
take-drop (suc n) [] = refl
take-drop (suc n) (x ∷ xs) = ap (◌∷◌ x) (take-drop n xs)

length-take {ℓ} : {A : Type ℓ} (n : ℕ) (xs : List A) → n ≤ length xs → length (take n xs) ≡ n
length-take zero xs h = refl
length-take (suc n) [] h = absurd (omega arith)
length-take (suc n) (x ∷ xs) h = omega (arith, length-take n xs (omega arith))

Writing-cases :
    (w : Writing) → (w ≡ whole) ⊎ (((n : ℕ) × (w ≡ broken n)) ⊎ ((n : ℕ) × (w ≡ abandoned n)))
Writing-cases whole = inl refl
Writing-cases (broken n) = inr (inl (n, refl))
Writing-cases (abandoned n) = inr (inr (n, refl))

Turn-cases : (t : Turn) → ((o : Option ℕ) × (t ≡ done o)) ⊎ ((d : ℕ) × (t ≡ sleep d))
Turn-cases (done o) = inl (o, refl)
Turn-cases (sleep d) = inr (d, refl)

module _ (fl : Float) where
  open fl use {F}

  reserve_turn-le :
      (now requested n : ℕ) (exact : Bool) (s : GateState F)
      → (reserve_turn fl now requested exact s).1 ≡ done (some n)
      → n ≤ requested
  unfolding reserve_turn spend
  reserve_turn-le now requested n exact s h = ground arith

  reserve_loop-le :
      (requested n : ℕ) (exact : Bool) (wakes : List (Wake fl)) (s : GateState F)
      → (reserve_loop fl requested exact wakes s).1 ≡ some (some n)
      → n ≤ requested
  unfolding reserve_loop
  reserve_loop-le requested n exact [] s h = absurd cc
  reserve_loop-le requested n exact (w ∷ wakes) s h =
      elim (Turn-cases (reserve_turn fl w.now requested exact (w.meanwhile s)).1) [
        | inr (d, asleep) ↦
            reserve_loop-le requested n exact wakes _ (rw (asleep, reserve_loop) at h)
        | inl (o, ended) ↦
            let result : some o ≡ some (some n) = rw (ended, reserve_loop) at h in
            let same : o ≡ some n = cc result in
            reserve_turn-le w.now requested n exact (w.meanwhile s) (ended ∙ ap done same)
      ]

  reserve_stream-le :
      (requested n : ℕ) (wakes : List (Wake fl)) (s : GateState F)
      → (reserve_stream fl requested wakes s).1 ≡ some (some n)
      → n ≤ requested
  unfolding reserve
  reserve_stream-le requested n wakes s h = elim (Bool-cases (nat_beq requested 0)) [
    | inl nothing ↦
        let result : some (some 0) ≡ some (some n) = rw nothing at h in
        let zero' : 0 ≡ n = cc result in omega (arith, zero')
    | inr asks ↦ reserve_loop-le requested n false wakes s (rw asks at h)
  ]

  module _ (spec : TunnelSpec) (direction : Direction) where
    nothing_sent :
        (buffer : Bytes) (c : Copying F) (gate : GateState F) (p : Progress)
        → p ≢ drained
        → Copied spec.user_id buffer c (record c { gate = gate }, p)
    nothing_sent buffer c gate p other = record {
      sent = [];
      rest = buffer;
      parts = refl;
      wrote = sym (append-nil c.written);
      unreported = 0;
      counted = omega arith;
      exact = λ _ _. refl;
      complete = λ e. absurd (other e);
    }

    part_sent :
        (buffer : Bytes) (c : Copying F) (gate : GateState F) (n allowed : ℕ) (p : Progress)
        → (p ≡ failed) ⊎ (p ≡ dropped)
        → Copied spec.user_id buffer c
            (record c { gate = gate; written = c.written ++ take n (take allowed buffer) }, p)
    part_sent buffer c gate n allowed p cut = record {
      sent = take n (take allowed buffer);
      rest = drop n (take allowed buffer) ++ drop allowed buffer;
      parts =
          sym (append_assoc (take n (take allowed buffer)) (drop n (take allowed buffer)) _)
          ∙ ap (λ bs. bs ++ drop allowed buffer) (take-drop n (take allowed buffer))
          ∙ take-drop allowed buffer;
      wrote = refl;
      unreported = length (take n (take allowed buffer));
      counted = refl;
      exact = λ fine kept. elim cut [ inl e ↦ absurd (fine e) | inr e ↦ absurd (kept e) ];
      complete = λ e. elim cut [ inl f ↦ absurd (cc (e, f)) | inr f ↦ absurd (cc (e, f)) ];
    }

    some_sent :
        (buffer : Bytes) (c : Copying F) (gate : GateState F) (allowed : ℕ)
        (r : Copying F × Progress)
        → allowed ≤ length buffer
        → Copied spec.user_id
            (drop allowed buffer)
            (record {
              gate = gate;
              written = c.written ++ take allowed buffer;
              events = c.events ++ event_of spec direction allowed ∷ [];
            })
            r
        → Copied spec.user_id buffer c r
    unfolding event_of
    some_sent buffer c gate allowed r fits later = record {
      sent = take allowed buffer ++ later.sent;
      rest = later.rest;
      parts =
          append_assoc (take allowed buffer) later.sent later.rest
          ∙ ap (◌++◌ (take allowed buffer)) later.parts
          ∙ take-drop allowed buffer;
      wrote = later.wrote ∙ append_assoc c.written (take allowed buffer) later.sent;
      unreported = later.unreported;
      exact = later.exact;
      counted = omega (
        arith,
        later.counted,
        user_bytes-append spec.user_id c.events (event_of spec direction allowed ∷ []),
        one,
        length-append (take allowed buffer) later.sent,
        length-take allowed buffer fits,
      );
      complete = later.complete;
    }
      where
        one : user_bytes spec.user_id (event_of spec direction allowed ∷ []) ≡ allowed
        one = rw (beq_refl spec.user_id) (omega arith)

    -- The loop over a buffer, wherever it stops, has written a part from the buffer's start, and the
    -- user's bytes that it has reported are those that it has written: fewer only when a write
    -- failed or the connection was dropped in the middle of a turn. When it is done it has written
    -- the whole buffer.
    pub copy_buffer-Copied :
        (buffer : Bytes) (attempts : List (Attempt fl)) (c : Copying F)
        → Copied spec.user_id buffer c (copy_buffer fl spec direction buffer attempts c)
    unfolding copy_buffer
    copy_buffer-Copied [] attempts c = record {
      sent = [];
      rest = [];
      parts = refl;
      wrote = sym (append-nil c.written);
      unreported = 0;
      counted = omega arith;
      exact = λ _ _. refl;
      complete = λ e. refl;
    }
    copy_buffer-Copied (x ∷ rest) [] c = nothing_sent (x ∷ rest) c c.gate waiting (λ e. cc)
    copy_buffer-Copied (x ∷ rest) (a ∷ attempts) c =
        elim (Option-cases (reserve_stream fl (length (x ∷ rest)) a.wakes c.gate).1) [
          | inl asleep ↦ rw (asleep, copy_buffer) (nothing_sent (x ∷ rest) c _ waiting (λ e. cc))
          | inr (o, ended) ↦ elim (Option-cases o) [
            | inl refused ↦
                rw (ended ∙ ap some refused, copy_buffer)
                  (nothing_sent (x ∷ rest) c _ shut_down (λ e. cc))
            | inr (allowed, given) ↦ elim (Writing-cases a.writing) [
              | inr (inl (n, cut)) ↦
                  rw (ended ∙ ap some given, copy_buffer)
                    (rw cut (part_sent (x ∷ rest) c _ n allowed failed (inl refl)))
              | inr (inr (n, cut)) ↦
                  rw (ended ∙ ap some given, copy_buffer)
                    (rw cut (part_sent (x ∷ rest) c _ n allowed dropped (inr refl)))
              | inl fine ↦
                  rw (ended ∙ ap some given, copy_buffer)
                    (rw fine (
                      some_sent (x ∷ rest) c _ allowed _
                        (reserve_stream-le (length (x ∷ rest)) allowed a.wakes c.gate
                          (ended ∙ ap some given))
                        (copy_buffer-Copied (drop allowed (x ∷ rest)) attempts _)))
            ]
          ]
        ]
