-- ===== src/Controller/Listeners/Ended.antt =====
-- The end of a session of `run_udp_listener` in
-- server-package/crates/frp-game-server/src/controller.rs.
use orange_frp.Prelude.{
  ℕ, ◌≤◌, ◌≡◌, sym, ap, ◌∙◌, subst, inl, inr, true, false, some, arith, nat_beq, nat_beq_iff,
  Bool-cases, Option-cases, Eq, ◌==◌, nat_eq, list_eq, pair_eq, length-remove-le, length-remove,
  lookup-contains_key, keys-remove, remove-Nodup, AllValues-remove, length, Nodup, keys, lookup,
  remove, lookup-remove,
}
use orange_frp.Controller.Listeners.{max_udp_sessions_per_tunnel, Session, UdpListener, end_session}
use orange_frp.Controller.Listeners.Sessions.{IsUdp}

module _ {Addr : Type 0} ⦃e : Eq Addr⦄ where
  -- An entry with the number of a task is that of the task's peer.
  own_peer :
      (s : UdpListener Addr) (n : ℕ) (task : Session Addr) (peer : Addr) (m : ℕ)
      → IsUdp s
      → lookup n s.tasks ≡ some task
      → lookup peer s.sessions ≡ some m
      → (n == m) ≡ true
      → task.peer ≡ peer
  own_peer s n task peer m v here h same =
      let (other, at, mine) = v.mapped peer m h in
      let here' : lookup m s.tasks ≡ some task =
        subst (λ k. lookup k s.tasks ≡ some task) ((nat_beq_iff n m).0 same) here in
      let one : some other ≡ some task = sym at ∙ here' in
      let one' : other ≡ task = cc one in sym (ap (λ (t : Session Addr). t.peer) one') ∙ mine

  -- The entries that are left were there, and are not those of the task.
  ended_entry :
      (s : UdpListener Addr) (n : ℕ) (task : Session Addr) (peer : Addr) (m : ℕ)
      → IsUdp s
      → lookup n s.tasks ≡ some task
      → lookup peer (end_session n task s).sessions ≡ some m
      → (lookup peer s.sessions ≡ some m) × ((n == m) ≡ false)
  unfolding end_session
  ended_entry s n task peer m v here h =
      let apart : lookup peer s.sessions ≡ some m
          → (task.peer ≡ peer → (n == m) ≡ true → lookup task.peer s.sessions ≡ some m → ⊥)
          → (lookup peer s.sessions ≡ some m) × ((n == m) ≡ false) =
        λ h' refuted. elim (Bool-cases (n == m)) [
          | inr differs ↦ (h', differs)
          | inl same ↦
              let mine = own_peer s n task peer m v here h' same in
              absurd (refuted mine same (subst (λ p. lookup p s.sessions ≡ some m) (sym mine) h'))
        ] in
      elim (Option-cases (lookup task.peer s.sessions)) [
        | inl unknown ↦ apart (rw (unknown, end_session) at h) (λ mine same h'. cc (unknown, h'))
        | inr (k, known) ↦ elim (Bool-cases (nat_beq k n)) [
          | inr newer ↦ apart (rw newer at (rw (known, end_session) at h)) (λ mine same h'.
              let both : some k ≡ some m = sym known ∙ h' in
              let both' : k ≡ m = cc both in ground (arith, nat_beq_iff k n, nat_beq_iff n m))
          | inl its ↦
              let left =
                rw (lookup-remove task.peer peer s.sessions) at
                  (rw its at (rw (known, end_session) at h)) in
              elim (Bool-cases (task.peer == peer)) [
                | inl same ↦ absurd (cc (rw same at left))
                | inr differs ↦
                    apart (rw differs at left)
                      (λ mine _ _. cc ((e.beq_iff task.peer peer).1 mine, differs))
              ]
        ]
      ]

  ended_sessions :
      (s : UdpListener Addr) (n : ℕ) (task : Session Addr)
      → IsUdp s
      → (length (end_session n task s).sessions ≤ max_udp_sessions_per_tunnel)
        × Nodup (keys (end_session n task s).sessions)
  unfolding end_session
  ended_sessions s n task v =
      let shorter : length (remove task.peer s.sessions) ≤ max_udp_sessions_per_tunnel =
        omega (arith, length-remove-le task.peer s.sessions, v.per_tunnel) in
      let apart = remove-Nodup task.peer s.sessions v.peers in
      elim (Option-cases (lookup task.peer s.sessions)) [
        | inl unknown ↦ rw (unknown, end_session) (v.per_tunnel, v.peers)
        | inr (k, known) ↦ elim (Bool-cases (nat_beq k n)) [
          | inl its ↦ rw (known, end_session) (rw its (shorter, apart))
          | inr newer ↦ rw (known, end_session) (rw newer (v.per_tunnel, v.peers))
        ]
      ]

  -- The entry of another session that receives stays.
  receiver_kept :
      (s : UdpListener Addr) (n : ℕ) (task : Session Addr) (m : ℕ) (t : Session Addr)
      → IsUdp s
      → (n == m) ≡ false
      → lookup m s.tasks ≡ some t
      → t.receiving ≡ true
      → lookup t.peer (end_session n task s).sessions ≡ some m
  unfolding end_session
  receiver_kept s n task m t v differs at r =
      let own = v.current m t at r in
      elim (Option-cases (lookup task.peer s.sessions)) [
        | inl unknown ↦ rw (unknown, end_session) own
        | inr (k, known) ↦ elim (Bool-cases (nat_beq k n)) [
          | inr newer ↦ rw (known, end_session) (rw newer own)
          | inl its ↦
              rw (known, end_session)
                (rw its (
                  rw (lookup-remove task.peer t.peer s.sessions)
                    (elim (Bool-cases (task.peer == t.peer)) [
                      | inr apart ↦ rw apart own
                      | inl same ↦
                          let known' =
                            subst (λ p. lookup p s.sessions ≡ some k)
                              ((e.beq_iff task.peer t.peer).0 same) known in
                          let both : some k ≡ some m = sym known' ∙ own in
                          let both' : k ≡ m = cc both in
                          absurd (ground (arith, nat_beq_iff k n, nat_beq_iff n m))
                    ])))
        ]
      ]

  pub end_session-IsUdp :
      (n : ℕ) (task : Session Addr) (s : UdpListener Addr)
      → lookup n s.tasks ≡ some task
      → task.receiving ≡ false
      → IsUdp s
      → IsUdp (end_session n task s)
  unfolding end_session
  end_session-IsUdp n task s here closed v =
      let there = lookup-contains_key n s.tasks task here in
      let kept = ended_sessions s n task v in
      record {
        permits = omega (arith, length-remove n s.tasks v.numbers there, v.permits);
        per_tunnel = kept.0;
        peers = kept.1;
        numbers = remove-Nodup n s.tasks v.numbers;
        below = λ m h. v.below m (ground (arith, keys-remove n m s.tasks));
        mapped = λ peer m h.
            let (h', differs) = ended_entry s n task peer m v here h in
            let (other, at, mine) = v.mapped peer m h' in
            (other, rw (lookup-remove n m s.tasks) (rw differs at), mine);
        current = λ m t at r. elim (Bool-cases (n == m)) [
          | inl same ↦ absurd (cc (rw same at (rw (lookup-remove n m s.tasks) at at)))
          | inr differs ↦
              receiver_kept s n task m t v differs
                (rw differs at (rw (lookup-remove n m s.tasks) at at)) r
        ];
        queues = AllValues-remove _ n s.tasks v.queues;
      }
