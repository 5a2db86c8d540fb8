-- ===== src/Controller/Listeners/Sessions.antt =====
-- The sessions of `run_udp_listener` in server-package/crates/frp-game-server/src/controller.rs.
use orange_frp.Prelude.{
  ℕ, ◌+◌, ◌≤◌, ◌<◌, ◌≡◌, refl, sym, ap, ◌∙◌, subst, inl, inr, true, false, ◌||◌, none, some, [],
  ◌∷◌, ◌++◌, arith, leb, nat_beq, nat_beq_iff, Bool-cases, Option-cases, Eq, ◌==◌, nat_eq, beq_refl,
  list_eq, pair_eq, keys-insert, insert-Nodup, AllValues, AllValues-insert, length-remove-le,
  lookup-contains_key, remove-Nodup, length, length-append, Nodup, keys, lookup, insert, remove,
  contains_key, lookup-insert, lookup-remove, length-insert,
}
use orange_frp.Crypto.{Bytes}
use orange_frp.Controller.Listeners.{
  max_udp_sessions_per_tunnel, max_udp_sessions_total, udp_session_queue_capacity, Session,
  UdpListener, open_session, receive_packet,
}

module _ {Addr : Type 0} ⦃e : Eq Addr⦄ where
  -- The permits are accounted for, the limits are kept, every entry of the map is the channel of a
  -- session of that peer whose task has not ended, and a session that receives has its entry.
  pub record IsUdp (s : UdpListener Addr) : Type 0 where
    pub permits : length s.tasks + s.others + s.global_sessions ≡ max_udp_sessions_total
    pub per_tunnel : length s.sessions ≤ max_udp_sessions_per_tunnel
    pub peers : Nodup (keys s.sessions)
    pub numbers : Nodup (keys s.tasks)
    pub below : (n : ℕ) → contains_key n s.tasks ≡ true → n < s.next
    pub mapped :
        (peer : Addr) (n : ℕ)
        → lookup peer s.sessions ≡ some n
        → (task : Session Addr) × (lookup n s.tasks ≡ some task) × (task.peer ≡ peer)
    pub current :
        (n : ℕ) (task : Session Addr)
        → lookup n s.tasks ≡ some task
        → task.receiving ≡ true
        → lookup task.peer s.sessions ≡ some n
    pub queues : AllValues (λ task. length task.queue ≤ udp_session_queue_capacity) s.tasks

  -- The task under a number is replaced by one of the same peer.
  pub update-IsUdp :
      (s : UdpListener Addr) (n : ℕ) (task after : Session Addr)
      → lookup n s.tasks ≡ some task
      → after.peer ≡ task.peer
      → (after.receiving ≡ true → task.receiving ≡ true)
      → length after.queue ≤ udp_session_queue_capacity
      → IsUdp s
      → IsUdp (record s { tasks = insert n after s.tasks })
  update-IsUdp s n task after here same receives fits v =
      let there = lookup-contains_key n s.tasks task here in
      record {
        permits = rw (length-insert n after s.tasks) (rw there v.permits);
        per_tunnel = v.per_tunnel;
        peers = v.peers;
        numbers = insert-Nodup n after s.tasks v.numbers;
        below = λ m h. elim (Bool-cases (n == m)) [
          | inl is_n ↦ subst (λ k. k < s.next) ((nat_beq_iff n m).0 is_n) (v.below n there)
          | inr other ↦ v.below m (ground (arith, keys-insert n m after s.tasks))
        ];
        mapped = λ peer m h.
            let (old, at, mine) = v.mapped peer m h in
            elim (Bool-cases (n == m)) [
              | inr other ↦ (old, rw (lookup-insert n m after s.tasks) (rw other at), mine)
              | inl is_n ↦
                  let is_m = (nat_beq_iff n m).0 is_n in
                  let here' : lookup m s.tasks ≡ some task =
                    subst (λ k. lookup k s.tasks ≡ some task) is_m here in
                  let one : some old ≡ some task = sym at ∙ here' in
                  let one' : old ≡ task = cc one in
                  (
                    after,
                    rw (lookup-insert n m after s.tasks) (rw is_n refl),
                    same ∙ sym (ap (λ (t : Session Addr). t.peer) one') ∙ mine,
                  )
            ];
        current = λ m t at r. elim (Bool-cases (n == m)) [
          | inr other ↦ v.current m t (rw other at (rw (lookup-insert n m after s.tasks) at at)) r
          | inl is_n ↦
              let one : some after ≡ some t =
                rw is_n at (rw (lookup-insert n m after s.tasks) at at) in
              let is_t : after ≡ t = cc one in
              let r' : after.receiving ≡ true =
                subst (λ (x : Session Addr). x.receiving ≡ true) (sym is_t) r in
              let own : lookup task.peer s.sessions ≡ some m =
                v.current n task here (receives r') ∙ ap some ((nat_beq_iff n m).0 is_n) in
              let peers_agree : task.peer ≡ t.peer =
                sym same ∙ ap (λ (x : Session Addr). x.peer) is_t in
              subst (λ p. lookup p s.sessions ≡ some m) peers_agree own
        ];
        queues = AllValues-insert _ n after s.tasks fits v.queues;
      }

  pub forget-IsUdp :
      (s : UdpListener Addr) (peer : Addr)
      → ((n : ℕ) (task : Session Addr)
          → lookup n s.tasks ≡ some task
          → task.receiving ≡ true
          → (peer == task.peer) ≡ false)
      → IsUdp s
      → IsUdp (record s { sessions = remove peer s.sessions })
  forget-IsUdp s peer idle v = record {
    permits = v.permits;
    per_tunnel = omega (arith, length-remove-le peer s.sessions, v.per_tunnel);
    peers = remove-Nodup peer s.sessions v.peers;
    numbers = v.numbers;
    below = v.below;
    mapped = λ other n h. elim (Bool-cases (peer == other)) [
      | inl same ↦ absurd (cc (rw same at (rw (lookup-remove peer other s.sessions) at h)))
      | inr differs ↦
          v.mapped other n (rw differs at (rw (lookup-remove peer other s.sessions) at h))
    ];
    current = λ n task at r.
        rw (lookup-remove peer task.peer s.sessions)
          (rw (idle n task at r) (v.current n task at r));
    queues = v.queues;
  }

  new_number : (s : UdpListener Addr) → IsUdp s → contains_key s.next s.tasks ≡ false
  new_number s v = elim (Bool-cases (contains_key s.next s.tasks)) [
    | inl there ↦ absurd (omega (arith, v.below s.next there))
    | inr absent ↦ absent
  ]

  open_session-IsUdp :
      (peer : Addr) (packet : Bytes) (s : UdpListener Addr)
      → lookup peer s.sessions ≡ none
      → IsUdp s
      → IsUdp (open_session peer packet s)
  unfolding open_session
  open_session-IsUdp peer packet s unknown v =
      let task : Session Addr = record { peer = peer; queue = packet ∷ []; receiving = true } in
      let fresh = new_number s v in
      elim (Bool-cases
        (leb max_udp_sessions_per_tunnel (length s.sessions) || nat_beq s.global_sessions 0)) [
          | inl full ↦ rw full v
          | inr room ↦ rw room (record {
            permits = rw (length-insert s.next task s.tasks) (rw fresh (ground (arith, v.permits)));
            per_tunnel = ground (arith, length-insert peer s.next s.sessions);
            peers = insert-Nodup peer s.next s.sessions v.peers;
            numbers = insert-Nodup s.next task s.tasks v.numbers;
            below = λ m h.
                ground (arith, keys-insert s.next m task s.tasks, v.below m, nat_beq_iff s.next m);
            mapped = λ other n h. elim (Bool-cases (peer == other)) [
              | inl same ↦
                  let found : some s.next ≡ some n =
                    rw same at (rw (lookup-insert peer other s.next s.sessions) at h) in
                  let is_n : s.next ≡ n = cc found in
                  (
                    task,
                    subst (λ k. lookup k (insert s.next task s.tasks) ≡ some task) is_n
                        (rw (lookup-insert s.next s.next task s.tasks) (rw (beq_refl s.next) refl)),
                    (e.beq_iff peer other).0 same,
                  )
              | inr differs ↦
                  let (old, at, mine) =
                    v.mapped other n
                      (rw differs at (rw (lookup-insert peer other s.next s.sessions) at h)) in
                  let older = v.below n (lookup-contains_key n s.tasks old at) in
                  let apart : (s.next == n) ≡ false = ground (arith, older) in
                  (old, rw (lookup-insert s.next n task s.tasks) (rw apart at), mine)
            ];
            current = λ m t at r. elim (Bool-cases (s.next == m)) [
              | inl is_m ↦
                  let one : some task ≡ some t =
                    rw is_m at (rw (lookup-insert s.next m task s.tasks) at at) in
                  let is_t : task ≡ t = cc one in
                  let mine : peer ≡ t.peer = ap (λ (x : Session Addr). x.peer) is_t in
                  subst (λ p. lookup p (insert peer s.next s.sessions) ≡ some m) mine
                    (rw (lookup-insert peer peer s.next s.sessions)
                      (rw ((e.beq_iff peer peer).1 refl) (ap some ((nat_beq_iff s.next m).0 is_m))))
              | inr differs ↦
                  let old = rw differs at (rw (lookup-insert s.next m task s.tasks) at at) in
                  let own = v.current m t old r in
                  elim (Bool-cases (peer == t.peer)) [
                    | inl same ↦
                        let same' : t.peer ≡ peer = sym ((e.beq_iff peer t.peer).0 same) in
                        let own' = subst (λ p. lookup p s.sessions ≡ some m) same' own in
                        absurd (cc (unknown, own'))
                    | inr apart ↦ rw (lookup-insert peer t.peer s.next s.sessions) (rw apart own)
                  ]
            ];
            queues = AllValues-insert _ s.next task s.tasks (omega arith) v.queues;
          })
        ]

  -- No session of a peer receives whose entry is another's.
  none_receives :
      (s : UdpListener Addr) (peer : Addr) (n : ℕ)
      → IsUdp s
      → lookup peer s.sessions ≡ some n
      → ((task : Session Addr) → lookup n s.tasks ≡ some task → task.receiving ≡ false)
      → (m : ℕ) (task : Session Addr) → lookup m s.tasks ≡ some task
      → task.receiving ≡ true
      → (peer == task.peer) ≡ false
  none_receives s peer n v known closed m task at r = elim (Bool-cases (peer == task.peer)) [
    | inr differs ↦ differs
    | inl same ↦
        let own : lookup peer s.sessions ≡ some m =
          subst (λ p. lookup p s.sessions ≡ some m) (sym ((e.beq_iff peer task.peer).0 same))
            (v.current m task at r) in
        let both : some n ≡ some m = sym known ∙ own in
        let both' : n ≡ m = cc both in
        let at' = subst (λ k. lookup k s.tasks ≡ some task) (sym both') at in
        absurd (cc (r, closed task at'))
  ]

  pub receive_packet-IsUdp :
      (peer : Addr) (packet : Bytes) (s : UdpListener Addr)
      → IsUdp s
      → IsUdp (receive_packet peer packet s)
  unfolding receive_packet
  receive_packet-IsUdp peer packet s v =
      let forgotten = record s { sessions = remove peer s.sessions } in
      let reopened : ((m : ℕ) (task : Session Addr)
            → lookup m s.tasks ≡ some task
            → task.receiving ≡ true
            → (peer == task.peer) ≡ false)
          → IsUdp (open_session peer packet forgotten) =
        λ idle.
          open_session-IsUdp peer packet forgotten
            (rw (lookup-remove peer peer s.sessions) (rw ((e.beq_iff peer peer).1 refl) refl))
            (forget-IsUdp s peer idle v) in
      elim (Option-cases (lookup peer s.sessions)) [
        | inl unknown ↦ rw (unknown, receive_packet) (open_session-IsUdp peer packet s unknown v)
        | inr (n, known) ↦ elim (Option-cases (lookup n s.tasks)) [
          | inl gone ↦
              rw (known, receive_packet)
                (rw gone
                  (reopened (none_receives s peer n v known (λ t at. absurd (cc (gone, at))))))
          | inr (task, at) ↦ elim (Bool-cases task.receiving) [
            | inr closed ↦
                let is_closed : (t : Session Addr)
                    → lookup n s.tasks ≡ some t
                    → t.receiving ≡ false =
                  λ t at'.
                    let one : some task ≡ some t = sym at ∙ at' in
                    let one' : task ≡ t = cc one in
                    subst (λ (x : Session Addr). x.receiving ≡ false) one' closed in
                rw (known, receive_packet)
                  (rw at (rw closed (reopened (none_receives s peer n v known is_closed))))
            | inl receives ↦
                elim (Bool-cases (leb udp_session_queue_capacity (length task.queue))) [
                  | inl full ↦ rw (known, receive_packet) (rw at (rw receives (rw full v)))
                  | inr room ↦
                      rw (known, receive_packet)
                        (rw at (
                          rw receives (
                            rw room (
                              update-IsUdp s n task
                                (record task {
                                  queue = task.queue ++ packet ∷ [];
                                  receiving = true;
                                })
                                at refl (λ _. receives)
                                (ground (arith, length-append task.queue (packet ∷ []))) v))))
                ]
          ]
        ]
      ]
