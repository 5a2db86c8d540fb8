-- ===== src/Controller/Listeners/Runs.antt =====
-- The runs of `run_udp_listener` in server-package/crates/frp-game-server/src/controller.rs.
use orange_frp.Prelude.{
  ◌≤◌, refl, false, List, [], ◌∷◌, arith, Eq, nat_eq, list_eq, pair_eq, AllValues-lookup, length,
  drop,
}
use orange_frp.Controller.Listeners.{
  UdpListener, UdpStep, take_packet, close_session, Run, start, next_step,
}
use orange_frp.Controller.Listeners.Sessions.{IsUdp, update-IsUdp, receive_packet-IsUdp}
use orange_frp.Controller.Listeners.Ended.{end_session-IsUdp}

length-drop-one : {A : Type 0} (ps : List A) → length (drop 1 ps) ≤ length ps
length-drop-one [] = omega arith
length-drop-one (_ ∷ ps) = omega arith

module _ {Addr : Type 0} ⦃e : Eq Addr⦄ where
  UdpStep-IsUdp : {s t : UdpListener Addr} → UdpStep s t → IsUdp s → IsUdp t
  unfolding take_packet close_session
  UdpStep-IsUdp (UdpStep.received s peer packet) v = receive_packet-IsUdp peer packet s v
  UdpStep-IsUdp (UdpStep.consumed s n task here _) v =
      update-IsUdp s n task (record task { queue = drop 1 task.queue }) here refl (λ r. r)
        (omega (arith, length-drop-one task.queue, AllValues-lookup _ n s.tasks task v.queues here))
        v
  UdpStep-IsUdp (UdpStep.closed s n task here _) v =
      update-IsUdp s n task (record task { receiving = false }) here refl (λ r. absurd (cc r))
        (AllValues-lookup _ n s.tasks task v.queues here) v
  UdpStep-IsUdp (UdpStep.ended s n task here closed) v = end_session-IsUdp n task s here closed v
  UdpStep-IsUdp (UdpStep.acquired s h) v = record {
    permits = omega (arith, v.permits);
    per_tunnel = v.per_tunnel;
    peers = v.peers;
    numbers = v.numbers;
    below = v.below;
    mapped = v.mapped;
    current = v.current;
    queues = v.queues;
  }
  UdpStep-IsUdp (UdpStep.released s h) v = record {
    permits = omega (arith, v.permits);
    per_tunnel = v.per_tunnel;
    peers = v.peers;
    numbers = v.numbers;
    below = v.below;
    mapped = v.mapped;
    current = v.current;
    queues = v.queues;
  }

  -- However packets come and sessions end, every permit is free or held by a session that runs, a
  -- tunnel has at most 512 entries in its map, one packet at most waits for a session, and each
  -- entry is the channel of a session of that peer whose task has not ended. A session that still
  -- receives is the one that its peer's entry names, also after an older session of the peer has
  -- ended.
  pub Run-IsUdp : {s t : UdpListener Addr} → Run UdpStep s t → IsUdp s → IsUdp t
  Run-IsUdp start v = v
  Run-IsUdp (next_step r step) v = UdpStep-IsUdp step (Run-IsUdp r v)
