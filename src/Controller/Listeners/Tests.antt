-- ===== src/Controller/Listeners/Tests.antt =====
-- Concrete runs of the listeners of server-package/crates/frp-game-server/src/controller.rs.
use orange_frp.Prelude.{ℕ, ◌≡◌, refl, true, false, [], ◌∷◌, arith, nat_eq, list_eq, pair_eq}
use orange_frp.Controller.Listeners.{
  TcpListener, TcpStep, accept_connection, UdpListener, UdpStep, receive_packet, close_session,
  end_session, Run, start, next_step,
}
use orange_frp.Controller.Listeners.Permits.{IsTcp, Run-IsTcp}
use orange_frp.Controller.Listeners.Sessions.{IsUdp}
use orange_frp.Controller.Listeners.Runs.{Run-IsUdp}

abbrev quiet_tcp : TcpListener
quiet_tcp = record { active = 0; connections = 1024; global_connections = 4096; others = 0 }

abbrev one_connection : TcpListener
one_connection = record { active = 1; connections = 1023; global_connections = 4095; others = 0 }

accepted_one : accept_connection quiet_tcp ≡ one_connection
unfolding accept_connection
accepted_one = refl

tcp_steps : Run TcpStep quiet_tcp one_connection
unfolding accept_connection
tcp_steps = next_step start (TcpStep.accepted quiet_tcp)

Run-IsTcp_example : IsTcp one_connection
Run-IsTcp_example = Run-IsTcp tcp_steps (record { tunnel = refl; whole = refl })

abbrev quiet_udp : UdpListener ℕ
quiet_udp = record { sessions = []; tasks = []; next = 0; global_sessions = 1024; others = 0 }

-- A session of the peer 7 has its first packet.
abbrev opened : UdpListener ℕ
opened = record {
  sessions = (7, 0) ∷ [];
  tasks = (0, record { peer = 7; queue = (1 ∷ []) ∷ []; receiving = true }) ∷ [];
  next = 1;
  global_sessions = 1023;
  others = 0;
}

-- It has ended, a new packet of the peer opens a second one, and the first one's task cleans up.
abbrev reopened : UdpListener ℕ
reopened = record {
  sessions = (7, 1) ∷ [];
  tasks = (1, record { peer = 7; queue = (2 ∷ []) ∷ []; receiving = true }) ∷ [];
  next = 2;
  global_sessions = 1023;
  others = 0;
}

udp_steps : Run UdpStep quiet_udp reopened
unfolding receive_packet close_session end_session
udp_steps =
    next_step
      (next_step
        (next_step (next_step start (UdpStep.received quiet_udp 7 (1 ∷ []))) (
          UdpStep.closed opened 0 (record { peer = 7; queue = (1 ∷ []) ∷ []; receiving = true })
            refl refl))
        (UdpStep.received _ 7 (2 ∷ [])))
      (UdpStep.ended _ 0 (record { peer = 7; queue = (1 ∷ []) ∷ []; receiving = false }) refl refl)

quiet_udp-IsUdp : IsUdp quiet_udp
quiet_udp-IsUdp = record {
  permits = refl;
  per_tunnel = omega arith;
  peers = tt;
  numbers = tt;
  below = λ n h. absurd (cc h);
  mapped = λ peer n h. absurd (cc h);
  current = λ n task h r. absurd (cc h);
  queues = tt;
}

Run-IsUdp_example : IsUdp reopened
Run-IsUdp_example = Run-IsUdp udp_steps quiet_udp-IsUdp
