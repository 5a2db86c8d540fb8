-- ===== src/Controller/Listeners.antt =====
-- `run_tcp_listener` and `run_udp_listener` of server-package/crates/frp-game-server/src/controller.rs
-- with the tasks that they spawn, as steps of one listener among others that share the global
-- semaphore. A packet is handled in one step: a session that ends meanwhile gives the same state as
-- one that ends before or after. Addresses are a parameter.
pub mod Ended
pub mod Permits
pub mod Runs
pub mod Sessions
pub mod Tests
use orange_frp.Prelude.{
  ℕ, ◌+◌, ◌-◌, ◌<◌, ◌≡◌, Bool, true, false, ◌||◌, none, some, List, [], ◌∷◌, ◌++◌, leb, nat_beq,
  if◌then◌else◌, Eq, nat_eq, list_eq, pair_eq, length, drop, lookup, insert, remove,
}
use orange_frp.Crypto.{Bytes}

abbrev pub max_tcp_connections_per_tunnel : ℕ
max_tcp_connections_per_tunnel = 1024

abbrev pub max_tcp_connections_total : ℕ
max_tcp_connections_total = 4096

abbrev pub max_udp_sessions_per_tunnel : ℕ
max_udp_sessions_per_tunnel = 512

abbrev pub max_udp_sessions_total : ℕ
max_udp_sessions_total = 1024

abbrev pub udp_session_queue_capacity : ℕ
udp_session_queue_capacity = 1

-- The connections of a listener, the permits that are left, and the connections of the others.
pub record TcpListener : Type 0 where
  pub active : ℕ
  pub connections : ℕ
  pub global_connections : ℕ
  pub others : ℕ

-- An accepted connection: it is dropped, with its permit, where a permit cannot be had.
unfoldable pub accept_connection : TcpListener → TcpListener
accept_connection s =
    if nat_beq s.connections 0 || nat_beq s.global_connections 0 then s else record s {
      active = s.active + 1;
      connections = s.connections - 1;
      global_connections = s.global_connections - 1;
    }

-- The task of a connection ends and drops both permits.
unfoldable pub end_connection : TcpListener → TcpListener
end_connection s = if nat_beq s.active 0 then s else record s {
  active = s.active - 1;
  connections = s.connections + 1;
  global_connections = s.global_connections + 1;
}

pub data TcpStep : TcpListener → TcpListener → Type 0 where
  accepted : (s : TcpListener) → TcpStep s (accept_connection s)
  ended : (s : TcpListener) → TcpStep s (end_connection s)
  acquired :
      (s : TcpListener)
      → 0 < s.global_connections
      → TcpStep s
          (record s { global_connections = s.global_connections - 1; others = s.others + 1 })
  released :
      (s : TcpListener)
      → 0 < s.others
      → TcpStep s
          (record s { global_connections = s.global_connections + 1; others = s.others - 1 })

-- The channel of a session whose task has not ended: what is queued, and whether the task still
-- receives.
pub record Session (Addr : Type 0) : Type 0 where
  pub peer : Addr
  pub queue : List Bytes
  pub receiving : Bool

-- The map from peers to channels, the sessions under the numbers of their channels, the next
-- number, the permits that are left and those of the other listeners.
pub record UdpListener (Addr : Type 0) : Type 0 where
  pub sessions : List (Addr × ℕ)
  pub tasks : List (ℕ × Session Addr)
  pub next : ℕ
  pub global_sessions : ℕ
  pub others : ℕ

module _ {Addr : Type 0} ⦃e : Eq Addr⦄ where
  -- A packet of a peer without a session.
  unfoldable pub open_session : Addr → Bytes → UdpListener Addr → UdpListener Addr
  open_session peer packet s =
      if leb max_udp_sessions_per_tunnel (length s.sessions) || nat_beq s.global_sessions 0
      then s
      else record s {
        sessions = insert peer s.next s.sessions;
        tasks =
            insert s.next (record { peer = peer; queue = packet ∷ []; receiving = true }) s.tasks;
        next = s.next + 1;
        global_sessions = s.global_sessions - 1;
      }

  -- `try_send`: a full channel drops the packet, a closed one gives it back.
  unfoldable pub receive_packet : Addr → Bytes → UdpListener Addr → UdpListener Addr
  unfolding open_session
  receive_packet peer packet s = elim (lookup peer s.sessions) [
    | none ↦ open_session peer packet s
    | some n ↦ elim (lookup n s.tasks) [
      | none ↦ open_session peer packet (record s { sessions = remove peer s.sessions })
      | some task ↦
          if task.receiving
          then if leb udp_session_queue_capacity (length task.queue) then s else record s {
            tasks = insert n (record task { queue = task.queue ++ packet ∷ [] }) s.tasks;
          }
          else open_session peer packet (record s { sessions = remove peer s.sessions })
    ]
  ]

  -- The session takes a packet.
  unfoldable pub take_packet : ℕ → Session Addr → UdpListener Addr → UdpListener Addr
  take_packet n task s = record s {
    tasks = insert n (record task { queue = drop 1 task.queue }) s.tasks;
  }

  -- `run_udp_session` returns.
  unfoldable pub close_session : ℕ → Session Addr → UdpListener Addr → UdpListener Addr
  close_session n task s = record s { tasks = insert n (record task { receiving = false }) s.tasks }

  -- What the task does then: its entry of the map, if it is still its own, and its permit.
  unfoldable pub end_session : ℕ → Session Addr → UdpListener Addr → UdpListener Addr
  end_session n task s = record s {
    sessions = elim (lookup task.peer s.sessions) [
      | none ↦ s.sessions
      | some m ↦ if nat_beq m n then remove task.peer s.sessions else s.sessions
    ];
    tasks = remove n s.tasks;
    global_sessions = s.global_sessions + 1;
  }

  pub data UdpStep : UdpListener Addr → UdpListener Addr → Type 0 where
    received :
        (s : UdpListener Addr) (peer : Addr) (packet : Bytes)
        → UdpStep s (receive_packet peer packet s)
    consumed :
        (s : UdpListener Addr) (n : ℕ) (task : Session Addr)
        → lookup n s.tasks ≡ some task
        → task.receiving ≡ true
        → UdpStep s (take_packet n task s)
    closed :
        (s : UdpListener Addr) (n : ℕ) (task : Session Addr)
        → lookup n s.tasks ≡ some task
        → task.receiving ≡ true
        → UdpStep s (close_session n task s)
    ended :
        (s : UdpListener Addr) (n : ℕ) (task : Session Addr)
        → lookup n s.tasks ≡ some task
        → task.receiving ≡ false
        → UdpStep s (end_session n task s)
    acquired :
        (s : UdpListener Addr)
        → 0 < s.global_sessions
        → UdpStep s (record s { global_sessions = s.global_sessions - 1; others = s.others + 1 })
    released :
        (s : UdpListener Addr)
        → 0 < s.others
        → UdpStep s (record s { global_sessions = s.global_sessions + 1; others = s.others - 1 })

-- Runs of steps.
pub data Run {S : Type 0} (Step : S → S → Type 0) (s : S) : S → Type 0 where
  start : Run Step s s
  next_step : {t u : S} → Run Step s t → Step t u → Run Step s u
