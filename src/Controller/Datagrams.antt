-- ===== src/Controller/Datagrams.antt =====
-- `run_udp_session` of server-package/crates/frp-game-server/src/controller.rs: the datagrams between
-- a peer and the backend. The branches of its `select!` that are taken are a list of turns.
pub mod Forwarded
use orange_frp.Prelude.{◌+◌, Bool, ◌&&◌, none, some, List, [], ◌∷◌, ◌++◌, if◌then◌else◌, length}
use orange_frp.Crypto.{Bytes}
use orange_frp.Floats.{Float}
use orange_frp.Gate.{GateState, Wake, reserve_datagram}
use orange_frp.Accounting.{TrafficEvent, Direction, inward, outward}
use orange_frp.Controller.{TunnelSpec}
use orange_frp.Controller.Copy.{event_of}

-- Whether the session has returned, waits for new turns, or still waits for its reservation.
pub data Outcome : Type 0 where
  returned listening reserving : Outcome

module _ (fl : Float) where
  open fl use {F}

  -- A datagram of the peer (inward) or of the backend (outward), the wake-ups of its
  -- reservation, and whether it can be sent.
  pub record Datagram : Type 0 where
    pub direction : Direction
    pub payload : Bytes
    pub wakes : List (Wake fl)
    pub sends : Bool

  -- `stopped` is a cancellation, the end of the idle time, a channel without senders, or a failed
  -- `recv`.
  pub data SessionTurn : Type 0 where
    stopped : SessionTurn
    arrived : Datagram → SessionTurn

pub record Forwarding (F : Type 0) : Type 0 where
  pub gate : GateState F
  pub to_backend : List Bytes
  pub to_peer : List Bytes
  pub events : List TrafficEvent

-- `backend.send` or `public.send_to`, and the event.
unfoldable pub send : {F : Type 0} → TunnelSpec → Direction → Bytes → Forwarding F → Forwarding F
unfolding event_of
send spec inward payload f = record f {
  to_backend = f.to_backend ++ payload ∷ [];
  events = f.events ++ event_of spec inward (length payload) ∷ [];
}
send spec outward payload f = record f {
  to_peer = f.to_peer ++ payload ∷ [];
  events = f.events ++ event_of spec outward (length payload) ∷ [];
}

module _ (fl : Float) (spec : TunnelSpec) where
  open fl use {F}

  -- The branch of a datagram.
  unfoldable pub forward : Datagram fl → Forwarding F → Forwarding F × Outcome
  unfolding send
  forward d f =
      let (gate, result) = reserve_datagram fl (length d.payload) d.wakes f.gate in
      elim result [
        | none ↦ (record f { gate = gate }, reserving)
        | some granted ↦
            if granted && d.sends
            then (send spec d.direction d.payload (record f { gate = gate }), listening)
            else (record f { gate = gate }, returned)
      ]

  unfoldable pub session_loop : List (SessionTurn fl) → Forwarding F → Forwarding F × Outcome
  unfolding forward
  session_loop [] f = (f, listening)
  session_loop (stopped ∷ turns) f = (f, returned)
  session_loop (arrived d ∷ turns) f =
      let (f', outcome) = forward d f in
      elim outcome [
        | listening ↦ session_loop turns f'
        | returned ↦ (f', returned)
        | reserving ↦ (f', reserving)
      ]

  -- `run_udp_session`, with what the binding and the connection of its socket give.
  unfoldable pub run_udp_session :
      Bool → Bool → List (SessionTurn fl) → Forwarding F → Forwarding F × Outcome
  unfolding session_loop
  run_udp_session binds connects turns f =
      if binds && connects then session_loop turns f else (f, returned)
