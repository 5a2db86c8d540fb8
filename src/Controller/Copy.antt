-- ===== src/Controller/Copy.antt =====
-- `copy_limited` of server-package/crates/frp-game-server/src/controller.rs: one direction of a TCP
-- connection. `proxy_tcp_connection` drops it when the other direction ends or at a cancellation.
pub mod Counts
use orange_frp.Prelude.{ℕ, ◌+◌, none, some, List, [], ◌∷◌, ◌++◌, length, take, drop}
use orange_frp.Crypto.{Bytes}
use orange_frp.Floats.{Float}
use orange_frp.Gate.{GateState, Wake, reserve_stream}
use orange_frp.Accounting.{TrafficEvent, Direction}
use orange_frp.Controller.{TunnelSpec}

-- Where the loop over a buffer stands: all of it is written, the quota is used up and the writer
-- shut down, a write has failed, `reserve_stream` still waits, or the future was dropped.
pub data Progress : Type 0 where
  drained shut_down failed waiting dropped : Progress

-- How a turn goes on with the bytes that were granted: all are written and reported; `write_all`
-- fails when some are written; or the future is dropped when some are written and the event is not
-- yet sent.
pub data Writing : Type 0 where
  whole : Writing
  broken abandoned : ℕ → Writing

module _ (fl : Float) where
  open fl use {F}

  -- What comes of one turn: the wake-ups of its reservation, and the writing.
  pub record Attempt : Type 0 where
    pub wakes : List (Wake fl)
    pub writing : Writing

pub record Copying (F : Type 0) : Type 0 where
  pub gate : GateState F
  pub written : Bytes
  pub events : List TrafficEvent

unfoldable pub event_of : TunnelSpec → Direction → ℕ → TrafficEvent
event_of spec direction allowed = record {
  user_id = spec.user_id;
  proxy_name = spec.proxy_name;
  protocol = spec.protocol;
  public_port = spec.public_port;
  direction = direction;
  bytes = allowed;
}

module _ (fl : Float) (spec : TunnelSpec) (direction : Direction) where
  open fl use {F}

  -- `while offset < read`, on the part of the buffer behind the offset.
  unfoldable pub copy_buffer : Bytes → List (Attempt fl) → Copying F → Copying F × Progress
  unfolding event_of
  copy_buffer [] attempts c = (c, drained)
  copy_buffer (x ∷ rest) [] c = (c, waiting)
  copy_buffer (x ∷ rest) (a ∷ attempts) c =
      let (gate, result) = reserve_stream fl (length (x ∷ rest)) a.wakes c.gate in
      elim result [
        | none ↦ (record c { gate = gate }, waiting)
        | some none ↦ (record c { gate = gate }, shut_down)
        | some (some allowed) ↦
            let next = copy_buffer (drop allowed (x ∷ rest)) attempts (record {
              gate = gate;
              written = c.written ++ take allowed (x ∷ rest);
              events = c.events ++ event_of spec direction allowed ∷ [];
            }) in
            elim a.writing [
              | whole ↦ next
              | broken n ↦ (
                record c { gate = gate; written = c.written ++ take n (take allowed (x ∷ rest)) },
                failed,
              )
              | abandoned n ↦ (
                record c { gate = gate; written = c.written ++ take n (take allowed (x ∷ rest)) },
                dropped,
              )
            ]
      ]

  -- `copy_limited`, over the buffers that are read; an empty read ends it.
  unfoldable pub copy_limited : List (Bytes × List (Attempt fl)) → Copying F → Copying F × Progress
  unfolding copy_buffer
  copy_limited [] c = (c, waiting)
  copy_limited (([], attempts) ∷ reads) c = (c, shut_down)
  copy_limited ((x ∷ rest, attempts) ∷ reads) c =
      let (c', progress) = copy_buffer (x ∷ rest) attempts c in
      elim progress [
        | drained ↦ copy_limited reads c'
        | shut_down ↦ (c', shut_down)
        | failed ↦ (c', failed)
        | waiting ↦ (c', waiting)
        | dropped ↦ (c', dropped)
      ]
