-- ===== src/Controller/Datagrams/Forwarded.antt =====
-- What a UDP session sends and reports.
use orange_frp.Prelude.{
  ◌≡◌, refl, sym, ap, ◌∙◌, subst, ◌⊎◌, inl, inr, Bool, ◌&&◌, List, [], ◌∷◌, ◌++◌, map, append-nil,
  append_assoc, Bool-cases, Option-cases, nat_eq, list_eq, pair_eq, length,
}
use orange_frp.Crypto.{Bytes}
use orange_frp.Floats.{Float}
use orange_frp.Gate.{GateState, Wake, reserve_datagram}
use orange_frp.Accounting.{TrafficEvent, Direction, inward, outward}
use orange_frp.Controller.{TunnelSpec}
use orange_frp.Controller.Copy.{event_of}
use orange_frp.Controller.Datagrams.{
  Outcome, returned, listening, reserving, Datagram, SessionTurn, stopped, arrived, Forwarding,
  send, forward, session_loop, run_udp_session,
}

module _ (fl : Float) (spec : TunnelSpec) where
  open fl use {F}

  -- The payloads of the datagrams in one direction, in their order.
  abbrev pub payloads_in : List (Datagram fl) → List Bytes
  payloads_in [] = []
  payloads_in (d ∷ ds) =
      let rest = payloads_in ds in elim d.direction [ inward ↦ d.payload ∷ rest | outward ↦ rest ]

  abbrev pub payloads_out : List (Datagram fl) → List Bytes
  payloads_out [] = []
  payloads_out (d ∷ ds) =
      let rest = payloads_out ds in elim d.direction [ inward ↦ rest | outward ↦ d.payload ∷ rest ]

  abbrev pub reports : List (Datagram fl) → List TrafficEvent
  reports ds = map (λ (d : Datagram fl). event_of spec d.direction (length d.payload)) ds

  -- The turns begin with datagrams that were sent whole, each to the other side, and reported; a
  -- session that still listens has passed on all of them.
  pub record Forwarded (turns : List (SessionTurn fl)) (f : Forwarding F)
      (r : Forwarding F × Outcome) : Type 0 where
    pub passed : List (Datagram fl)
    pub rest : List (SessionTurn fl)
    pub parts : map arrived passed ++ rest ≡ turns
    pub to_backend : r.0.to_backend ≡ f.to_backend ++ payloads_in passed
    pub to_peer : r.0.to_peer ≡ f.to_peer ++ payloads_out passed
    pub reported : r.0.events ≡ f.events ++ reports passed
    pub complete : r.1 ≡ listening → rest ≡ []

  none_sent :
      (turns : List (SessionTurn fl)) (f : Forwarding F) (gate : GateState F) (o : Outcome)
      → (o ≡ listening → turns ≡ [])
      → Forwarded turns f (record f { gate = gate }, o)
  none_sent turns f gate o h = record {
    passed = [];
    rest = turns;
    parts = refl;
    to_backend = sym (append-nil f.to_backend);
    to_peer = sym (append-nil f.to_peer);
    reported = sym (append-nil f.events);
    complete = h;
  }

  one_sent :
      (direction : Direction) (payload : Bytes) (wakes : List (Wake fl)) (sends : Bool)
      (turns : List (SessionTurn fl)) (f : Forwarding F) (gate : GateState F)
      (r : Forwarding F × Outcome)
      → Forwarded turns (send spec direction payload (record f { gate = gate })) r
      → Forwarded
          (arrived
              (record { direction = direction; payload = payload; wakes = wakes; sends = sends })
            ∷ turns)
          f
          r
  unfolding send
  one_sent inward payload wakes sends turns f gate r later = record {
    passed =
        record { direction = inward; payload = payload; wakes = wakes; sends = sends }
        ∷ later.passed;
    rest = later.rest;
    parts =
        ap
          (◌∷◌ (
            arrived
              (record { direction = inward; payload = payload; wakes = wakes; sends = sends })))
          later.parts;
    to_backend = later.to_backend ∙ append_assoc f.to_backend (payload ∷ []) _;
    to_peer = later.to_peer;
    reported =
        later.reported ∙ append_assoc f.events (event_of spec inward (length payload) ∷ []) _;
    complete = later.complete;
  }
  one_sent outward payload wakes sends turns f gate r later = record {
    passed =
        record { direction = outward; payload = payload; wakes = wakes; sends = sends }
        ∷ later.passed;
    rest = later.rest;
    parts =
        ap
          (◌∷◌ (
            arrived
              (record { direction = outward; payload = payload; wakes = wakes; sends = sends })))
          later.parts;
    to_backend = later.to_backend;
    to_peer = later.to_peer ∙ append_assoc f.to_peer (payload ∷ []) _;
    reported =
        later.reported ∙ append_assoc f.events (event_of spec outward (length payload) ∷ []) _;
    complete = later.complete;
  }

  forward-cases :
      (d : Datagram fl) (f : Forwarding F)
      → (gate : GateState F) × ((forward fl spec d f ≡ (record f { gate = gate }, reserving))
          ⊎ ((forward fl spec d f ≡ (record f { gate = gate }, returned))
              ⊎ (forward fl spec d f
                  ≡ (send spec d.direction d.payload (record f { gate = gate }), listening))))
  unfolding forward
  forward-cases d f =
      let reserved = reserve_datagram fl (length d.payload) d.wakes f.gate in
      (
        reserved.0,
        elim (Option-cases reserved.1) [
          | inl asleep ↦ inl (rw (asleep, forward) refl)
          | inr (granted, given) ↦ elim (Bool-cases (granted && d.sends)) [
            | inr over ↦ inr (inl (rw (given, forward) (rw over refl)))
            | inl sent ↦ inr (inr (rw (given, forward) (rw sent refl)))
          ]
        ],
      )

  -- The loop after a datagram.
  abbrev resumed : List (SessionTurn fl) → Forwarding F × Outcome → Forwarding F × Outcome
  resumed turns r = elim r.1 [
    | listening ↦ session_loop fl spec turns r.0
    | returned ↦ (r.0, returned)
    | reserving ↦ (r.0, reserving)
  ]

  session_loop-Forwarded :
      (turns : List (SessionTurn fl)) (f : Forwarding F)
      → Forwarded turns f (session_loop fl spec turns f)
  unfolding session_loop
  session_loop-Forwarded [] f = none_sent [] f f.gate listening (λ _. refl)
  session_loop-Forwarded (stopped ∷ turns) f =
      none_sent (stopped ∷ turns) f f.gate returned (λ e. absurd (cc e))
  session_loop-Forwarded (arrived d ∷ turns) f =
      let (gate, outcomes) = forward-cases d f in
      let Ends : Forwarding F × Outcome → Type 0 =
        λ r. Forwarded (arrived d ∷ turns) f (resumed turns r) in
      elim outcomes [
        | inl waits ↦
            subst Ends (sym waits)
              (none_sent (arrived d ∷ turns) f gate reserving (λ e. absurd (cc e)))
        | inr (inl over) ↦
            subst Ends (sym over)
              (none_sent (arrived d ∷ turns) f gate returned (λ e. absurd (cc e)))
        | inr (inr sent) ↦ subst Ends (sym sent) (
            one_sent d.direction d.payload d.wakes d.sends turns f gate _
              (session_loop-Forwarded turns _))
      ]

  -- A UDP session, wherever it stops, has passed on the datagrams of an initial part of its turns:
  -- each whole, in their order, those of the peer to the backend and those of the backend to the
  -- peer, with one event of its length and direction each. If it still listens, they are all.
  pub run_udp_session-Forwarded :
      (binds connects : Bool) (turns : List (SessionTurn fl)) (f : Forwarding F)
      → Forwarded turns f (run_udp_session fl spec binds connects turns f)
  unfolding run_udp_session
  run_udp_session-Forwarded binds connects turns f = elim (Bool-cases (binds && connects)) [
    | inl up ↦ rw up (session_loop-Forwarded turns f)
    | inr down ↦ rw down (none_sent turns f f.gate returned (λ e. absurd (cc e)))
  ]
