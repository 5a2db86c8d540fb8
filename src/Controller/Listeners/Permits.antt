-- ===== src/Controller/Listeners/Permits.antt =====
-- The permits of the listeners in server-package/crates/frp-game-server/src/controller.rs.
use orange_frp.Prelude.{
  ◌+◌, ◌≡◌, inl, inr, ◌||◌, arith, nat_beq, Bool-cases, nat_eq, list_eq, pair_eq,
}
use orange_frp.Controller.Listeners.{
  max_tcp_connections_per_tunnel, max_tcp_connections_total, TcpListener, TcpStep,
  accept_connection, end_connection, Run, start, next_step,
}

-- Every permit is free or held by a connection.
pub record IsTcp (s : TcpListener) : Type 0 where
  pub tunnel : s.active + s.connections ≡ max_tcp_connections_per_tunnel
  pub whole : s.active + s.others + s.global_connections ≡ max_tcp_connections_total

TcpStep-IsTcp : {s t : TcpListener} → TcpStep s t → IsTcp s → IsTcp t
unfolding accept_connection end_connection
TcpStep-IsTcp (TcpStep.accepted s) v =
    elim (Bool-cases (nat_beq s.connections 0 || nat_beq s.global_connections 0)) [
      | inl full ↦ rw full v
      | inr room ↦
          rw room (record { tunnel = ground (arith, v.tunnel); whole = ground (arith, v.whole) })
    ]
TcpStep-IsTcp (TcpStep.ended s) v = elim (Bool-cases (nat_beq s.active 0)) [
  | inl idle ↦ rw idle v
  | inr busy ↦
      rw busy (record { tunnel = ground (arith, v.tunnel); whole = ground (arith, v.whole) })
]
TcpStep-IsTcp (TcpStep.acquired s h) v = record {
  tunnel = v.tunnel;
  whole = omega (arith, v.whole);
}
TcpStep-IsTcp (TcpStep.released s h) v = record {
  tunnel = v.tunnel;
  whole = omega (arith, v.whole);
}

-- However connections come and go, every permit is free or held by one: a tunnel has at most 1024
-- connections and the server at most 4096, and a connection that ends gives both permits back.
pub Run-IsTcp : {s t : TcpListener} → Run TcpStep s t → IsTcp s → IsTcp t
Run-IsTcp start v = v
Run-IsTcp (next_step r step) v = TcpStep-IsTcp step (Run-IsTcp r v)
