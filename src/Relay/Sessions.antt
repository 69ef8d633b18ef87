-- ===== src/Relay/Sessions.antt =====
-- RelayTcp and RelayUdpSession up to the point where the pumps start: what the calls of Winsock
-- decide, as the script of the rest of the worker.
use netpilot.Base.{ℕ, Bool, false, none, some, List, [], ◌∷◌, if◌then◌else◌}
use netpilot.Base.Text.{Bytes}
use netpilot.Driver.Classify.{RedirectContext, ipproto_udp, udp_proxy_port, swap_u16, loopback}
use netpilot.Relay.Winsock.{Winsock}
use netpilot.Relay.Rules.{Rules}
use netpilot.Relay.Connect.{Outbound, Request, refuse, connect_outbound, sock_dgram}
use netpilot.Relay.Query.{Found, found, missed, query_context}
use netpilot.Relay.Workers.{
  Action, track_socket, untrack_socket, begin, relay, finish, send_first, reported,
}

module _ (ws : Winsock) where
  open ws use {World}

  request_of : ℕ → RedirectContext → Bytes → Request ws
  request_of protocol context records = record {
    protocol = protocol;
    remote_ipv4 = context.remote_ipv4;
    remote_port = context.remote_port;
    redirect_records = records;
  }

  -- QueryContext, and ConnectOutbound if it succeeds.
  unfoldable connect_client : Rules → Found (RedirectContext × Bytes) → World → Outbound ws
  unfolding request_of
  connect_client rules (missed error) w = refuse ws [] error w
  connect_client rules (found (context, records)) w =
      connect_outbound ws rules context.rule_context (request_of context.protocol context records) w

  -- On failure the client is closed; the script goes on with the sections that hold the mutex.
  tcp_script : ℕ → Outbound ws → List Action × World
  tcp_script client out = elim out.socket [
    | none ↦
        (reported out.rule_id out.error (untrack_socket client ∷ []), ws.close client out.world)
    | some outbound ↦ (
      track_socket outbound
          ∷ begin out.rule_id 0
          ∷ relay out.rule_id
          ∷ untrack_socket outbound
          ∷ untrack_socket client
          ∷ finish out.rule_id
          ∷ [],
      out.world,
    )
  ]

  unfoldable tcp_way : Rules → ℕ → World → List Action × World
  unfolding tcp_script
  tcp_way rules client w =
      let (answer, w') = query_context ws client w in
      tcp_script client (connect_client rules answer w')

  udp_script : ℕ → ℕ → Outbound ws → List Action × World
  udp_script local size out = elim out.socket [
    | none ↦ (reported out.rule_id out.error [], ws.close local out.world)
    | some outbound ↦ (
      track_socket local
          ∷ track_socket outbound
          ∷ begin out.rule_id size
          ∷ send_first local outbound out.rule_id
          ∷ [],
      out.world,
    )
  ]

  -- The client is given by its address and port; the socket towards it is bound to the proxy's
  -- own endpoint.
  unfoldable udp_local : ℕ → ℕ → ℕ → World → Bool × World
  udp_local local address port w =
      let (bound, w') =
        ws.bind local loopback (swap_u16 udp_proxy_port) (ws.set_reuse_address local w) in
      let (connected, w'') = ws.connect local address port w' in
      if bound then (connected, w'') else (false, w')

  unfoldable udp_way : Rules → ℕ → ℕ → ℕ → RedirectContext → Bytes → World → List Action × World
  unfolding udp_script request_of
  udp_way rules address port size context records w =
      let (opened, w') = ws.socket sock_dgram ipproto_udp w in
      elim opened [
        | none ↦ ([], w')
        | some local ↦
            let (ready, w'') = udp_local local address port w' in
            if ready
            then udp_script local size (
                connect_outbound ws rules context.rule_context
                  (request_of ipproto_udp context records) w'')
            else ([], ws.close local w'')
      ]
