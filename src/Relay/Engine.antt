-- ===== src/Relay/Engine.antt =====
-- Listener, Start, RestartFlows and Stop, on the fields of RelayEngine. What Stop waits for is in
-- the relation of Workers: here the threads have ended.
pub mod Start
use netpilot.Base.{
  ℕ, ◌≡◌, ◌≢◌, refl, ◌∙◌, ◌⊎◌, inl, inr, Bool, true, false, not, ◌&&◌, ◌||◌, Option, none, some,
  List, [], ◌∷◌, ◌++◌, ◌==◌, if◌then◌else◌, arith, Bool-cases, Option-cases,
}
use netpilot.Base.Text.{Bytes, text}
use netpilot.Driver.Classify.{
  ipproto_tcp, ipproto_udp, tcp_proxy_port, udp_proxy_port, swap_u16, loopback,
}
use netpilot.Relay.Winsock.{Winsock, Sockets}
use netpilot.Relay.Connect.{sock_stream, sock_dgram, socket_error}
use netpilot.Relay.Connect.Leaks.{with_socket}
use netpilot.Relay.Shared.{Shared}

module _ (ws : Winsock) where
  open ws use {World}

  pub record Engine : Type 0 where
    pub running : Bool
    pub tcp_listener : Option ℕ
    pub udp_listener : Option ℕ
    pub shared : Shared
    pub log : List Bytes
    pub world : World

  unfoldable pub listen_on : ℕ → ℕ → ℕ → World → Bool × World
  listen_on type port s w =
      let (bound, w') = ws.bind s loopback (swap_u16 port) w in
      let (listening, w'') = ws.listen s w' in
      if bound then (if type == sock_stream then (listening, w'') else (true, w')) else (false, w')

  unfoldable pub listener : ℕ → ℕ → ℕ → World → Option ℕ × World
  unfolding listen_on
  listener type protocol port w =
      let (opened, w') = ws.socket type protocol w in
      elim opened [
        | none ↦ (none, w')
        | some s ↦
            let (ready, w'') = listen_on type port s (ws.set_reuse_address s w') in
            if ready then (some s, w'') else (none, ws.close s w'')
      ]

  shut_down_all : List ℕ → World → World
  shut_down_all [] w = w
  shut_down_all (s ∷ rest) w = shut_down_all rest (ws.shut_down s w)

  unfoldable pub restart_flows : Engine → Engine
  unfolding shut_down_all
  restart_flows g = record g {
    world = shut_down_all g.shared.active_sockets g.world;
    log =
        g.log ++ text "[NetPilot App Routing] existing selected flows were closed for restart" ∷ [];
  }

  close_listener : Option ℕ → World → World
  close_listener none w = w
  close_listener (some s) w = ws.close s w

  unfoldable pub stop : Engine → Engine
  unfolding close_listener restart_flows
  stop g =
      let w = close_listener g.udp_listener (close_listener g.tcp_listener g.world) in
      let g' =
        restart_flows
          (record g { running = false; tcp_listener = none; udp_listener = none; world = w }) in
      if not g.running then g else record g' { world = ws.cleanup g'.world }

  -- The answer of Start: `none` is true, and otherwise the error.
  abbrev is_missing : Option ℕ → Bool
  is_missing none = true
  is_missing (some s) = false

  unfoldable pub start_listeners : Engine → Option Bytes × Engine
  start_listeners g =
      let (tcp, w) = listener sock_stream ipproto_tcp tcp_proxy_port g.world in
      let (udp, w') = listener sock_dgram ipproto_udp udp_proxy_port w in
      let g' = record g { tcp_listener = tcp; udp_listener = udp; world = w' } in
      if is_missing tcp || is_missing udp
      then (some (socket_error ws (text "proxy listener") w'), stop g')
      else (
        none,
        record g' {
          running = true;
          log = g.log ++ text "[NetPilot App Routing] TCP/UDP relay listeners started" ∷ [];
        },
      )

  unfoldable pub start : Engine → Option Bytes × Engine
  start g =
      let (ok, w) = ws.startup g.world in
      if g.running
      then (none, g)
      else if not ok
      then (some (text "WSAStartup failed"), record g { world = w })
      else start_listeners (record g { world = w })
