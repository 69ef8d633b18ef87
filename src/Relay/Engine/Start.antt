-- ===== src/Relay/Engine/Start.antt =====
-- What Start leaves open.
use netpilot.Base.{
  ℕ, ◌≡◌, refl, ◌≢◌, ◌∙◌, ◌⊎◌, inl, inr, true, false, none, some, List, ◌∷◌, arith, Bool-cases,
  Option-cases,
}
use netpilot.Driver.Classify.{
  ipproto_tcp, ipproto_udp, tcp_proxy_port, udp_proxy_port, swap_u16, loopback,
}
use netpilot.Relay.Winsock.{Winsock, Sockets}
use netpilot.Relay.Connect.{sock_stream, sock_dgram}
use netpilot.Relay.Connect.Leaks.{with_socket}
use netpilot.Relay.Engine.{Engine, listen_on, listener, start_listeners, start, stop}

module _ (ws : Winsock) (t : Sockets ws) where
  open ws use {World}
  open t use {opened}

  listen_on-opened :
      (type port s : ℕ) (w : World) → opened (listen_on ws type port s w).1 ≡ opened w
  unfolding listen_on
  listen_on-opened type port s w =
      let w' = (ws.bind s loopback (swap_u16 port) w).1 in
      ground (arith, t.bind_keeps s loopback (swap_u16 port) w, t.listen_keeps s w')

  pub listener-opened :
      (type protocol port : ℕ) (w : World)
      → opened (listener ws type protocol port w).1
        ≡ with_socket (listener ws type protocol port w).0 (opened w)
  unfolding listener
  listener-opened type protocol port w =
      let w' = (ws.socket type protocol w).1 in
      elim (Option-cases (ws.socket type protocol w).0) [
        | inl nothing ↦ ground (arith, nothing, t.socket_fails type protocol w nothing)
        | inr (s, made) ↦
            let v = ws.set_reuse_address s w' in
            let kept : opened (listen_on ws type port s v).1 ≡ s ∷ opened w =
              listen_on-opened type port s v
              ∙ t.reuse_keeps s w'
              ∙ t.socket_opens type protocol s w made in
            ground
              (arith, made, kept, t.close_last s (opened w) (listen_on ws type port s v).1 kept)
      ]

  start_listeners-opened :
      (g : Engine ws)
      → g.running ≡ false
      → opened (start_listeners ws g).1.world
        ≡ with_socket
            (start_listeners ws g).1.udp_listener
            (with_socket (start_listeners ws g).1.tcp_listener (opened g.world))
  unfolding start_listeners stop
  start_listeners-opened g off =
      let (tcp, w) = listener ws sock_stream ipproto_tcp tcp_proxy_port g.world in
      let (udp, w') = listener ws sock_dgram ipproto_udp udp_proxy_port w in
      let first = listener-opened sock_stream ipproto_tcp tcp_proxy_port g.world in
      let second = listener-opened sock_dgram ipproto_udp udp_proxy_port w in
      elim (Option-cases tcp) [
        | inl a ↦ ground (arith, off, a, first, second)
        | inr (s, a) ↦ elim (Option-cases udp) [
          | inl b ↦ ground (arith, off, a, b, first, second)
          | inr (u, b) ↦ ground (arith, off, a, b, first, second)
        ]
      ]

  -- With a running relay both listeners are there.
  pub record Listening (g : Engine ws) (before : List ℕ) : Type 0 where
    pub running : g.running ≡ true
    pub tcp : ℕ
    pub udp : ℕ
    pub tcp_is : g.tcp_listener ≡ some tcp
    pub udp_is : g.udp_listener ≡ some udp
    pub sockets : opened g.world ≡ udp ∷ tcp ∷ before

  -- A call of Winsock that a listener needs fails.
  pub data Fails (type protocol port : ℕ) (w : World) : Type 0 where
    no_socket : (ws.socket type protocol w).0 ≡ none → Fails type protocol port w
    no_bind :
        (s : ℕ)
        → (ws.socket type protocol w).0 ≡ some s
        → (ws.bind s loopback
            (swap_u16 port)
            (ws.set_reuse_address s (ws.socket type protocol w).1)).0
          ≡ false
        → Fails type protocol port w
    no_listen :
        (s : ℕ)
        → (ws.socket type protocol w).0 ≡ some s
        → type ≡ sock_stream
        → (ws.listen s
            (ws.bind s loopback
              (swap_u16 port)
              (ws.set_reuse_address s (ws.socket type protocol w).1)).1).0
          ≡ false
        → Fails type protocol port w

  listener-Fails :
      (type protocol port : ℕ) (w : World)
      → (listener ws type protocol port w).0 ≡ none
      → Fails type protocol port w
  unfolding listener listen_on
  listener-Fails type protocol port w h = elim (Option-cases (ws.socket type protocol w).0) [
    | inl nothing ↦ no_socket nothing
    | inr (s, made) ↦
        let v = ws.set_reuse_address s (ws.socket type protocol w).1 in
        elim (Bool-cases (ws.bind s loopback (swap_u16 port) v).0) [
          | inr loose ↦ no_bind s made loose
          | inl bound ↦
              no_listen s made (ground (arith, made, bound, h)) (ground (arith, made, bound, h))
        ]
  ]

  -- What came of the two listeners: WSAStartup failed, or each is open unless a call that it needs
  -- failed. The second one is tried after the first one.
  pub data Tried (w : World) (g : Engine ws) : Type 0 where
    no_winsock : (ws.startup w).0 ≡ false → Tried w g
    tried :
        ((s : ℕ) × (g.tcp_listener ≡ some s))
          ⊎ Fails sock_stream ipproto_tcp tcp_proxy_port (ws.startup w).1
        → ((s : ℕ) × (g.udp_listener ≡ some s))
          ⊎ Fails sock_dgram ipproto_udp udp_proxy_port
              (listener ws sock_stream ipproto_tcp tcp_proxy_port (ws.startup w).1).1
        → Tried w g

  start_listeners-Tried :
      (w : World) (g : Engine ws)
      → g.running ≡ false
      → g.world ≡ (ws.startup w).1
      → Tried w (start_listeners ws g).1
  unfolding start_listeners stop
  start_listeners-Tried w g off here =
      let v = (ws.startup w).1 in
      let (tcp, w1) = listener ws sock_stream ipproto_tcp tcp_proxy_port v in
      let (udp, w2) = listener ws sock_dgram ipproto_udp udp_proxy_port w1 in
      tried
        (elim (Option-cases tcp) [
          | inl none_made ↦ inr (listener-Fails sock_stream ipproto_tcp tcp_proxy_port v none_made)
          | inr (s, made) ↦ inl (s, ground (arith, off, here, made))
        ])
        (elim (Option-cases udp) [
          | inl none_made ↦ inr (listener-Fails sock_dgram ipproto_udp udp_proxy_port w1 none_made)
          | inr (s, made) ↦ inl (s, ground (arith, off, here, made))
        ])

  -- The relay does not run, one listener is missing, and one that could be opened is kept and still
  -- open.
  pub record HalfOpen (g : Engine ws) (before : List ℕ) : Type 0 where
    pub stopped : g.running ≡ false
    pub missing : (g.tcp_listener ≡ none) ⊎ (g.udp_listener ≡ none)
    pub sockets : opened g.world ≡ with_socket g.udp_listener (with_socket g.tcp_listener before)

  start_listeners_cases :
      (g : Engine ws)
      → g.running ≡ false
      → (((start_listeners ws g).0 ≡ none) × Listening (start_listeners ws g).1 (opened g.world))
        ⊎ (((start_listeners ws g).0 ≢ none) × HalfOpen (start_listeners ws g).1 (opened g.world))
  unfolding start_listeners stop
  start_listeners_cases g off =
      let (tcp, w) = listener ws sock_stream ipproto_tcp tcp_proxy_port g.world in
      let (udp, w') = listener ws sock_dgram ipproto_udp udp_proxy_port w in
      let sockets = start_listeners-opened g off in
      elim (Option-cases tcp) [
        | inl a ↦ inr (
          ground (arith, off, a),
          record {
            stopped = ground (arith, off, a);
            missing = inl (ground (arith, off, a));
            sockets = sockets;
          },
        )
        | inr (s, a) ↦ elim (Option-cases udp) [
          | inl b ↦ inr (
            ground (arith, off, a, b),
            record {
              stopped = ground (arith, off, a, b);
              missing = inr (ground (arith, off, a, b));
              sockets = sockets;
            },
          )
          | inr (u, b) ↦ inl (
            ground (arith, off, a, b),
            record {
              running = ground (arith, off, a, b);
              tcp = s;
              udp = u;
              tcp_is = ground (arith, off, a, b);
              udp_is = ground (arith, off, a, b);
              sockets = ground (arith, off, a, b, sockets);
            },
          )
        ]
      ]

  -- A stopped relay that is started runs with both of its listeners open, or Start fails; then
  -- it does not run, one listener is missing, and each listener is there and still open unless
  -- WSAStartup or a call that this listener needs failed. (Winsock is taken to work as documented.)
  pub start_cases :
      (g : Engine ws)
      → g.running ≡ false
      → g.tcp_listener ≡ none
      → g.udp_listener ≡ none
      → (((start ws g).0 ≡ none) × Listening (start ws g).1 (opened g.world))
        ⊎ (((start ws g).0 ≢ none)
            × (HalfOpen (start ws g).1 (opened g.world) × Tried g.world (start ws g).1))
  unfolding start
  start_cases g off no_tcp no_udp =
      let (ok, w) = ws.startup g.world in
      let kept = t.startup_keeps g.world in
      elim (Bool-cases ok) [
        | inr b ↦ inr (
          ground (arith, off, b),
          (
            record {
              stopped = ground (arith, off, b);
              missing = inl (ground (arith, off, b, no_tcp));
              sockets = ground (arith, off, b, kept, no_tcp, no_udp);
            },
            no_winsock b,
          ),
        )
        | inl b ↦
            let g' : Engine ws = record g { world = w } in
            let e : start ws g ≡ start_listeners ws g' = ground (arith, off, b) in
            elim (start_listeners_cases g' off) [
              | inl ran ↦ rw (e, ← kept) (inl ran)
              | inr (failed, half) ↦
                  rw (e, ← kept) (inr (failed, (half, start_listeners-Tried g.world g' off refl)))
            ]
      ]
