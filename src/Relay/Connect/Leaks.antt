-- ===== src/Relay/Connect/Leaks.antt =====
-- ConnectOutbound leaves no socket behind.
use netpilot.Base.{
  ℕ, ◌≡◌, ◌∙◌, inl, inr, Option, none, some, List, ◌∷◌, ◌==◌, if◌then◌else◌, arith, Option-cases,
}
use netpilot.Base.Text.{Bytes, text}
use netpilot.Std.Number.{stoull}
use netpilot.Driver.Classify.{ipproto_tcp}
use netpilot.Relay.Winsock.{Winsock, Sockets}
use netpilot.Relay.Rules.{Rules, find_rule}
use netpilot.Relay.Adapters.{find_source, find_source-opened}
use netpilot.Relay.Connect.{
  Outbound, Request, sock_stream, sock_dgram, htonl, give_up, connect_remote, hand_records,
  pin_interface, bind_adapter, open_outbound, connect_outbound,
}

-- The sockets that are open with the one that is returned, if there is one.
abbrev pub with_socket : Option ℕ → List ℕ → List ℕ
with_socket none rest = rest
with_socket (some s) rest = s ∷ rest

module _ (ws : Winsock) (t : Sockets ws) where
  open ws use {World}
  open t use {opened}

  -- The call returns the socket opened last, or has closed it.
  abbrev Settles : Outbound ws → List ℕ → Type 0
  Settles out rest = opened out.world ≡ with_socket out.socket rest

  give_up-Settles :
      (rule_id : Bytes) (s : ℕ) (action : Bytes) (w : World) (rest : List ℕ)
      → opened w ≡ s ∷ rest
      → Settles (give_up ws rule_id s action w) rest
  unfolding give_up
  give_up-Settles rule_id s action w rest h = t.close_last s rest w h

  connect_remote-Settles :
      (r : Request ws) (rule_id : Bytes) (s : ℕ) (w : World) (rest : List ℕ)
      → opened w ≡ s ∷ rest
      → Settles (connect_remote ws r rule_id s w) rest
  unfolding connect_remote
  connect_remote-Settles r rule_id s w rest h =
      let (ok, w') = ws.connect s r.remote_ipv4 r.remote_port w in
      let kept = t.connect_keeps s r.remote_ipv4 r.remote_port w ∙ h in
      ground (arith, kept, give_up-Settles rule_id s (text "outbound connect") w' rest kept)

  hand_records-Settles :
      (r : Request ws) (rule_id : Bytes) (s : ℕ) (w : World) (rest : List ℕ)
      → opened w ≡ s ∷ rest
      → Settles (hand_records ws r rule_id s w) rest
  unfolding hand_records
  hand_records-Settles r rule_id s w rest h =
      let (ok, w') = ws.set_records s r.redirect_records w in
      let kept = t.records_keep s r.redirect_records w ∙ h in
      ground (
        arith,
        kept,
        connect_remote-Settles r rule_id s w' rest kept,
        connect_remote-Settles r rule_id s w rest h,
        give_up-Settles rule_id s (text "set redirect records") w' rest kept,
      )

  pin_interface-Settles :
      (r : Request ws) (rule_id : Bytes) (index s : ℕ) (w : World) (rest : List ℕ)
      → opened w ≡ s ∷ rest
      → Settles (pin_interface ws r rule_id index s w) rest
  unfolding pin_interface
  pin_interface-Settles r rule_id index s w rest h =
      let (ok, w') = ws.set_unicast_if s (htonl index) w in
      let kept = t.unicast_keeps s (htonl index) w ∙ h in
      ground (
        arith,
        kept,
        hand_records-Settles r rule_id s w' rest kept,
        give_up-Settles rule_id s (text "IP_UNICAST_IF") w' rest kept,
      )

  bind_adapter-Settles :
      (r : Request ws) (rule_id : Bytes) (luid index s : ℕ) (w : World) (rest : List ℕ)
      → opened w ≡ s ∷ rest
      → Settles (bind_adapter ws r rule_id luid index s w) rest
  unfolding bind_adapter
  bind_adapter-Settles r rule_id luid index s w rest h =
      let w' = (find_source ws luid w).1 in
      let searched = find_source-opened ws t luid w ∙ h in
      elim (Option-cases (find_source ws luid w).0) [
        | inl nothing ↦ ground (arith, nothing, t.close_last s rest w' searched)
        | inr (a, found) ↦
            let w'' = (ws.bind s a 0 w').1 in
            let kept = t.bind_keeps s a 0 w' ∙ searched in
            ground (
              arith,
              found,
              pin_interface-Settles r rule_id index s w'' rest kept,
              give_up-Settles rule_id s (text "bind selected adapter") w'' rest kept,
            )
      ]

  open_outbound-Settles :
      (r : Request ws) (rule_id : Bytes) (luid index : ℕ) (w : World)
      → Settles (open_outbound ws r rule_id luid index w) (opened w)
  unfolding open_outbound
  open_outbound-Settles r rule_id luid index w =
      let type : ℕ = if r.protocol == ipproto_tcp then sock_stream else sock_dgram in
      elim (Option-cases (ws.socket type r.protocol w).0) [
        | inl nothing ↦ ground (arith, nothing, t.socket_fails type r.protocol w nothing)
        | inr (s, made) ↦ ground (
          arith,
          made,
          bind_adapter-Settles r rule_id luid index s (ws.socket type r.protocol w).1 (opened w)
              (t.socket_opens type r.protocol s w made),
        )
      ]

  -- On every path of ConnectOutbound, the sockets that are open afterwards are those that were
  -- open before, with the one returned if there is one: a failure closes what it opened. (Winsock
  -- is taken to work as documented.)
  pub connect_outbound_settles :
      (rules : Rules) (context : ℕ) (r : Request ws) (w : World)
      → opened (connect_outbound ws rules context r w).world
        ≡ with_socket (connect_outbound ws rules context r w).socket (opened w)
  unfolding connect_outbound
  connect_outbound_settles rules context r w = elim (Option-cases (find_rule context rules)) [
    | inl unknown ↦ ground (arith, unknown)
    | inr (rule, known) ↦ elim (Option-cases (stoull rule.interface_luid)) [
      | inl bad ↦ ground (arith, known, bad)
      | inr (luid, read) ↦ elim (Option-cases (ws.luid_to_index luid w)) [
        | inl gone ↦ ground (arith, known, read, gone)
        | inr (index, there) ↦
            ground (arith, known, read, there, open_outbound-Settles r rule.id luid index w)
      ]
    ]
  ]
