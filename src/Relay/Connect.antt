-- ===== src/Relay/Connect.antt =====
-- SocketError and ConnectOutbound.
pub mod Leaks
pub mod Binding
use netpilot.Base.{
  ℕ, ◌*◌, ◌+◌, ◌/◌, ◌%◌, Bool, true, false, not, ◌&&◌, Option, none, some, List, [], ◌∷◌, ◌++◌,
  ◌==◌, if◌then◌else◌,
}
use netpilot.Base.Text.{Bytes, text, is_empty}
use netpilot.Std.Number.{to_string, stoull}
use netpilot.Driver.Classify.{ipproto_tcp}
use netpilot.Relay.Winsock.{Winsock}
use netpilot.Relay.Rules.{Rules, find_rule}
use netpilot.Relay.Adapters.{find_source}

-- SOCK_STREAM and SOCK_DGRAM.
abbrev pub sock_stream : ℕ
sock_stream = 1

abbrev pub sock_dgram : ℕ
sock_dgram = 2

-- htonl of a 32-bit value.
abbrev pub htonl : ℕ → ℕ
htonl x = x % 256 * 16777216 + x / 256 % 256 * 65536 + x / 65536 % 256 * 256 + x / 16777216 % 256

module _ (ws : Winsock) where
  open ws use {World}

  unfoldable pub socket_error : Bytes → World → Bytes
  unfolding to_string
  socket_error action w =
      action ++ (text " failed (Winsock " ++ (to_string (ws.last_error w) ++ text ")"))

  -- The socket that is returned, what `*rule_id` and `*error` are set to (empty where they are left
  -- alone), and the world.
  pub record Outbound : Type 0 where
    pub socket : Option ℕ
    pub rule_id : Bytes
    pub error : Bytes
    pub world : World

  abbrev pub refuse : Bytes → Bytes → World → Outbound
  refuse rule_id error w = record { socket = none; rule_id = rule_id; error = error; world = w }

  -- What a connection is asked for: the protocol, the remote endpoint and the redirect records.
  pub record Request : Type 0 where
    pub protocol : ℕ
    pub remote_ipv4 : ℕ
    pub remote_port : ℕ
    pub redirect_records : Bytes

  -- `closesocket(outbound)` and the error of the last call.
  unfoldable pub give_up : Bytes → ℕ → Bytes → World → Outbound
  give_up rule_id s action w = refuse rule_id (socket_error action w) (ws.close s w)

  unfoldable pub connect_remote : Request → Bytes → ℕ → World → Outbound
  connect_remote r rule_id s w =
      let (ok, w') = ws.connect s r.remote_ipv4 r.remote_port w in
      if ok
      then record { socket = some s; rule_id = rule_id; error = []; world = w' }
      else give_up rule_id s (text "outbound connect") w'

  unfoldable pub hand_records : Request → Bytes → ℕ → World → Outbound
  hand_records r rule_id s w =
      let (ok, w') = ws.set_records s r.redirect_records w in
      if r.protocol == ipproto_tcp && not (is_empty r.redirect_records)
      then (if ok
          then connect_remote r rule_id s w'
          else give_up rule_id s (text "set redirect records") w')
      else connect_remote r rule_id s w

  unfoldable pub pin_interface : Request → Bytes → ℕ → ℕ → World → Outbound
  pin_interface r rule_id index s w =
      let (ok, w') = ws.set_unicast_if s (htonl index) w in
      if ok then hand_records r rule_id s w' else give_up rule_id s (text "IP_UNICAST_IF") w'

  unfoldable pub bind_adapter : Request → Bytes → ℕ → ℕ → ℕ → World → Outbound
  bind_adapter r rule_id luid index s w =
      let (found, w') = find_source ws luid w in
      elim found [
        | none ↦ refuse rule_id (text "selected adapter has no IPv4 address") (ws.close s w')
        | some a ↦
            let (ok, w'') = ws.bind s a 0 w' in
            if ok
            then pin_interface r rule_id index s w''
            else give_up rule_id s (text "bind selected adapter") w''
      ]

  unfoldable pub open_outbound : Request → Bytes → ℕ → ℕ → World → Outbound
  open_outbound r rule_id luid index w =
      let type = if r.protocol == ipproto_tcp then sock_stream else sock_dgram in
      let (opened, w') = ws.socket type r.protocol w in
      elim opened [
        | none ↦ refuse rule_id (socket_error (text "outbound socket") w') w'
        | some s ↦ bind_adapter r rule_id luid index s w'
      ]

  unfoldable pub connect_outbound : Rules → ℕ → Request → World → Outbound
  connect_outbound rules context r w = elim (find_rule context rules) [
    | none ↦ refuse [] (text "redirect context does not map to an active rule") w
    | some rule ↦ elim (stoull rule.interface_luid) [
      | none ↦ refuse rule.id (text "invalid adapter LUID") w
      | some luid ↦ elim (ws.luid_to_index luid w) [
        | none ↦ refuse rule.id (text "selected adapter is unavailable") w
        | some index ↦ open_outbound r rule.id luid index w
      ]
    ]
  ]
