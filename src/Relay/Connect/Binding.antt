-- ===== src/Relay/Connect/Binding.antt =====
-- A socket that ConnectOutbound returns goes through the adapter of the rule, and only there.
use netpilot.Base.{
  ℕ, ◌≡◌, ap, sym, ◌∙◌, inl, inr, not, ◌&&◌, Option, some, ◌==◌, if◌then◌else◌, arith, Bool-cases,
  Option-cases,
}
use netpilot.Base.Text.{Bytes, is_empty}
use netpilot.Std.Number.{stoull}
use netpilot.Driver.Classify.{ipproto_tcp}
use netpilot.Relay.Winsock.{Winsock, Sockets}
use netpilot.Relay.Rules.{Rules, RuleRuntime, find_rule}
use netpilot.Relay.Adapters.{find_source, Answered, find_source-Answered}
use netpilot.Relay.Connect.{
  Outbound, Request, sock_stream, sock_dgram, htonl, give_up, connect_remote, hand_records,
  pin_interface, bind_adapter, open_outbound, connect_outbound,
}

module _ (ws : Winsock) (t : Sockets ws) where
  open ws use {World}
  open t use {source, interface, peer}

  -- The connection `s` of `out` has this source, interface and peer, and stands for this rule.
  record Goes (r : Request ws) (rule_id : Bytes) (a i : Option ℕ) (s : ℕ) (out : Outbound ws)
      : Type 0 where
    from : source out.world s ≡ a
    through : interface out.world s ≡ i
    to : peer out.world s ≡ some (r.remote_ipv4, r.remote_port)
    named : out.rule_id ≡ rule_id

  connect_remote-Goes :
      (r : Request ws) (rule_id : Bytes) (s k : ℕ) (a i : Option ℕ) (w : World)
      → source w k ≡ a
      → interface w k ≡ i
      → (connect_remote ws r rule_id s w).socket ≡ some k
      → Goes r rule_id a i k (connect_remote ws r rule_id s w)
  unfolding connect_remote give_up
  connect_remote-Goes r rule_id s k a i w from through h =
      elim (Bool-cases (ws.connect s r.remote_ipv4 r.remote_port w).0) [
        | inr b ↦ absurd (ground (arith, b))
        | inl b ↦
            let same : s ≡ k = ground (arith, b) in
            record {
              from = ground (arith, b, same, t.connect_source s r.remote_ipv4 r.remote_port w);
              through =
                  ground (arith, b, same, t.connect_interface s r.remote_ipv4 r.remote_port w);
              to = ground (arith, b, same, t.connect_peer s r.remote_ipv4 r.remote_port w);
              named = ground (arith, b);
            }
      ]

  hand_records-Goes :
      (r : Request ws) (rule_id : Bytes) (s k : ℕ) (a i : Option ℕ) (w : World)
      → source w k ≡ a
      → interface w k ≡ i
      → (hand_records ws r rule_id s w).socket ≡ some k
      → Goes r rule_id a i k (hand_records ws r rule_id s w)
  unfolding hand_records give_up
  hand_records-Goes r rule_id s k a i w from through h =
      let b = r.redirect_records in
      let (ok, w') = ws.set_records s b w in
      elim (Bool-cases (r.protocol == ipproto_tcp && not (is_empty b))) [
        | inr plain ↦
            rw plain (connect_remote-Goes r rule_id s k a i w from through (ground (arith, plain)))
        | inl tcp ↦ elim (Bool-cases ok) [
          | inr no_records ↦ absurd (ground (arith, tcp, no_records))
          | inl handed ↦
              rw (tcp, handed)
                (connect_remote-Goes r rule_id s k a i w'
                  (ap (λ (f : ℕ → Option ℕ). f k) (t.records_source s b w) ∙ from)
                  (ap (λ (f : ℕ → Option ℕ). f k) (t.records_interface s b w) ∙ through)
                  (ground (arith, tcp, handed)))
        ]
      ]

  -- The socket that comes out is the one that was put in.
  hand_records_same :
      (r : Request ws) (rule_id : Bytes) (s k : ℕ) (w : World)
      → (hand_records ws r rule_id s w).socket ≡ some k
      → s ≡ k
  unfolding hand_records connect_remote give_up
  hand_records_same r rule_id s k w h = ground arith

  pin_interface-Goes :
      (r : Request ws) (rule_id : Bytes) (index s k : ℕ) (a : Option ℕ) (w : World)
      → source w s ≡ a
      → (pin_interface ws r rule_id index s w).socket ≡ some k
      → Goes r rule_id a (some (htonl index)) k (pin_interface ws r rule_id index s w)
  unfolding pin_interface give_up
  pin_interface-Goes r rule_id index s k a w from h =
      let (ok, w') = ws.set_unicast_if s (htonl index) w in
      elim (Bool-cases ok) [
        | inr b ↦ absurd (ground (arith, b))
        | inl b ↦
            let ran : (hand_records ws r rule_id s w').socket ≡ some k = ground (arith, b) in
            let same = hand_records_same r rule_id s k w' ran in
            rw b (
              hand_records-Goes r rule_id s k a (some (htonl index)) w'
                (rw (← same)
                  (ap (λ (f : ℕ → Option ℕ). f s) (t.unicast_source s (htonl index) w) ∙ from))
                (rw (← same) (t.unicast_interface s (htonl index) w b)) ran)
      ]

  -- The adapter's address that a connection of `out` starts from.
  record FromAdapter (r : Request ws) (rule_id : Bytes) (luid index k : ℕ) (out : Outbound ws)
      : Type 0 where
    address : ℕ
    answered : Answered ws luid address
    goes : Goes r rule_id (some address) (some (htonl index)) k out

  bind_adapter-FromAdapter :
      (r : Request ws) (rule_id : Bytes) (luid index s k : ℕ) (w : World)
      → (bind_adapter ws r rule_id luid index s w).socket ≡ some k
      → FromAdapter r rule_id luid index k (bind_adapter ws r rule_id luid index s w)
  unfolding bind_adapter give_up
  bind_adapter-FromAdapter r rule_id luid index s k w h =
      let w' = (find_source ws luid w).1 in
      elim (Option-cases (find_source ws luid w).0) [
        | inl nothing ↦ absurd (ground (arith, nothing))
        | inr (a, found) ↦ elim (Bool-cases (ws.bind s a 0 w').0) [
          | inr b ↦ absurd (ground (arith, found, b))
          | inl b ↦
              let w'' = (ws.bind s a 0 w').1 in
              let e : bind_adapter ws r rule_id luid index s w
                  ≡ pin_interface ws r rule_id index s w'' =
                ground (arith, found, b) in
              record {
                address = a;
                answered = find_source-Answered ws luid a w found;
                goes = rw e (
                    pin_interface-Goes r rule_id index s k (some a) w'' (t.bind_source s a 0 w' b)
                      (ap (λ (o : Outbound ws). o.socket) (sym e) ∙ h));
              }
        ]
      ]

  -- An outbound connection of the rule that the context stands for: from an address of the rule's
  -- adapter, through that adapter's interface, to the endpoint that was asked for.
  pub record Bound (rules : Rules) (context : ℕ) (r : Request ws) (w : World) (k : ℕ)
      (out : Outbound ws) : Type 0 where
    pub rule : RuleRuntime
    pub known : find_rule context rules ≡ some rule
    pub named : out.rule_id ≡ rule.id
    pub luid : ℕ
    pub read : stoull rule.interface_luid ≡ some luid
    pub index : ℕ
    pub there : ws.luid_to_index luid w ≡ some index
    pub address : ℕ
    pub answered : Answered ws luid address
    pub from : source out.world k ≡ some address
    pub through : interface out.world k ≡ some (htonl index)
    pub to : peer out.world k ≡ some (r.remote_ipv4, r.remote_port)

  -- A connection that ConnectOutbound makes is that of a rule in force: it is bound to an address
  -- that GetAdaptersAddresses gave for the rule's adapter, pinned to that adapter's interface, and
  -- goes to the endpoint that was asked for. (Winsock is taken to work as documented.)
  pub connect_outbound-Bound :
      (rules : Rules) (context : ℕ) (r : Request ws) (w : World) (k : ℕ)
      → (connect_outbound ws rules context r w).socket ≡ some k
      → Bound rules context r w k (connect_outbound ws rules context r w)
  unfolding connect_outbound open_outbound
  connect_outbound-Bound rules context r w k h = elim (Option-cases (find_rule context rules)) [
    | inl unknown ↦ absurd (ground (arith, unknown))
    | inr (rule, known) ↦ elim (Option-cases (stoull rule.interface_luid)) [
      | inl bad ↦ absurd (ground (arith, known, bad))
      | inr (luid, read) ↦ elim (Option-cases (ws.luid_to_index luid w)) [
        | inl gone ↦ absurd (ground (arith, known, read, gone))
        | inr (index, there) ↦
            let type : ℕ = if r.protocol == ipproto_tcp then sock_stream else sock_dgram in
            elim (Option-cases (ws.socket type r.protocol w).0) [
              | inl nothing ↦ absurd (ground (arith, known, read, there, nothing))
              | inr (s, made) ↦
                  let w' = (ws.socket type r.protocol w).1 in
                  let e : connect_outbound ws rules context r w
                      ≡ bind_adapter ws r rule.id luid index s w' =
                    ground (arith, known, read, there, made) in
                  let b =
                    bind_adapter-FromAdapter r rule.id luid index s k w'
                      (ap (λ (o : Outbound ws). o.socket) (sym e) ∙ h) in
                  rw e (record {
                    rule = rule;
                    known = known;
                    named = b.goes.named;
                    luid = luid;
                    read = read;
                    index = index;
                    there = there;
                    address = b.address;
                    answered = b.answered;
                    from = b.goes.from;
                    through = b.goes.through;
                    to = b.goes.to;
                  })
            ]
      ]
    ]
  ]
