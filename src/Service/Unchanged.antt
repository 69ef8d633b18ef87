-- ===== src/Service/Unchanged.antt =====
-- What a request with new rules leaves, by the outcome of the policy.
use netpilot.Base.{
  ℕ, ◌≤◌, ◌≡◌, ◌⊎◌, inl, inr, Bool, false, none, some, List, [], arith, All, length, Option-cases,
}
use netpilot.Base.Text.{Bytes}
use netpilot.Protocol.Types.{Operation, operation_code, AppRuleSpec}
use netpilot.Protocol.Fields.{IsText}
use netpilot.Protocol.AppRules.{AppRuleFits, encode_app_rules, decode_app_rules-encode_app_rules}
use netpilot.Protocol.Status.{encode_status}
use netpilot.Routes.Net.{Net}
use netpilot.Wfp.Engine.{Engine, Transactions}
use netpilot.Wfp.Policy.{Policy, done, failed, apply}
use netpilot.Wfp.Policy.Atomic.{apply_failed}
use netpilot.Service.Host.{Host}
use netpilot.Service.Rules.{validate_rules}
use netpilot.Service.State.{Service, status}
use netpilot.Service.Requests.{
  dispatch, handle_rules, apply_rules, status_reply, take_policy, applied, refused, log_to,
}

module _ (n : Net) (e : Engine) (h : Host) where
  -- The route manager is left alone, and the response is the service's status.
  pub record Answered (s s' : Service n e h) (response : Bytes) : Type 0 where
    pub managed : s'.managed ≡ s.managed
    pub net : s'.net ≡ s.net
    pub reply : (message : Bytes) × (response ≡ encode_status (status n e h message s') [])

  -- Apply answered true, and its policy and the new rules are in force.
  pub record Applied (fuel : ℕ) (master : Bool) (hash : Bytes) (rules : List AppRuleSpec)
      (s s' : Service n e h) : Type 0 where
    pub policy : Policy e
    pub answered : apply e fuel master hash rules s.wfp ≡ some (done policy)
    pub filters : s'.wfp.world ≡ policy.world
    pub master_enabled : s'.master_enabled ≡ master
    pub applied_hash : s'.applied_hash ≡ hash
    pub app_rules : s'.app_rules ≡ rules
    pub proxy_running : s'.proxy_running ≡ master

  -- Apply answered false, and the old rules are in force.
  pub record Kept (t : Transactions e) (fuel : ℕ) (master : Bool) (hash : Bytes)
      (rules : List AppRuleSpec) (s s' : Service n e h) : Type 0 where
    pub policy : Policy e
    pub error : Bytes
    pub answered : apply e fuel master hash rules s.wfp ≡ some (failed error policy)
    pub master_enabled : s'.master_enabled ≡ s.master_enabled
    pub applied_hash : s'.applied_hash ≡ s.applied_hash
    pub app_rules : s'.app_rules ≡ s.app_rules
    pub proxy_running : s'.proxy_running ≡ false
    pub filters : t.installed s'.wfp.world ≡ t.installed s.wfp.world

  apply_rules_cases :
      (t : Transactions e) (fuel : ℕ) (master : Bool) (hash : Bytes) (rules : List AppRuleSpec)
      (s s' : Service n e h) (response : Bytes)
      → apply_rules n e h fuel master hash rules s ≡ some (response, s')
      → Answered s s' response
        × (Applied fuel master hash rules s s' ⊎ Kept t fuel master hash rules s s')
  unfolding apply_rules take_policy applied refused log_to status_reply
  apply_rules_cases t fuel master hash rules s s' response ran =
      elim (Option-cases (apply e fuel master hash rules s.wfp)) [
        | inl out ↦ absurd (ground (arith, out))
        | inr (done p, ended) ↦ (
          record {
            managed = ground (arith, ended);
            net = ground (arith, ended);
            reply = ([], ground (arith, ended));
          },
          inl (record {
            policy = p;
            answered = ended;
            filters = ground (arith, ended);
            master_enabled = ground (arith, ended);
            applied_hash = ground (arith, ended);
            app_rules = ground (arith, ended);
            proxy_running = ground (arith, ended);
          }),
        )
        | inr (failed error p, ended) ↦
            let same = apply_failed e t fuel master hash rules s.wfp p error ended in
            (
              record {
                managed = ground (arith, ended);
                net = ground (arith, ended);
                reply = (error, ground (arith, ended));
              },
              inr (record {
                policy = p;
                error = error;
                answered = ended;
                master_enabled = ground (arith, ended);
                applied_hash = ground (arith, ended);
                app_rules = ground (arith, ended);
                proxy_running = ground (arith, ended);
                filters = ground (arith, ended, same.filters);
              }),
            )
      ]

  -- When valid rules arrive in the client's encoding and the request is answered, then the route
  -- manager is left alone, the answer is the service's status, and either Apply succeeded, its
  -- filters are in force and the rules, the hash and the master switch are the service's from then
  -- on, or Apply failed, those from before are kept, as are the filters in force, and the proxies
  -- count as stopped. (The
  -- platform's transactions are taken to work as documented.)
  pub apply_request_cases :
      (t : Transactions e) (fuel : ℕ) (master : Bool) (hash : Bytes) (rules : List AppRuleSpec)
      (session : ℕ) (s s' : Service n e h) (response : Bytes)
      → IsText hash
      → length rules ≤ 1024
      → All AppRuleFits rules
      → validate_rules h rules s.host ≡ none
      → dispatch n e h fuel
          (operation_code Operation.apply_app_routing)
          (encode_app_rules master hash rules [])
          session
          s
        ≡ some (response, s')
      → Answered s s' response
        × (Applied fuel master hash rules s s' ⊎ Kept t fuel master hash rules s s')
  unfolding dispatch handle_rules
  apply_request_cases t fuel master hash rules session s s' response hash_fits fits each valid ran =
      apply_rules_cases t fuel master hash rules s s' response (
        ground (
          arith,
          decode_app_rules-encode_app_rules master hash rules hash_fits fits each,
          valid,
          ran,
        ))
