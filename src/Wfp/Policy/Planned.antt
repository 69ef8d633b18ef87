-- ===== src/Wfp/Policy/Planned.antt =====
-- The filters that a successful WfpPolicy::Apply leaves.
use netpilot.Base.{
  ℕ, ◌≡◌, refl, sym, ap, ◌∙◌, inl, inr, Bool, true, false, not, ◌&&◌, ◌||◌, none, some, List, [],
  ◌∷◌, ◌++◌, append_assoc, append-nil, map, ◌==◌, arith, if◌then◌else◌, Bool-cases, Option-cases,
}
use netpilot.Base.Text.{Bytes, text, str_eq}
use netpilot.Std.Number.{stoull}
use netpilot.Protocol.Types.{AppRuleSpec, AppExecutable}
use netpilot.Wfp.AppId.{hex, rule_context}
use netpilot.Wfp.Engine.{Engine, Filter, block_flow, redirect_flow}
use netpilot.Wfp.Policy.{
  done, failed, Policy, filter_of, delete_provider_filters, initialize, add_executable_filter,
  add_executables, add_rule, with_log, add_rules, commit_policy, fill_transaction, run_transaction,
  apply, interface_available,
}
use netpilot.Wfp.Policy.Atomic.{Answer-cases}
use netpilot.Wfp.Policy.Emptied.{Entry, Provider, delete_provider_filters_empties}

module _ (e : Engine) (t : Provider e) where
  open e use {World}
  open t use {provided}

  abbrev pub filters : World → List Filter
  filters w = map (λ (f : Entry). f.1) (provided w)

  abbrev pub is_up : AppRuleSpec → Bool
  is_up rule = elim (stoull rule.interface_luid) [ none ↦ false | some luid ↦ t.up luid ]

  -- The filter of a program: to the proxy or, if the interface is not up, to block.
  abbrev pub filter_for : Bool → AppRuleSpec → AppExecutable → Filter
  filter_for available rule executable = record {
    app_id = hex executable.app_id;
    raw_context = rule_context rule.id;
    action = if available then redirect_flow else block_flow;
  }

  -- A rule has none if it is off, or if it falls back.
  abbrev pub rule_filters : AppRuleSpec → List Filter
  rule_filters rule =
      if not rule.enabled || not (is_up rule) && str_eq rule.policy (text "fallback")
      then []
      else map (filter_for (is_up rule) rule) rule.executables

  abbrev pub planned : List AppRuleSpec → List Filter
  planned [] = []
  planned (rule ∷ rest) = rule_filters rule ++ planned rest

  is_up_available :
      (rule : AppRuleSpec) (w : World) → interface_available e rule.interface_luid w ≡ is_up rule
  unfolding interface_available
  is_up_available rule w = elim (Option-cases (stoull rule.interface_luid)) [
    | inl bad ↦ ground (arith, bad)
    | inr (luid, read) ↦ ground (arith, read, t.up_steady luid w)
  ]

  filter_of_available :
      (rule : AppRuleSpec) (executable : AppExecutable) (available : Bool)
      → filter_of e rule (hex executable.app_id) (not available)
        ≡ filter_for available rule executable
  filter_of_available rule executable true = refl
  filter_of_available rule executable false = refl

  add_executables_filters :
      (rule : AppRuleSpec) (available : Bool) (executables : List AppExecutable) (w w' : World)
      → add_executables e rule (not available) executables w ≡ done w'
      → filters w' ≡ filters w ++ map (filter_for available rule) executables
  unfolding add_executables add_executable_filter
  add_executables_filters rule available [] w w' h =
      let end : w ≡ w' = ground (arith, h) in rw (sym end) (sym (append-nil (filters w)))
  add_executables_filters rule available (executable ∷ rest) w w' h =
      let f = filter_for available rule executable in
      let given = filter_of_available rule executable available in
      let (status, w1) = e.add_filter f w in
      elim (Bool-cases (status == 0)) [
        | inr refused ↦ absurd (ground (arith, given, refused, h))
        | inl added ↦
            let more : add_executables e rule (not available) rest w1 ≡ done w' =
              ground (arith, given, added, h) in
            let first = t.add_appends f w (ground (arith, added)) in
            let last = add_executables_filters rule available rest w1 w' more in
            last
            ∙ ap (λ fs. fs ++ map (filter_for available rule) rest) first
            ∙ append_assoc (filters w) (f ∷ []) (map (filter_for available rule) rest)
      ]

  add_rule_filters :
      (rule : AppRuleSpec) (log log' : List Bytes) (w w' : World)
      → add_rule e rule log w ≡ done (log', w')
      → filters w' ≡ filters w ++ rule_filters rule
  unfolding add_rule with_log
  add_rule_filters rule log log' w w' h =
      let seen = is_up_available rule w in
      elim (Bool-cases rule.enabled) [
        | inr off ↦
            let end : w ≡ w' = ground (arith, off, h) in
            rw (off, sym end) (sym (append-nil (filters w)))
        | inl on ↦ elim (Bool-cases (not (is_up rule) && str_eq rule.policy (text "fallback"))) [
          | inl back ↦
              let end : w ≡ w' = ground (arith, on, seen, back, h) in
              rw (on, back, sym end) (sym (append-nil (filters w)))
          | inr goes ↦
              elim (Answer-cases (add_executables e rule (not (is_up rule)) rule.executables w)) [
                | inr (error, w1, refused) ↦ absurd (ground (arith, on, seen, goes, refused, h))
                | inl (w1, added) ↦
                    let end : w1 ≡ w' = ground (arith, on, seen, goes, added, h) in
                    let all =
                      add_executables_filters rule (is_up rule) rule.executables w w1 added in
                    rw (on, goes, sym end) all
              ]
        ]
      ]

  add_rules_filters :
      (rules : List AppRuleSpec) (log log' : List Bytes) (w w' : World)
      → add_rules e rules log w ≡ done (log', w')
      → filters w' ≡ filters w ++ planned rules
  unfolding add_rules
  add_rules_filters [] log log' w w' h =
      let end : w ≡ w' = ground (arith, h) in rw (sym end) (sym (append-nil (filters w)))
  add_rules_filters (rule ∷ rest) log log' w w' h = elim (Answer-cases (add_rule e rule log w)) [
    | inr (error, s, refused) ↦ absurd (ground (arith, refused, h))
    | inl ((log1, w1), added) ↦
        let more : add_rules e rest log1 w1 ≡ done (log', w') = ground (arith, added, h) in
        let first = add_rule_filters rule log log1 w w1 added in
        let last = add_rules_filters rest log1 log' w1 w' more in
        last
        ∙ ap (λ fs. fs ++ planned rest) first
        ∙ append_assoc (filters w) (rule_filters rule) (planned rest)
  ]

  abbrev pub plan : Bool → List AppRuleSpec → List Filter
  plan master_enabled rules = if master_enabled then planned rules else []

  commit_policy_keeps :
      (hash : Bytes) (p p' : Policy e)
      → commit_policy e hash p ≡ done p'
      → (filters p'.world ≡ filters p.world) × (p'.applied_hash ≡ hash)
  unfolding commit_policy
  commit_policy_keeps hash p p' h = elim (Bool-cases ((e.commit p.world).0 == 0)) [
    | inr refused ↦ absurd (ground (arith, refused, h))
    | inl done' ↦
        let end : record p { applied_hash = hash; world = (e.commit p.world).1 } ≡ p' =
          ground (arith, done', h) in
        rw (sym end)
          (ap (map (λ (f : Entry). f.1)) (t.commit_keeps p.world (ground (arith, done'))), refl)
  ]

  fill_transaction_plans :
      (master_enabled : Bool) (hash : Bytes) (rules : List AppRuleSpec) (p p' : Policy e)
      → provided p.world ≡ []
      → fill_transaction e master_enabled hash rules p ≡ done p'
      → (filters p'.world ≡ plan master_enabled rules) × (p'.applied_hash ≡ hash)
  unfolding fill_transaction
  fill_transaction_plans false hash rules p p' empty h =
      let (kept, same) = commit_policy_keeps hash p p' (ground (arith, h)) in
      (kept ∙ ap (map (λ (f : Entry). f.1)) empty, same)
  fill_transaction_plans true hash rules p p' empty h =
      elim (Answer-cases (add_rules e rules p.log p.world)) [
        | inr (error, s, refused) ↦ absurd (ground (arith, refused, h))
        | inl ((log, w), added) ↦
            let filled = record p { log = log; world = w } in
            let (kept, same) = commit_policy_keeps hash filled p' (ground (arith, added, h)) in
            let all = add_rules_filters rules p.log log p.world w added in
            (kept ∙ all ∙ ap (λ fs. map (λ (f : Entry). f.1) fs ++ planned rules) empty, same)
      ]

  run_transaction_plans :
      (fuel : ℕ) (master_enabled : Bool) (hash : Bytes) (rules : List AppRuleSpec) (p p' : Policy e)
      → run_transaction e fuel master_enabled hash rules p ≡ some (done p')
      → (filters p'.world ≡ plan master_enabled rules) × (p'.applied_hash ≡ hash)
  unfolding run_transaction
  run_transaction_plans fuel master_enabled hash rules p p' h =
      let (status, w) = e.begin p.world in
      elim (Bool-cases (status == 0)) [
        | inr broken ↦ absurd (ground (arith, broken, h))
        | inl begun ↦ elim (Option-cases (delete_provider_filters e fuel w)) [
          | inl out ↦ absurd (ground (arith, begun, out, h))
          | inr (failed error w', ran) ↦ absurd (ground (arith, begun, ran, h))
          | inr (done w', ran) ↦
              fill_transaction_plans master_enabled hash rules (record p { world = w' }) p'
                (delete_provider_filters_empties e t fuel w w' ran) (ground (arith, begun, ran, h))
        ]
      ]

  -- If Apply answers true, the provider's filters in force are exactly those of the rules, in their
  -- order, and the applied hash is the new one: for each enabled rule a filter for each of its
  -- executables, to the proxy if the rule's interface is up, and otherwise to block or, under the
  -- fallback policy, none; no filter at all if the master switch is off. (An enumeration is taken to give the
  -- provider's filters, and an interface not to go up or down meanwhile.)
  pub apply_plans :
      (fuel : ℕ) (master_enabled : Bool) (hash : Bytes) (rules : List AppRuleSpec) (p p' : Policy e)
      → apply e fuel master_enabled hash rules p ≡ some (done p')
      → (filters p'.world ≡ plan master_enabled rules) × (p'.applied_hash ≡ hash)
  unfolding apply
  apply_plans fuel master_enabled hash rules p p' h = elim (Bool-cases p.ready) [
    | inl r ↦ run_transaction_plans fuel master_enabled hash rules p p' (ground (arith, r, h))
    | inr r ↦ elim (Answer-cases (initialize e p)) [
      | inr (error, q, refused) ↦ absurd (ground (arith, r, refused, h))
      | inl (q, opened) ↦
          run_transaction_plans fuel master_enabled hash rules q p' (ground (arith, r, opened, h))
    ]
  ]
