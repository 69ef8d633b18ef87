-- ===== src/Wfp/Policy/Atomic.antt =====
-- A failed WfpPolicy::Apply leaves the filters and the applied hash as they were.
use netpilot.Base.{
  ℕ, zero, suc, ◌≡◌, refl, ◌∙◌, ◌⊎◌, inl, inr, Bool, true, false, not, some, List, [], ◌∷◌, ◌==◌,
  arith, Bool-cases, Option-cases,
}
use netpilot.Base.Text.{Bytes, text}
use netpilot.Protocol.Types.{AppRuleSpec, AppExecutable}
use netpilot.Wfp.Engine.{Engine, Filter, Transactions}
use netpilot.Wfp.Policy.{
  Answer, done, failed, Policy, delete_batch, delete_loop, close_enum, delete_provider_filters,
  add_object, ensure_provider, initialize, add_executable_filter, add_executables, add_rule,
  with_log, add_rules, commit_policy, fill_transaction, run_transaction, apply, filter_of,
  interface_available,
}
use netpilot.Wfp.AppId.{hex}

abbrev pub after : {W : Type 0} → Answer W → W
after (done w) = w
after (failed error w) = w

pub Answer-cases :
    {W : Type 0} (a : Answer W)
    → ((w : W) × (a ≡ done w)) ⊎ ((error : Bytes) × (w : W) × (a ≡ failed error w))
Answer-cases (done w) = inl (w, refl)
Answer-cases (failed error w) = inr (error, w, refl)

module _ (e : Engine) (t : Transactions e) where
  open e use {World}
  open t use {installed, saved}

  delete_batch_saved : (ids : List ℕ) (w : World) → saved (after (delete_batch e ids w)) ≡ saved w
  unfolding delete_batch
  delete_batch_saved [] w = refl
  delete_batch_saved (id ∷ rest) w =
      ground (arith, delete_batch_saved rest (e.delete_filter id w).1, t.delete_saved id w)

  delete_loop_saved :
      (fuel : ℕ) (w : World) (a : Answer World)
      → delete_loop e fuel w ≡ some a
      → saved (after a) ≡ saved w
  unfolding delete_loop
  delete_loop_saved zero w a h = cc
  delete_loop_saved (suc fuel) w a h =
      let (status, ids, w') = e.next_filters w in
      let batch = delete_batch_saved ids w' in
      elim (Answer-cases (delete_batch e ids w')) [
        | inr (error, w'', refused) ↦ ground (arith, t.next_saved w, batch, refused)
        | inl (w'', emptied) ↦
            ground (arith, t.next_saved w, batch, emptied, delete_loop_saved fuel w'' a)
      ]

  close_saved : (a : Answer World) → saved (after (close_enum e a)) ≡ saved (after a)
  unfolding close_enum
  close_saved (done w) = t.destroy_saved w
  close_saved (failed error w) = t.destroy_saved w

  delete_saved :
      (fuel : ℕ) (w : World) (a : Answer World)
      → delete_provider_filters e fuel w ≡ some a
      → saved (after a) ≡ saved w
  unfolding delete_provider_filters
  delete_saved fuel w a h =
      let (status, w') = e.create_enum w in
      elim (Option-cases (delete_loop e fuel w')) [
        | inl out ↦ ground (arith, t.create_saved w, out)
        | inr (b, ran) ↦
            ground (arith, t.create_saved w, ran, delete_loop_saved fuel w' b ran, close_saved b)
      ]

  add_executable_saved :
      (rule : AppRuleSpec) (executable : AppExecutable) (block : Bool) (w : World)
      → saved (after (add_executable_filter e rule executable block w)) ≡ saved w
  unfolding add_executable_filter
  add_executable_saved rule executable block w =
      ground (arith, t.add_saved (filter_of e rule (hex executable.app_id) block) w)

  add_executables_saved :
      (rule : AppRuleSpec) (block : Bool) (executables : List AppExecutable) (w : World)
      → saved (after (add_executables e rule block executables w)) ≡ saved w
  unfolding add_executables
  add_executables_saved rule block [] w = refl
  add_executables_saved rule block (executable ∷ rest) w =
      let one = add_executable_saved rule executable block w in
      elim (Answer-cases (add_executable_filter e rule executable block w)) [
        | inr (error, w', refused) ↦ ground (arith, one, refused)
        | inl (w', added) ↦ ground (arith, one, added, add_executables_saved rule block rest w')
      ]

  with_log_saved :
      (log : List Bytes) (a : Answer World) → saved (after (with_log e log a)).1 ≡ saved (after a)
  unfolding with_log
  with_log_saved log (done w) = refl
  with_log_saved log (failed error w) = refl

  add_rule_saved :
      (rule : AppRuleSpec) (log : List Bytes) (w : World)
      → saved (after (add_rule e rule log w)).1 ≡ saved w
  unfolding add_rule
  add_rule_saved rule log w =
      let available = interface_available e rule.interface_luid w in
      ground (
        arith,
        add_executables_saved rule (not available) rule.executables w,
        with_log_saved log (add_executables e rule (not available) rule.executables w),
      )

  add_rules_saved :
      (rules : List AppRuleSpec) (log : List Bytes) (w : World)
      → saved (after (add_rules e rules log w)).1 ≡ saved w
  unfolding add_rules
  add_rules_saved [] log w = refl
  add_rules_saved (rule ∷ rest) log w = elim (Answer-cases (add_rule e rule log w)) [
    | inr (error, s, refused) ↦ ground (arith, add_rule_saved rule log w, refused)
    | inl (s, added) ↦
        ground (arith, add_rule_saved rule log w, added, add_rules_saved rest s.0 s.1)
  ]

  -- `q` is where a failure inside a transaction leaves the policy `p`: what was in force before it
  -- is so again.
  record RolledBack (before : List Filter) (p q : Policy e) : Type 0 where
    filters : installed q.world ≡ before
    hash : q.applied_hash ≡ p.applied_hash

  commit_policy_failed :
      (before : List Filter) (hash : Bytes) (p q : Policy e) (error : Bytes)
      → saved p.world ≡ some before
      → commit_policy e hash p ≡ failed error q
      → RolledBack before p q
  unfolding commit_policy
  commit_policy_failed before hash p q error begun h =
      elim (Bool-cases ((e.commit p.world).0 == 0)) [
        | inl committed ↦ absurd (ground (arith, committed, h))
        | inr refused ↦
            let back =
              t.abort_restores (e.commit p.world).1 before
                (t.commit_fails p.world refused ∙ begun) in
            record { filters = ground (arith, refused, h, back); hash = ground (arith, refused, h) }
      ]

  fill_transaction_failed :
      (before : List Filter) (master_enabled : Bool) (hash : Bytes) (rules : List AppRuleSpec)
      (p q : Policy e) (error : Bytes)
      → saved p.world ≡ some before
      → fill_transaction e master_enabled hash rules p ≡ failed error q
      → RolledBack before p q
  unfolding fill_transaction
  fill_transaction_failed before false hash rules p q error begun h =
      commit_policy_failed before hash p q error begun h
  fill_transaction_failed before true hash rules p q error begun h =
      let same = add_rules_saved rules p.log p.world in
      elim (Answer-cases (add_rules e rules p.log p.world)) [
        | inr (error', s, refused) ↦
            let still : saved s.1 ≡ some before = ground (arith, refused, same, begun) in
            record {
              filters = ground (arith, refused, t.abort_restores s.1 before still);
              hash = ground (arith, refused);
            }
        | inl (s, added) ↦
            let p' : Policy e = record p { log = s.0; world = s.1 } in
            let still : saved s.1 ≡ some before = ground (arith, added, same, begun) in
            let committed : commit_policy e hash p' ≡ failed error q = ground (arith, added) in
            let back = commit_policy_failed before hash p' q error still committed in
            record { filters = back.filters; hash = back.hash }
      ]

  -- `q` has the filters and the hash of `p`.
  pub record Unchanged (p q : Policy e) : Type 0 where
    pub filters : installed q.world ≡ installed p.world
    pub hash : q.applied_hash ≡ p.applied_hash

  run_transaction_failed :
      (fuel : ℕ) (master_enabled : Bool) (hash : Bytes) (rules : List AppRuleSpec) (p q : Policy e)
      (error : Bytes)
      → run_transaction e fuel master_enabled hash rules p ≡ some (failed error q)
      → Unchanged p q
  unfolding run_transaction
  run_transaction_failed fuel master_enabled hash rules p q error h =
      let (status, w) = e.begin p.world in
      elim (Bool-cases (status == 0)) [
        | inr b ↦ record {
          filters = ground (arith, b, t.begin_fails p.world);
          hash = ground (arith, b);
        }
        | inl b ↦ elim (Option-cases (delete_provider_filters e fuel w)) [
          | inl out ↦ absurd (ground (arith, b, out))
          | inr (done w', ran) ↦
              let p' : Policy e = record p { world = w' } in
              let filled : fill_transaction e master_enabled hash rules p' ≡ failed error q =
                ground (arith, b, ran) in
              let begun =
                delete_saved fuel w (done w') ran ∙ t.begin_saves p.world (ground arith) in
              let back =
                fill_transaction_failed (installed p.world) master_enabled hash rules p' q error
                  begun filled in
              record { filters = back.filters; hash = back.hash }
          | inr (failed error' w', ran) ↦
              let begun =
                delete_saved fuel w (failed error' w') ran ∙ t.begin_saves p.world (ground arith) in
              record {
                filters = ground (arith, b, ran, t.abort_restores w' (installed p.world) begun);
                hash = ground (arith, b, ran);
              }
        ]
      ]

  add_object_installed :
      (action : Bytes) (s : ℕ × World) → installed (after (add_object e action s)) ≡ installed s.1
  unfolding add_object
  add_object_installed action s = ground arith

  ensure_provider_installed : (w : World) → installed (after (ensure_provider e w)) ≡ installed w
  unfolding ensure_provider
  ensure_provider_installed w =
      let provider = add_object_installed (text "FwpmProviderAdd") (e.add_provider w) in
      elim (Answer-cases (add_object e (text "FwpmProviderAdd") (e.add_provider w))) [
        | inr (error, w', refused) ↦ ground (arith, refused, provider, t.provider_installed w)
        | inl (w', added) ↦
            let sublayer = add_object_installed (text "FwpmSubLayerAdd") (e.add_sublayer w') in
            let callout =
              λ (w'' : World). add_object_installed (text "FwpmCalloutAdd") (e.add_callout w'') in
            elim (Answer-cases (add_object e (text "FwpmSubLayerAdd") (e.add_sublayer w'))) [
              | inr (error, w'', refused) ↦ ground (
                arith,
                added,
                refused,
                provider,
                sublayer,
                t.provider_installed w,
                t.sublayer_installed w',
              )
              | inl (w'', added') ↦ ground (
                arith,
                added,
                added',
                provider,
                sublayer,
                callout w'',
                t.provider_installed w,
                t.sublayer_installed w',
                t.callout_installed w'',
              )
            ]
      ]

  initialize_installed : (p : Policy e) → Unchanged p (after (initialize e p))
  unfolding initialize
  initialize_installed p =
      let (status, w) = e.open_engine p.world in
      elim (Answer-cases (ensure_provider e w)) [
        | inr (error, w', refused) ↦ record {
          filters = ground (arith, refused, t.open_installed p.world, ensure_provider_installed w);
          hash = ground (arith, refused);
        }
        | inl (w', ready) ↦ record {
          filters = ground (arith, ready, t.open_installed p.world, ensure_provider_installed w);
          hash = ground (arith, ready);
        }
      ]

  -- If Apply fails, whatever the step that failed, the filters in force and the applied hash are
  -- those from before the call. (The platform's transactions are taken to work as documented.)
  pub apply_failed :
      (fuel : ℕ) (master_enabled : Bool) (hash : Bytes) (rules : List AppRuleSpec) (p q : Policy e)
      (error : Bytes)
      → apply e fuel master_enabled hash rules p ≡ some (failed error q)
      → Unchanged p q
  unfolding apply
  apply_failed fuel master_enabled hash rules p q error h = elim (Bool-cases p.ready) [
    | inl r ↦ run_transaction_failed fuel master_enabled hash rules p q error (ground (arith, r))
    | inr r ↦ elim (Answer-cases (initialize e p)) [
      | inr (error', p', refused) ↦
          let same = initialize_installed p in
          record {
            filters = ground (arith, r, refused, same.filters);
            hash = ground (arith, r, refused, same.hash);
          }
      | inl (p', opened) ↦
          let same = initialize_installed p in
          let ran : run_transaction e fuel master_enabled hash rules p' ≡ some (failed error q) =
            ground (arith, r, opened) in
          let back = run_transaction_failed fuel master_enabled hash rules p' q error ran in
          record {
            filters = back.filters ∙ ground (arith, opened, same.filters);
            hash = back.hash ∙ ground (arith, opened, same.hash);
          }
    ]
  ]
