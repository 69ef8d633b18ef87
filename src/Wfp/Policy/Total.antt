-- ===== src/Wfp/Policy/Total.antt =====
-- WfpPolicy::Apply comes to an answer: the enumeration of the filters ends.
use netpilot.Base.{
  ℕ, zero, suc, ◌≤◌, ◌<◌, ◌≡◌, ◌≢◌, inl, inr, Bool, none, some, List, [], ◌∷◌, ◌==◌, arith,
  Bool-cases, Option-cases,
}
use netpilot.Base.Text.{Bytes, is_empty}
use netpilot.Protocol.Types.{AppRuleSpec}
use netpilot.Wfp.Engine.{Engine, Enumeration}
use netpilot.Wfp.Policy.{
  Answer, done, failed, Policy, delete_batch, delete_loop, delete_provider_filters, initialize,
  run_transaction, apply,
}
use netpilot.Wfp.Policy.Atomic.{after, Answer-cases}

module _ (e : Engine) (n : Enumeration e) where
  open e use {World}
  open n use {pending}

  delete_batch_pending :
      (ids : List ℕ) (w : World) → pending (after (delete_batch e ids w)) ≤ pending w
  unfolding delete_batch
  delete_batch_pending [] w = omega arith
  delete_batch_pending (id ∷ rest) w =
      ground (arith, delete_batch_pending rest (e.delete_filter id w).1, n.delete_pending id w)

  delete_loop_enough : (fuel : ℕ) (w : World) → pending w < fuel → delete_loop e fuel w ≢ none
  unfolding delete_loop
  delete_loop_enough zero w h = λ out. absurd (omega arith)
  delete_loop_enough (suc fuel) w h =
      let (status, ids, w') = e.next_filters w in
      elim (Bool-cases (status == 0)) [
        | inr b ↦ λ out. ground (arith, b)
        | inl b ↦ elim (Answer-cases (delete_batch e ids w')) [
          | inr (error, w'', refused) ↦ λ out. ground (arith, b, refused)
          | inl (w'', emptied) ↦ elim (Bool-cases (is_empty ids)) [
            | inl last ↦ λ out. ground (arith, b, emptied, last)
            | inr more ↦ λ out.
                let fewer : pending w' < pending w = n.next_pending w (ground (arith, b)) more in
                let kept : pending w'' ≤ pending w' =
                  ground (arith, delete_batch_pending ids w', emptied) in
                delete_loop_enough fuel w'' (omega (arith, fewer, kept, h))
                  (ground (arith, b, emptied, more))
          ]
        ]
      ]

  delete_provider_filters_enough :
      (fuel : ℕ) (w : World)
      → pending (e.create_enum w).1 < fuel
      → delete_provider_filters e fuel w ≢ none
  unfolding delete_provider_filters
  delete_provider_filters_enough fuel w h = λ out.
      elim (Option-cases (delete_loop e fuel (e.create_enum w).1)) [
        | inl none_left ↦ delete_loop_enough fuel (e.create_enum w).1 h none_left
        | inr (a, ran) ↦ ground (arith, ran)
      ]

  run_transaction_enough :
      (fuel : ℕ) (master_enabled : Bool) (hash : Bytes) (rules : List AppRuleSpec) (p : Policy e)
      → pending (e.create_enum (e.begin p.world).1).1 < fuel
      → run_transaction e fuel master_enabled hash rules p ≢ none
  unfolding run_transaction
  run_transaction_enough fuel master_enabled hash rules p h = λ out.
      elim (Option-cases (delete_provider_filters e fuel (e.begin p.world).1)) [
        | inl none_left ↦ delete_provider_filters_enough fuel (e.begin p.world).1 h none_left
        | inr (done w, ran) ↦ ground (arith, ran)
        | inr (failed error w, ran) ↦ ground (arith, ran)
      ]

  run_transaction_total :
      (master_enabled : Bool) (hash : Bytes) (rules : List AppRuleSpec) (p : Policy e)
      → (fuel : ℕ) × (a : Answer (Policy e)) × (run_transaction e fuel master_enabled hash rules p
          ≡ some a)
  run_transaction_total master_enabled hash rules p =
      let fuel = suc (pending (e.create_enum (e.begin p.world).1).1) in
      elim (Option-cases (run_transaction e fuel master_enabled hash rules p)) [
        | inl out ↦
            absurd (run_transaction_enough fuel master_enabled hash rules p (omega arith) out)
        | inr (a, ran) ↦ (fuel, a, ran)
      ]

  -- Whatever the platform answers, Apply comes to an answer, true or false: for each call there is
  -- an amount of fuel with which its loop ends, provided that an enumeration ends.
  pub apply_total :
      (master_enabled : Bool) (hash : Bytes) (rules : List AppRuleSpec) (p : Policy e)
      → (fuel : ℕ) × (a : Answer (Policy e)) × (apply e fuel master_enabled hash rules p ≡ some a)
  unfolding apply
  apply_total master_enabled hash rules p = elim (Bool-cases p.ready) [
    | inl r ↦
        let (fuel, a, ran) = run_transaction_total master_enabled hash rules p in
        (fuel, a, ground (arith, r, ran))
    | inr r ↦ elim (Answer-cases (initialize e p)) [
      | inr (error, p', refused) ↦ (0, failed error p', ground (arith, r, refused))
      | inl (p', opened) ↦
          let (fuel, a, ran) = run_transaction_total master_enabled hash rules p' in
          (fuel, a, ground (arith, r, opened, ran))
    ]
  ]
