-- ===== src/Wfp/Tests.antt =====
-- The policy on a small platform, on which some commits fail, and the theorems at it.
use netpilot.Base.{
  ℕ, ◌≡◌, refl, Bool, true, false, Option, none, some, if◌then◌else◌, List, [], ◌∷◌, arith,
}
use netpilot.Base.Text.{text}
use netpilot.Std.Number.{stoull}
use netpilot.Protocol.Types.{AppRuleSpec}
use netpilot.Wfp.AppId.{hex, hex_pair}
use netpilot.Wfp.Engine.{Engine, Filter, block_flow, Transactions, Enumeration}
use netpilot.Wfp.Policy.{
  Answer, failed, Policy, wfp_error, apply, run_transaction, delete_provider_filters, delete_loop,
  delete_batch, fill_transaction, add_rules, add_rule, add_executables, add_executable_filter,
  interface_available,
}
use netpilot.Wfp.Policy.Atomic.{Unchanged, apply_failed}
use netpilot.Wfp.Policy.Total.{apply_total}

-- Filters are in force.
abbrev has_filters : List Filter → Bool
has_filters [] = false
has_filters (f ∷ fs) = true

abbrev rolled_back : List Filter × Option (List Filter) → List Filter × Option (List Filter)
rolled_back (now, none) = (now, none)
rolled_back (now, some before) = (before, none)

-- The filters in force and those to be brought back; interface 123456 is up, and a commit answers 5
-- if there are filters.
abbrev lab : Engine
lab = record {
  World = List Filter × Option (List Filter);
  open_engine = λ w. (0, w);
  add_provider = λ w. (0, w);
  add_sublayer = λ w. (0, w);
  add_callout = λ w. (0, w);
  begin = λ w. (0, (w.0, some w.0));
  commit = λ w. if has_filters w.0 then (5, w) else (0, (w.0, none));
  abort = rolled_back;
  create_enum = λ w. (0, w);
  next_filters = λ w. (0, [], w);
  destroy_enum = λ w. w;
  delete_filter = λ id w. (0, ([], w.1));
  add_filter = λ f w. (0, (f ∷ w.0, w.1));
  interface_up = λ luid w. true;
}

abbrev lab_transactions : Transactions lab
lab_transactions = record {
  installed = λ w. w.0;
  saved = λ w. w.1;
  begin_saves = λ w h. refl;
  begin_fails = λ w. refl;
  abort_restores = λ w filters h. ground (arith, h);
  create_saved = λ w. refl;
  next_saved = λ w. refl;
  destroy_saved = λ w. refl;
  delete_saved = λ id w. refl;
  add_saved = λ f w. refl;
  commit_fails = λ w h. ground (arith, h);
  open_installed = λ w. refl;
  provider_installed = λ w. refl;
  sublayer_installed = λ w. refl;
  callout_installed = λ w. refl;
}

abbrev old_filter : Filter
old_filter = record { app_id = 7 ∷ []; raw_context = 7; action = block_flow }

abbrev browser : AppRuleSpec
browser = record {
  id = text "web";
  interface_luid = text "123456";
  policy = text "block";
  enabled = true;
  executables = record { path = text "browser.exe"; app_id = text "ab0a" } ∷ [];
}

abbrev before : Policy lab
before = record {
  ready = true;
  applied_hash = text "old";
  log = [];
  world = (old_filter ∷ [], none);
}

abbrev afterwards : Policy lab
afterwards = record {
  ready = true;
  applied_hash = text "old";
  log = [];
  world = (old_filter ∷ [], none);
}

apply-browser :
    apply lab 1 true (text "new") (browser ∷ []) before
    ≡ some (failed (wfp_error (text "FwpmTransactionCommit") 5) afterwards)
unfolding apply run_transaction delete_provider_filters delete_loop delete_batch fill_transaction
    add_rules add_rule add_executables add_executable_filter interface_available stoull hex hex_pair
apply-browser = refl

apply_failed_example : Unchanged lab lab_transactions before afterwards
apply_failed_example =
    apply_failed lab lab_transactions 1 true (text "new") (browser ∷ []) before afterwards
      (wfp_error (text "FwpmTransactionCommit") 5) apply-browser

abbrev lab_enumeration : Enumeration lab
lab_enumeration = record {
  pending = λ w. 0;
  next_pending = λ w h k. absurd (cc k);
  delete_pending = λ id w. omega arith;
}

apply_total_example :
    (fuel : ℕ) × (a : Answer (Policy lab)) × (apply lab fuel true (text "new") (browser ∷ []) before
      ≡ some a)
apply_total_example = apply_total lab lab_enumeration true (text "new") (browser ∷ []) before
