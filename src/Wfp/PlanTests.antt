-- ===== src/Wfp/PlanTests.antt =====
-- A platform that numbers its filters and gives all of their ids in one batch; interface 123456 is up.
use netpilot.Base.{
  ℕ, suc, ◌≡◌, refl, ap, sym, append-nil, true, some, List, [], ◌∷◌, ◌++◌, ◌==◌, map, arith,
}
use netpilot.Base.Text.{str_eq, text}
use netpilot.Std.Number.{stoull}
use netpilot.Protocol.Types.{AppRuleSpec}
use netpilot.Wfp.AppId.{hex, hex_pair, rule_context}
use netpilot.Wfp.Engine.{Engine, Filter, FilterAction, block_flow, redirect_flow}
use netpilot.Wfp.Policy.{
  done, Policy, apply, run_transaction, delete_provider_filters, delete_loop, delete_batch,
  fill_transaction, add_rules, add_rule, add_executables, add_executable_filter,
  interface_available,
}
use netpilot.Wfp.Policy.Emptied.{Entry, without, Within, has_id, Provider}
use netpilot.Wfp.Policy.Planned.{filters, plan, apply_plans}

record Platform : Type 0 where
  entries : List Entry
  pending : List ℕ
  fresh : ℕ

ids_of : List Entry → List ℕ
ids_of fs = map (λ (f : Entry). f.0) fs

abbrev lab : Engine
lab = record {
  World = Platform;
  open_engine = λ w. (0, w);
  add_provider = λ w. (0, w);
  add_sublayer = λ w. (0, w);
  add_callout = λ w. (0, w);
  begin = λ w. (0, w);
  commit = λ w. (0, w);
  abort = λ w. w;
  create_enum = λ w. (0, record w { pending = ids_of w.entries });
  next_filters = λ w. (0, w.pending, record w { pending = [] });
  destroy_enum = λ w. w;
  delete_filter = λ id w. (0, record w { entries = without id w.entries });
  add_filter =
      λ f w. (0, record w { entries = w.entries ++ (w.fresh, f) ∷ []; fresh = suc w.fresh });
  interface_up = λ luid w. luid == 123456;
}

has_id-there : (id : ℕ) (ids : List ℕ) → has_id id (id ∷ ids) ≡ true
has_id-there id ids = ground arith

Within-cons : (id : ℕ) (ids : List ℕ) (fs : List Entry) → Within ids fs → Within (id ∷ ids) fs
Within-cons id ids [] h = tt
Within-cons id ids (f ∷ fs) (here, later) = (ground (arith, here), Within-cons id ids fs later)

Within-ids_of : (fs : List Entry) → Within (ids_of fs) fs
unfolding ids_of
Within-ids_of [] = tt
Within-ids_of (f ∷ fs) =
    (has_id-there f.0 (ids_of fs), Within-cons f.0 (ids_of fs) fs (Within-ids_of fs))

filters-append :
    (fs : List Entry) (f : Entry)
    → map (λ (f : Entry). f.1) (fs ++ f ∷ []) ≡ map (λ (f : Entry). f.1) fs ++ f.1 ∷ []
filters-append [] f = refl
filters-append (g ∷ fs) f = ap (λ l. g.1 ∷ l) (filters-append fs f)

lab_provider : Provider lab
lab_provider = record {
  provided = λ w. w.entries;
  remaining = λ w. w.pending;
  up = λ luid. luid == 123456;
  create_lists = λ w h. Within-ids_of w.entries;
  next_gives = λ w h. sym (append-nil w.pending);
  next_last = λ w h k. ground (arith, k);
  next_keeps = λ w. refl;
  delete_removes = λ id w h. refl;
  delete_keeps = λ id w. refl;
  destroy_keeps = λ w. refl;
  add_appends = λ f w h. filters-append w.entries (w.fresh, f);
  commit_keeps = λ w h. refl;
  up_steady = λ luid w. refl;
}

abbrev old_filter : Filter
old_filter = record { app_id = 7 ∷ []; raw_context = 7; action = block_flow }

abbrev browser : AppRuleSpec
browser = record {
  id = text "browser";
  interface_luid = text "123456";
  policy = text "block";
  enabled = true;
  executables = record { path = text "browser.exe"; app_id = text "ab0a" } ∷ [];
}

abbrev offline : AppRuleSpec
offline = record browser { id = text "mail"; interface_luid = text "7" }

abbrev before : Policy lab
before = record {
  ready = true;
  applied_hash = text "old";
  log = [];
  world = record { entries = (1, old_filter) ∷ (2, old_filter) ∷ []; pending = []; fresh = 3 };
}

abbrev with_filter : AppRuleSpec → FilterAction → Filter
with_filter rule action = record {
  app_id = 171 ∷ 10 ∷ [];
  raw_context = rule_context rule.id;
  action = action;
}

abbrev afterwards : Policy lab
afterwards = record {
  ready = true;
  applied_hash = text "new";
  log = [];
  world = record {
    entries = (3, with_filter browser redirect_flow) ∷ (4, with_filter offline block_flow) ∷ [];
    pending = [];
    fresh = 5;
  };
}

two_filters : apply lab 2 true (text "new") (browser ∷ offline ∷ []) before ≡ some (done afterwards)
unfolding apply run_transaction delete_provider_filters delete_loop delete_batch fill_transaction
    ids_of add_rules add_rule add_executables add_executable_filter interface_available stoull hex
    hex_pair str_eq
two_filters = refl

apply_plans_example :
    (filters lab lab_provider afterwards.world
      ≡ plan lab lab_provider true (browser ∷ offline ∷ []))
    × (afterwards.applied_hash ≡ text "new")
apply_plans_example =
    apply_plans lab lab_provider 2 true (text "new") (browser ∷ offline ∷ []) before afterwards
      two_filters
