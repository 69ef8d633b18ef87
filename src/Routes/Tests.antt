-- ===== src/Routes/Tests.antt =====
-- Runs of the route manager over a small system, and the theorems at that system.
use netpilot.Base.{
  ℕ, ◌≡◌, ◌≢◌, refl, ◌⊎◌, true, none, some, List, [], ◌∷◌, All, if◌then◌else◌, any_of,
}
use netpilot.Base.Text.{Bytes, text, str_eq}
use netpilot.Std.Regex.{regex_match}
use netpilot.Std.OrderedSet.{contains}
use netpilot.Protocol.Types.{RouteSpec, RouteCheck}
use netpilot.Protocol.Validate.{is_valid_route, cidr, luid, ipv4, tag_prefix}
use netpilot.Routes.Row.{Row, fault, populate_row}
use netpilot.Routes.Row.Safe.{populate_row-ne-fault}
use netpilot.Routes.Net.{Net}
use netpilot.Routes.Entry.{inspect, remove}
use netpilot.Routes.Inventory.{save}
use netpilot.Routes.Reconcile.{
  Outcome, empty_result, reconcile, both_loops, removal_loop, placement_loop, drop_route, start,
}
use netpilot.Routes.Reconcile.Validated.{reconcile_total}
use netpilot.Routes.Reconcile.Answers.{IsApplied, reconcile_success, reconcile_refusal}
use netpilot.Routes.Reconcile.Steady.{InPlace, reconcile_steady}
use netpilot.Routes.Reconcile.Resets.{is_stale, is_verified_at, reconcile_resets_sound}

abbrev office : RouteSpec
office = record {
  destination = text "203.0.113.10/32";
  gateway = text "192.168.8.1";
  interface_luid = text "123456";
  tag = text "netpilot:rule";
}

abbrev office_row : Row
office_row = record {
  luid = 123456;
  address = 3405803786;
  prefix_length = 32;
  next_hop = 3232237569;
  metric = 5;
}

-- A system with the route in place, which accepts every call and counts the writes of the state
-- file.
abbrev lab : Net
lab = record {
  World = ℕ;
  inet_pton = λ s.
      if str_eq s (text "203.0.113.10")
      then some 3405803786
      else if str_eq s (text "192.168.8.1")
      then some 3232237569
      else none;
  inet_ntop = λ a. text "192.168.8.1";
  create_entry = λ r w. (0, w);
  delete_entry = λ r w. (0, w);
  forward_table = λ w. (0, office_row ∷ []);
  best_route = λ a w. (0, office_row);
  write_state = λ s w. Prim.Native.Nat.suc w;
}

office-valid : is_valid_route office ≡ none
unfolding is_valid_route str_eq regex_match cidr luid ipv4 tag_prefix
office-valid = refl

abbrev office_check : RouteCheck
office_check = record {
  destination = text "203.0.113.10/32";
  expected_interface = text "123456";
  expected_gateway = text "192.168.8.1";
  actual_interface = text "123456";
  actual_gateway = text "192.168.8.1";
  exact_present = true;
  verified = true;
  message = [];
}

office-seen : inspect lab office 0 ≡ some office_check
unfolding inspect
office-seen = refl

abbrev office_list : List RouteSpec
office_list = office ∷ []

abbrev office-in_place : All (InPlace lab 0) office_list
office-in_place =
    (record { check = office_check; seen = office-seen; exact = refl; verified = refl }, tt)

abbrev steady_outcome : Outcome lab
steady_outcome = record {
  result = record empty_result { ok = true; route_checks = office_check ∷ [] };
  managed = office_list;
  world = save lab office_list 0;
}

reconcile_steady_example : reconcile lab office_list office_list 0 ≡ some steady_outcome
reconcile_steady_example = reconcile_steady lab office_list 0 (office-valid, tt) office-in_place

reconcile_success_example : IsApplied lab office_list steady_outcome
reconcile_success_example =
    reconcile_success lab office_list office_list 0 steady_outcome reconcile_steady_again refl
  where
    reconcile_steady_again : reconcile lab office_list office_list 0 ≡ some steady_outcome
    reconcile_steady_again = reconcile_steady lab office_list 0 (office-valid, tt) office-in_place

-- A LUID with a command after it, as in the source's own test.
abbrev injected : RouteSpec
injected = record office { interface_luid = text "1 & powershell" }

injected-invalid : is_valid_route injected ≡ some (text "invalid adapter LUID")
unfolding is_valid_route str_eq regex_match cidr luid ipv4 tag_prefix
injected-invalid = refl

reconcile_refusal_example :
    (errors : List Bytes) × (errors ≢ [])
    × (reconcile lab office_list (office ∷ injected ∷ []) 0
        ≡ some (record {
          result = record empty_result { errors = errors };
          managed = office_list;
          world = 0;
        }))
reconcile_refusal_example =
    reconcile_refusal lab office_list (office ∷ injected ∷ []) 0 (λ h. cc (h.1.0, injected-invalid))

reconcile_total_example : (o : Outcome lab) × (reconcile lab office_list (injected ∷ []) 0 ≡ some o)
reconcile_total_example = reconcile_total lab office_list (injected ∷ []) 0 (office-valid, tt)

-- The route is no longer desired: it is deleted, and its connections are reset.
abbrev dropped_outcome : Outcome lab
dropped_outcome = record {
  result = record empty_result {
    ok = true;
    removed = 1;
    connection_reset_destinations = text "203.0.113.10/32" ∷ [];
  };
  managed = [];
  world = 1;
}

reconcile_drops : reconcile lab office_list [] 0 ≡ some dropped_outcome
unfolding reconcile both_loops start removal_loop placement_loop drop_route remove
reconcile_drops = refl

reconcile_resets_sound_example :
    (any_of (is_stale [] (text "203.0.113.10/32")) office_list ≡ true)
    ⊎ (any_of (is_verified_at (text "203.0.113.10/32")) [] ≡ true)
unfolding contains str_eq
reconcile_resets_sound_example =
    reconcile_resets_sound lab office_list [] 0 dropped_outcome (text "203.0.113.10/32")
      reconcile_drops refl

populate_row-ne-fault_example : populate_row (lab.inet_pton) office ≢ fault
populate_row-ne-fault_example = populate_row-ne-fault (lab.inet_pton) office office-valid
