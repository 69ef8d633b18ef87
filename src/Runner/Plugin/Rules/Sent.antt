-- ===== src/Runner/Plugin/Rules/Sent.antt =====
-- What the service gets of the rules of the user interface.
use netpilot.Base.{
  ◌≡◌, refl, ap, subst, Bool, true, false, Option, none, some, List, [], ◌∷◌, map, arith,
}
use mathlib.Core.List.{Perm}
use mathlib.Core.List.Perm
use netpilot.Base.Text.{Bytes, text, str_eq}
use netpilot.Protocol.Types.{AppRuleSpec, AppExecutable}
use netpilot.Std.Sort.{sort}
use netpilot.Std.Sort.Laws.{IsOrdered, sort-perm, sort-IsOrdered}
use netpilot.Client.Pipe.{Pipe}
use netpilot.Client.Call.{Handles}
use netpilot.Client.Requests.{apply_app_routing}
use netpilot.Runner.Plugin.{
  no_fields, Fields, string_in, boolean_in, list_in, rules_of, rule_of, helpers_of, executable_in,
  find, map_of,
}
use netpilot.Runner.Plugin.Answers.{fields, status_result, apply_and_restart}
use netpilot.Runner.Plugin.Rules.{
  AppExecutableIdentity, AppRoutingRule, Dart, nullable, executable_json, executables_json,
  enabled_only, path_is_less, goes_before, executable_helpers, to_provider_json, rules_json,
  apply_arguments,
}

-- A text that is missing is empty.
abbrev pub given : Option Bytes → Bytes
given none = []
given (some s) = s

abbrev spec_of : AppExecutableIdentity → AppExecutable
spec_of helper = record { path = helper.path; app_id = helper.app_id }

-- The helpers that are enabled, as the service knows them.
abbrev pub enabled_specs : List AppExecutableIdentity → List AppExecutable
enabled_specs [] = []
enabled_specs (helper ∷ rest) = elim helper.enabled [
  | true ↦ record { path = helper.path; app_id = helper.app_id } ∷ enabled_specs rest
  | false ↦ enabled_specs rest
]

enabled_specs-map :
    (helpers : List AppExecutableIdentity)
    → map spec_of (enabled_only helpers) ≡ enabled_specs helpers
unfolding enabled_only
enabled_specs-map [] = refl
enabled_specs-map (helper ∷ rest) = ground (arith, enabled_specs-map rest)

helpers_of-executables_json :
    (helpers : List AppExecutableIdentity)
    → helpers_of (executables_json helpers) ≡ map spec_of helpers
unfolding helpers_of executables_json executable_json executable_in string_in find str_eq map_of
    fields
helpers_of-executables_json [] = refl
helpers_of-executables_json (helper ∷ rest) =
    ap (λ l. spec_of helper ∷ l) (helpers_of-executables_json rest)

string_in-nullable :
    (fs : Fields) (key : Bytes) (o : Option Bytes)
    → find fs key ≡ some (nullable o)
    → string_in fs key ≡ given o
unfolding string_in nullable
string_in-nullable fs key none h = ground (arith, h)
string_in-nullable fs key (some s) h = ground (arith, h)

-- A rule as the service is meant to get it: its executable first, and then exactly the helpers that
-- are enabled, in the order of their paths in lower case.
pub record IsSpec (dart : Dart) (rule : AppRoutingRule) (spec : AppRuleSpec) : Type 0 where
  pub id : spec.id ≡ rule.id
  pub interface_luid : spec.interface_luid ≡ rule.interface_id
  pub policy : spec.policy ≡ rule.failure_policy
  pub enabled : spec.enabled ≡ rule.enabled
  pub helpers : List AppExecutable
  pub executables :
      spec.executables
      ≡ record { path = given rule.executable_path; app_id = given rule.app_id } ∷ helpers
  pub same : Perm helpers (enabled_specs rule.helper_executables)
  pub in_order : IsOrdered (λ (a b : AppExecutable). path_is_less dart a.path b.path) helpers

pub data AreSpecs (dart : Dart) : List AppRoutingRule → List AppRuleSpec → Type 0 where
  no_more : AreSpecs dart [] []
  more :
      (rule : AppRoutingRule) (rest : List AppRoutingRule) (spec : AppRuleSpec)
      (others : List AppRuleSpec)
      → IsSpec dart rule spec
      → AreSpecs dart rest others
      → AreSpecs dart (rule ∷ rest) (spec ∷ others)

module _ (dart : Dart) where
  rule_fields : AppRoutingRule → Fields
  unfolding to_provider_json map_of
  rule_fields rule = elim (map_of (to_provider_json dart rule)) [ none ↦ no_fields | some fs ↦ fs ]

  path_and_id :
      (rule : AppRoutingRule)
      → executable_in (rule_fields rule) (text "executablePath")
        ≡ record { path = given rule.executable_path; app_id = given rule.app_id }
  unfolding executable_in rule_fields to_provider_json find str_eq map_of fields nullable
  path_and_id rule =
      let fs = rule_fields rule in
      cc (
        string_in-nullable fs (text "executablePath") rule.executable_path refl,
        string_in-nullable fs (text "wfpAppId") rule.app_id refl,
      )

  spec_of_rule : AppRoutingRule → AppRuleSpec
  spec_of_rule rule = record {
    id = rule.id;
    interface_luid = rule.interface_id;
    policy = rule.failure_policy;
    enabled = rule.enabled;
    executables =
        record { path = given rule.executable_path; app_id = given rule.app_id }
        ∷ map spec_of (executable_helpers dart rule);
  }

  rules_of-rules_json :
      (rules : List AppRoutingRule) → rules_of (rules_json dart rules) ≡ map spec_of_rule rules
  unfolding rules_of rule_of rules_json rule_fields to_provider_json string_in boolean_in list_in
      find str_eq map_of fields spec_of_rule
  rules_of-rules_json [] = refl
  rules_of-rules_json (rule ∷ rest) = cc (
    path_and_id rule,
    helpers_of-executables_json (executable_helpers dart rule),
    rules_of-rules_json rest,
  )

  IsOrdered-map :
      (helpers : List AppExecutableIdentity)
      → IsOrdered (goes_before dart) helpers
      → IsOrdered (λ (a b : AppExecutable). path_is_less dart a.path b.path) (map spec_of helpers)
  IsOrdered-map [] h = tt
  IsOrdered-map (x ∷ []) h = tt
  IsOrdered-map (x ∷ y ∷ rest) h = (h.0, IsOrdered-map (y ∷ rest) h.1)

  module _ (asymmetric : (a b : Bytes) → dart.is_less a b ≡ true → dart.is_less b a ≡ false) where
    spec_of_rule-IsSpec : (rule : AppRoutingRule) → IsSpec dart rule (spec_of_rule rule)
    unfolding spec_of_rule executable_helpers
    spec_of_rule-IsSpec rule =
        let kept = enabled_only rule.helper_executables in
        record {
          id = refl;
          interface_luid = refl;
          policy = refl;
          enabled = refl;
          helpers = map spec_of (sort (goes_before dart) kept);
          executables = refl;
          same =
              subst (λ l. Perm (map spec_of (sort (goes_before dart) kept)) l)
                (enabled_specs-map rule.helper_executables)
                (Perm.map spec_of (sort-perm (goes_before dart) kept));
          in_order = IsOrdered-map _ (
              sort-IsOrdered (goes_before dart)
                (λ a b. asymmetric (dart.to_lower_case a.path) (dart.to_lower_case b.path)) kept);
        }

    specs-AreSpecs : (rules : List AppRoutingRule) → AreSpecs dart rules (map spec_of_rule rules)
    specs-AreSpecs [] = no_more
    specs-AreSpecs (rule ∷ rest) =
        more rule rest _ _ (spec_of_rule-IsSpec rule) (specs-AreSpecs rest)

    -- If no two texts come each before the other in Dart, applyAndRestart calls the service with
    -- the master switch, the hash and the rules of the user interface, in order, and answers what
    -- the service says. Each rule goes with its executable first and then exactly its helpers that
    -- are enabled, in the order of their paths in lower case.
    pub apply_and_restart_sends :
        (p : Pipe) (c : Handles p) (has_sink master_enabled : Bool) (rules : List AppRoutingRule)
        (hash : Bytes) (w : p.World)
        → (sent : List AppRuleSpec) × AreSpecs dart rules sent
          × ((apply_and_restart p c has_sink
                (some (apply_arguments dart master_enabled rules hash))
                w).1
              ≡ status_result p c (apply_app_routing p c master_enabled hash sent [] w).0)
          × ((apply_and_restart p c has_sink
                (some (apply_arguments dart master_enabled rules hash))
                w).2
              ≡ (apply_app_routing p c master_enabled hash sent [] w).1)
    unfolding apply_and_restart apply_arguments boolean_in string_in list_in find str_eq fields
    apply_and_restart_sends p c has_sink master_enabled rules hash w =
        let same = rules_of-rules_json rules in
        (
          map spec_of_rule rules,
          specs-AreSpecs rules,
          ap (λ r. status_result p c (apply_app_routing p c master_enabled hash r [] w).0) same,
          ap (λ r. (apply_app_routing p c master_enabled hash r [] w).1) same,
        )
