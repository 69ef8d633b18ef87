-- ===== src/Runner/Plugin.antt =====
-- windows/runner/netpilot_plugin.cpp: the values that come over the method channel, and what is made of
-- them.
pub mod Answers
pub mod Rules
use netpilot.Base.{
  ℕ, Bool, true, false, not, Option, none, some, List, [], ◌∷◌, ◌++◌, if◌then◌else◌,
}
use netpilot.Base.Text.{Bytes, text, str_eq, is_empty}
use netpilot.Protocol.Types.{
  RouteSpec, AppRuleSpec, AppExecutable, RuleMetric, ServiceStatus, RouteCheck, RestartedProcess,
  ReconcileResult,
}
use netpilot.Client.Pipe.{Pipe}
use netpilot.Client.Call.{Handles}
use netpilot.Client.Requests.{
  Reply, result, no_result, get_status, reconcile_routes, apply_app_routing,
}
use netpilot.Runner.Network.{WindowsAdapterInfo, NetworkApi, list_adapters, resolve}
use netpilot.Runner.Inspector.{InspectedExecutable, InspectedApplication, Shell, select_and_inspect}

-- flutter::EncodableValue, with an integer by its bit pattern. A key of a map that is no text is found by
-- nothing and left out; a map holds each key once.
mutual
  pub data Value : Type 0 where
    null : Value
    boolean : Bool → Value
    int32 : ℕ → Value
    int64 : ℕ → Value
    string : Bytes → Value
    list : Values → Value
    map : Fields → Value

  pub data Values : Type 0 where
    no_values : Values
    value : Value → Values → Values

  pub data Fields : Type 0 where
    no_fields : Fields
    field : Bytes → Value → Fields → Fields

unfoldable pub find : Fields → Bytes → Option Value
find no_fields key = none
find (field name v rest) key =
    let later = find rest key in if str_eq name key then some v else later

-- std::get_if of a text, of a Boolean, of a list and of a map.
unfoldable pub string_in : Fields → Bytes → Bytes
unfolding find
string_in fields key = elim (find fields key) [ some (string s) ↦ s | _ ↦ [] ]

unfoldable pub boolean_in : Fields → Bytes → Bool → Bool
unfolding find
boolean_in fields key fallback = elim (find fields key) [ some (boolean b) ↦ b | _ ↦ fallback ]

unfoldable pub list_in : Fields → Bytes → Option Values
unfolding find
list_in fields key = elim (find fields key) [ some (list items) ↦ some items | _ ↦ none ]

unfoldable pub map_of : Value → Option Fields
map_of (map fields) = some fields
map_of _ = none

unfoldable pub string_list : List Bytes → Values
string_list [] = no_values
string_list (s ∷ rest) = value (string s) (string_list rest)

unfoldable pub routes_of : Values → List RouteSpec
unfolding string_in map_of
routes_of no_values = []
routes_of (value item rest) = elim (map_of item) [
  | none ↦ routes_of rest
  | some fields ↦
      record {
        destination = string_in fields (text "destination");
        gateway = string_in fields (text "gateway");
        interface_luid = string_in fields (text "interfaceId");
        tag = string_in fields (text "tag");
      }
      ∷ routes_of rest
]

unfoldable pub executable_in : Fields → Bytes → AppExecutable
unfolding string_in
executable_in fields key = record {
  path = string_in fields key;
  app_id = string_in fields (text "wfpAppId");
}

unfoldable pub helpers_of : Values → List AppExecutable
unfolding executable_in map_of
helpers_of no_values = []
helpers_of (value item rest) = elim (map_of item) [
  | none ↦ helpers_of rest
  | some fields ↦ executable_in fields (text "path") ∷ helpers_of rest
]

unfoldable pub rule_of : Fields → AppRuleSpec
unfolding string_in boolean_in executable_in list_in helpers_of
rule_of fields = record {
  id = string_in fields (text "id");
  interface_luid = string_in fields (text "interfaceId");
  policy = string_in fields (text "failurePolicy");
  enabled = boolean_in fields (text "enabled") true;
  executables =
      executable_in fields (text "executablePath")
      ∷ (elim (list_in fields (text "helperExecutables")) [
        | none ↦ []
        | some items ↦ helpers_of items
      ]);
}

unfoldable pub rules_of : Values → List AppRuleSpec
unfolding rule_of map_of
rules_of no_values = []
rules_of (value item rest) = elim (map_of item) [
  | none ↦ rules_of rest
  | some fields ↦ rule_of fields ∷ rules_of rest
]
