-- ===== src/Runner/Plugin/Rules.antt =====
-- lib/core/models/app_routing_rule.dart and lib/core/platform/app_routing_platform.dart: the arguments of
-- applyAndRestart.
pub mod Sent
use netpilot.Base.{Bool, Option, none, some, List, [], ◌∷◌, if◌then◌else◌}
use netpilot.Base.Text.{Bytes, text}
use netpilot.Std.Sort.{sort}
use netpilot.Runner.Plugin.{
  Value, null, boolean, string, list, map, Values, no_values, value, Fields, string_list,
}
use netpilot.Runner.Plugin.Answers.{fields}

pub record AppExecutableIdentity : Type 0 where
  pub path : Bytes
  pub app_id : Bytes
  pub display_name : Option Bytes
  pub publisher : Option Bytes
  pub is_signed : Bool
  pub enabled : Bool

-- What toProviderJson uses of a rule there.
pub record AppRoutingRule : Type 0 where
  pub id : Bytes
  pub display_name : Bytes
  pub signing_identifier : Bytes
  pub team_identifier : Bytes
  pub helper_signing_identifiers : List Bytes
  pub platform : Bytes
  pub executable_path : Option Bytes
  pub app_id : Option Bytes
  pub publisher : Option Bytes
  pub is_signed : Bool
  pub helper_executables : List AppExecutableIdentity
  pub interface_id : Bytes
  pub enabled : Bool
  pub failure_policy : Bytes

-- Dart's `String.toLowerCase`, and whether `compareTo` puts a text before another.
pub record Dart : Type 0 where
  pub to_lower_case : Bytes → Bytes
  pub is_less : Bytes → Bytes → Bool

unfoldable pub nullable : Option Bytes → Value
nullable none = null
nullable (some s) = string s

unfoldable pub executable_json : AppExecutableIdentity → Value
unfolding fields nullable
executable_json helper = map (
    fields (
      (text "path", string helper.path)
      ∷ (text "wfpAppId", string helper.app_id)
      ∷ (text "displayName", nullable helper.display_name)
      ∷ (text "publisher", nullable helper.publisher)
      ∷ (text "isSigned", boolean helper.is_signed)
      ∷ (text "enabled", boolean helper.enabled)
      ∷ []))

-- `where((item) => item.enabled)`.
unfoldable pub enabled_only : List AppExecutableIdentity → List AppExecutableIdentity
enabled_only [] = []
enabled_only (item ∷ rest) =
    let kept = enabled_only rest in if item.enabled then item ∷ kept else kept

-- The `map` to JSON, of the executables that are sorted already: the sort looks only at the path,
-- which is the same in the JSON of an executable.
unfoldable pub executables_json : List AppExecutableIdentity → Values
executables_json [] = no_values
executables_json (helper ∷ rest) = value (executable_json helper) (executables_json rest)

module _ (dart : Dart) where
  abbrev pub path_is_less : Bytes → Bytes → Bool
  path_is_less left right = dart.is_less (dart.to_lower_case left) (dart.to_lower_case right)

  abbrev pub goes_before : (left right : AppExecutableIdentity) → Bool
  goes_before left right = path_is_less left.path right.path

  -- `executableHelpers`.
  unfoldable pub executable_helpers : AppRoutingRule → List AppExecutableIdentity
  unfolding enabled_only sort
  executable_helpers rule = sort goes_before (enabled_only rule.helper_executables)

  -- toProviderJson.
  unfoldable pub to_provider_json : AppRoutingRule → Value
  unfolding fields string_list executables_json nullable executable_helpers sort
  to_provider_json rule = map (
      fields (
        (text "id", string rule.id)
        ∷ (text "displayName", string rule.display_name)
        ∷ (text "signingIdentifier", string rule.signing_identifier)
        ∷ (text "teamIdentifier", string rule.team_identifier)
        ∷ (
          text "helperSigningIdentifiers",
          list (string_list (sort dart.is_less rule.helper_signing_identifiers)),
        )
        ∷ (text "platform", string rule.platform)
        ∷ (text "executablePath", nullable rule.executable_path)
        ∷ (text "wfpAppId", nullable rule.app_id)
        ∷ (text "publisher", nullable rule.publisher)
        ∷ (text "isSigned", boolean rule.is_signed)
        ∷ (text "helperExecutables", list (executables_json (executable_helpers rule)))
        ∷ (text "interfaceId", string rule.interface_id)
        ∷ (text "enabled", boolean rule.enabled)
        ∷ (text "failurePolicy", string rule.failure_policy)
        ∷ []))

  unfoldable pub rules_json : List AppRoutingRule → Values
  unfolding to_provider_json
  rules_json [] = no_values
  rules_json (rule ∷ rest) = value (to_provider_json rule) (rules_json rest)

  -- The arguments of applyAndRestart.
  unfoldable pub apply_arguments : Bool → List AppRoutingRule → Bytes → Fields
  unfolding fields rules_json
  apply_arguments master_enabled rules hash = fields (
      (text "masterEnabled", boolean master_enabled)
      ∷ (text "rules", list (rules_json rules))
      ∷ (text "configurationHash", string hash)
      ∷ [])
