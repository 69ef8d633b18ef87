-- ===== src/Service/Rules.antt =====
-- IsValidAppRule of netpilot_protocol.cpp and ServiceRuntime::ValidateRules. An answer is `none`,
-- or the error text.
use netpilot.Base.{
  ℕ, ◌+◌, Bool, true, false, not, ◌&&◌, ◌||◌, Option, none, some, List, [], ◌∷◌, map, ltb, leb,
  if◌then◌else◌, length,
}
use netpilot.Base.Text.{Bytes, text, str_eq, is_empty}
use netpilot.Std.Regex.{Regex, alt, seq, up_to, regex_match}
use netpilot.Protocol.Types.{AppRuleSpec, AppExecutable}
use netpilot.Protocol.Validate.{chr, range, digit, luid}
use netpilot.Wfp.AppId.{app_id_hex}
use netpilot.Service.Host.{Host}

-- `[A-Za-z0-9:_-]` and `[A-Za-z0-9:_-]{1,160}`
unfoldable pub id_char : Regex
id_char = alt (range 65 90) (alt (range 97 122) (alt digit (alt (chr 58) (alt (chr 95) (chr 45)))))

unfoldable pub rule_id : Regex
rule_id = seq id_char (up_to 159 id_char)

-- std::tolower in the "C" locale.
pub to_lower : ℕ → ℕ
to_lower c = if leb 65 c && leb c 90 then c + 32 else c

-- The owners of the App IDs: the last entry of a key stands first.
unfoldable pub find_owner : Bytes → List (Bytes × Bytes) → Option Bytes
find_owner key [] = none
find_owner key ((k, owner) ∷ rest) =
    let further = find_owner key rest in if str_eq k key then some owner else further

module _ (h : Host) where
  open h use {World, wide}

  unfoldable pub is_executable : AppExecutable → Bool
  unfolding to_lower
  is_executable executable =
      h.is_absolute executable.path
      && (str_eq (map to_lower (h.extension executable.path)) (text ".exe")
          && not (is_empty executable.app_id || ltb 32768 (length executable.app_id)))

  unfoldable pub check_executables : List AppExecutable → Option Bytes
  unfolding is_executable
  check_executables [] = none
  check_executables (executable ∷ rest) =
      let others = check_executables rest in
      if is_executable executable then others else some (text "invalid executable identity")

  unfoldable pub is_valid_app_rule : AppRuleSpec → Option Bytes
  unfolding check_executables rule_id
  is_valid_app_rule rule =
      if not (regex_match rule.id rule_id)
      then some (text "invalid rule id")
      else if not (regex_match rule.interface_luid luid)
      then some (text "invalid adapter LUID")
      else if not (str_eq rule.policy (text "block")) && not (str_eq rule.policy (text "fallback"))
      then some (text "invalid failure policy")
      else if is_empty rule.executables || ltb 201 (length rule.executables)
      then some (text "invalid executable count")
      else check_executables rule.executables

  app_id_text : Option Bytes → Bytes
  app_id_text none = []
  app_id_text (some blob) = app_id_hex blob

  -- The path is its own canonical path, of a file with this App ID.
  unfoldable pub is_identified : AppExecutable → World → Bool
  unfolding app_id_text
  is_identified executable w = elim (h.canonical (wide executable.path) w) [
    | none ↦ false
    | some path ↦
        h.is_regular_file path w
        && (h.same_text path (wide executable.path)
            && str_eq (app_id_text (h.app_id_blob path w)) executable.app_id)
  ]

  unfoldable pub is_component : AppExecutable → Bool
  is_component executable =
      let name = h.file_name (wide executable.path) in
      h.same_text name (wide (text "NetPilotService.exe"))
      || (h.same_text name (wide (text "netpilot_desktop.exe"))
          || h.same_text name (wide (text "NetPilotMaintenance.exe")))

  -- The body of the inner loop: the error, or the owners after it.
  pub data Claimed : Type 0 where
    refused : Bytes → Claimed
    claimed : List (Bytes × Bytes) → Claimed

  take_key : Bytes → Bytes → Option Bytes → List (Bytes × Bytes) → Claimed
  take_key key interface_luid none owners = claimed ((key, interface_luid) ∷ owners)
  take_key key interface_luid (some owner) owners =
      if str_eq owner interface_luid
      then claimed ((key, interface_luid) ∷ owners)
      else refused (text "WFP App ID overlaps rules on different adapters")

  claim : Bytes → AppExecutable → List (Bytes × Bytes) → World → Claimed
  unfolding is_identified is_component take_key to_lower find_owner
  claim interface_luid executable owners w =
      let key = map to_lower executable.app_id in
      if not (is_identified executable w)
      then refused (text "executable path or WFP App ID failed service validation")
      else if is_component executable
      then refused (text "NetPilot components cannot be selected for app routing")
      else take_key key interface_luid (find_owner key owners) owners

  claim_all : Bytes → List AppExecutable → List (Bytes × Bytes) → World → Claimed
  unfolding claim
  claim_all interface_luid [] owners w = claimed owners
  claim_all interface_luid (executable ∷ rest) owners w =
      elim (claim interface_luid executable owners w) [
        | refused error ↦ refused error
        | claimed owners' ↦ claim_all interface_luid rest owners' w
      ]

  validate_from : List AppRuleSpec → List (Bytes × Bytes) → World → Option Bytes
  unfolding is_valid_app_rule claim_all
  validate_from [] owners w = none
  validate_from (rule ∷ rest) owners w = elim (is_valid_app_rule rule) [
    | some error ↦ some error
    | none ↦ elim rule.enabled [
      | false ↦ validate_from rest owners w
      | true ↦ elim (claim_all rule.interface_luid rule.executables owners w) [
        | refused error ↦ some error
        | claimed owners' ↦ validate_from rest owners' w
      ]
    ]
  ]

  unfoldable pub validate_rules : List AppRuleSpec → World → Option Bytes
  unfolding validate_from
  validate_rules rules w = validate_from rules [] w
