-- ===== src/Protocol/AppRules.antt =====
-- EncodeAppRules and DecodeAppRules of windows/native/common/netpilot_protocol.cpp.
use netpilot.Base.{◌≤◌, ◌≡◌, some, Option, Bool, List, [], arith, length, All}
use netpilot.Base.Text.{Bytes}
use netpilot.Protocol.Types.{AppExecutable, AppRuleSpec}
use netpilot.Protocol.Buffer.{
  Write, ◌▸◌, write_string, write_flag, write_list, Reader, reader, Read, pure, ◌>>=◌, read_string,
  read_flag, read_list, decode,
}
use netpilot.Protocol.Trip.{Trip, then-Trip, last-Trip}
use netpilot.Protocol.Fields.{IsText, string-Trip, flag-Trip, list-Trip, decode-Trip, All-Trip}

abbrev write_executable : AppExecutable → Write
write_executable executable = write_string executable.path ▸ write_string executable.app_id

abbrev write_app_rule : AppRuleSpec → Write
write_app_rule rule =
    write_string rule.id
    ▸ write_string rule.interface_luid
    ▸ write_string rule.policy
    ▸ write_flag rule.enabled
    ▸ write_list write_executable rule.executables

unfoldable pub encode_app_rules : Bool → Bytes → List AppRuleSpec → Write
encode_app_rules master_enabled hash rules =
    write_flag master_enabled ▸ write_string hash ▸ write_list write_app_rule rules

abbrev read_executable : Read AppExecutable
read_executable = do
  path ← read_string
  app_id ← read_string
  pure (record { path = path; app_id = app_id })

abbrev read_app_rule : Read AppRuleSpec
read_app_rule = do
  id ← read_string
  interface_luid ← read_string
  policy ← read_string
  enabled ← read_flag
  executables ← read_list 201 read_executable
  pure (record {
    id = id;
    interface_luid = interface_luid;
    policy = policy;
    enabled = enabled;
    executables = executables;
  })

-- What ApplyAppRouting carries: the master switch, the hash and the rules.
abbrev pub AppConfig : Type 0
AppConfig = Bool × Bytes × List AppRuleSpec

unfoldable pub decode_app_rules : Reader → Option AppConfig
decode_app_rules = decode do
  master_enabled ← read_flag
  hash ← read_string
  rules ← read_list 1024 read_app_rule
  pure (master_enabled, hash, rules)

pub record ExecutableFits (executable : AppExecutable) : Type 0 where
  pub path : IsText executable.path
  pub app_id : IsText executable.app_id

pub record AppRuleFits (rule : AppRuleSpec) : Type 0 where
  pub id : IsText rule.id
  pub interface_luid : IsText rule.interface_luid
  pub policy : IsText rule.policy
  pub executable_count : length rule.executables ≤ 201
  pub executables : All ExecutableFits rule.executables

executable-Trip :
    (executable : AppExecutable)
    → ExecutableFits executable
    → Trip (write_executable executable) read_executable executable
executable-Trip executable h =
    then-Trip _ _ _ _ _ _ (string-Trip _ h.path) (last-Trip _ _ _ _ (string-Trip _ h.app_id))

app_rule-Trip :
    (rule : AppRuleSpec) → AppRuleFits rule → Trip (write_app_rule rule) read_app_rule rule
app_rule-Trip rule h = then-Trip _ _ _ _ _ _ (string-Trip _ h.id) (
    then-Trip _ _ _ _ _ _ (string-Trip _ h.interface_luid) (
      then-Trip _ _ _ _ _ _ (string-Trip _ h.policy) (
        then-Trip _ _ _ _ _ _ (flag-Trip rule.enabled) (
          last-Trip _ _ _ _ (
            list-Trip 201 write_executable read_executable rule.executables (omega arith)
              h.executable_count
              (All-Trip write_executable read_executable rule.executables executable-Trip
                h.executables))))))

-- What EncodeAppRules writes for at most 1024 rules of at most 201 executables each, with every
-- string within the frame limit, DecodeAppRules reads back.
pub decode_app_rules-encode_app_rules :
    (master_enabled : Bool) (hash : Bytes) (rules : List AppRuleSpec)
    → IsText hash
    → length rules ≤ 1024
    → All AppRuleFits rules
    → decode_app_rules (reader (encode_app_rules master_enabled hash rules []))
      ≡ some (master_enabled, hash, rules)
unfolding decode_app_rules encode_app_rules
decode_app_rules-encode_app_rules master_enabled hash rules hash_fits fits h =
    decode-Trip (encode_app_rules master_enabled hash rules) _ (master_enabled, hash, rules)
      (then-Trip _ _ _ _ _ _ (flag-Trip master_enabled) (
        then-Trip _ _ _ _ _ _ (string-Trip hash hash_fits) (
          last-Trip _ _ _ _ (
            list-Trip 1024 write_app_rule read_app_rule rules (omega arith) fits
              (All-Trip write_app_rule read_app_rule rules app_rule-Trip h)))))
