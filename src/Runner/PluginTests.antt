-- ===== src/Runner/PluginTests.antt =====
-- A user interface with one rule, and a pipe that nobody serves.
use netpilot.Base.{ℕ, ◌≡◌, true, false, none, some, List, [], ◌∷◌}
use netpilot.Base.Text.{text}
use netpilot.Client.Pipe.{Pipe}
use netpilot.Client.Call.{Handles}
use netpilot.Client.Requests.{apply_app_routing}
use netpilot.Runner.Plugin.Answers.{status_result, apply_and_restart}
use netpilot.Protocol.Types.{AppRuleSpec}
use netpilot.Std.OrderedSet.{str_lt}
use netpilot.Std.Sort.Laws.{str_lt_asymmetric}
use netpilot.Runner.Plugin.Rules.{AppExecutableIdentity, AppRoutingRule, Dart, apply_arguments}
use netpilot.Runner.Plugin.Rules.Sent.{AreSpecs, apply_and_restart_sends}

abbrev pipe : Pipe
pipe = record { World = ℕ; write_file = λ bytes w. (none, w); read_file = λ size w. (none, w) }

abbrev handles : Handles pipe
handles = record {
  wait = λ w. (true, w);
  open_pipe = λ w. (false, w);
  close = λ w. w;
  last_error = λ w. 2;
}

abbrev helper : AppExecutableIdentity
helper = record {
  path = text "helper.exe";
  app_id = text "cd";
  display_name = some (text "Helper");
  publisher = none;
  is_signed = true;
  enabled = true;
}

abbrev disabled_helper : AppExecutableIdentity
disabled_helper = record helper { path = text "crash.exe"; app_id = text "ef"; enabled = false }

-- The texts are in lower case already.
abbrev dart : Dart
dart = record { to_lower_case = λ s. s; is_less = str_lt }

abbrev browser : AppRoutingRule
browser = record {
  id = text "browser";
  display_name = text "Browser";
  signing_identifier = [];
  team_identifier = [];
  helper_signing_identifiers = [];
  platform = text "windows";
  executable_path = some (text "browser.exe");
  app_id = some (text "ab");
  publisher = none;
  is_signed = true;
  helper_executables = helper ∷ disabled_helper ∷ [];
  interface_id = text "7";
  enabled = true;
  failure_policy = text "block";
}

apply_and_restart_sends_example :
    (sent : List AppRuleSpec) × AreSpecs dart (browser ∷ []) sent
    × ((apply_and_restart pipe handles true
          (some (apply_arguments dart true (browser ∷ []) (text "hash")))
          0).1
        ≡ status_result pipe handles
            (apply_app_routing pipe handles true (text "hash") sent [] 0).0)
    × ((apply_and_restart pipe handles true
          (some (apply_arguments dart true (browser ∷ []) (text "hash")))
          0).2
        ≡ (apply_app_routing pipe handles true (text "hash") sent [] 0).1)
apply_and_restart_sends_example =
    apply_and_restart_sends dart str_lt_asymmetric pipe handles true true (browser ∷ [])
      (text "hash") 0
