-- ===== src/Runner/Tests.antt =====
-- A machine with two adapters and a program with two more executables beside it, one of them of
-- its publisher; the API's answers are fixed.
use netpilot.Base.{
  ℕ, ◌+◌, ◌*◌, ◌≡◌, refl, Bool, true, false, none, some, List, [], ◌∷◌, ◌++◌, arith, ◌==◌,
  if◌then◌else◌,
}
use netpilot.Base.Text.{Bytes, text, str_eq}
use netpilot.Std.Number.{stoull}
use netpilot.Std.OrderedSet.{str_lt}
use netpilot.Relay.Adapters.{buffer_overflow}
use netpilot.Runner.Network.{
  inet, other, AdapterEntry, a, other_type, NetworkApi, comes_before, ask_adapters, list_adapters,
  resolve, WindowsAdapterInfo,
}
use netpilot.Runner.Network.Resolved.{IsResolved, resolve-IsResolved}
use netpilot.Runner.Network.Listed.{IsListed, list_adapters-IsListed}
use netpilot.Runner.Base64.{base64}
use netpilot.Runner.Base64.Decoded.{decode64, decode64-base64}
use netpilot.Runner.Inspector.{
  DirectoryEntry, Tree, end, entry, Shell, chosen, InspectedApplication, InspectedExecutable,
  application_of, executable_of, select_and_inspect, pick_exe, is_netpilot,
}
use netpilot.Runner.Inspector.Chosen.{IsChosen, select_and_inspect-IsChosen}

abbrev wired : AdapterEntry
wired = record {
  luid = 7;
  type = 6;
  index = 3;
  friendly_name = text "Ethernet";
  is_up = false;
  unicast = inet 1 ∷ other ∷ [];
  gateways = other ∷ inet 2 ∷ [];
  dns = [];
}

abbrev wifi : AdapterEntry
wifi = record wired { luid = 9; type = 71; friendly_name = text "Wi-Fi"; is_up = true }

abbrev tunnel : AdapterEntry
tunnel = record wired { type = 131 }

-- The first call finds the buffer too small.
abbrev machine : NetworkApi
machine = record {
  World = ℕ;
  get_adapters = λ size w.
      if w == 0
      then (buffer_overflow, 2 * size, [], 1)
      else (0, size, wired ∷ tunnel ∷ wifi ∷ [], 2);
  best_luid = λ w. some 7;
  inet_ntop = λ address. some (text "10.0.0." ++ (48 + address) ∷ []);
  luid_to_index = λ luid w. (if luid == 7 then 0 else 87, 3);
  dns_query = λ host index w. (0, a 4 ∷ a 2 ∷ other_type ∷ a 4 ∷ []);
}

resolve-IsResolved_example :
    IsResolved machine
      (text "example.org")
      (text "7")
      2
      (resolve machine (text "example.org") (text "7") 2).0
unfolding resolve stoull
resolve-IsResolved_example = resolve-IsResolved machine (text "example.org") (text "7") 2 refl

resolved :
    resolve machine (text "example.org") (text "7") 2 ≡ (text "10.0.0.2" ∷ text "10.0.0.4" ∷ [], [])
unfolding resolve stoull str_lt str_eq
resolved = refl

list_adapters-IsListed_example :
    IsListed machine (list_adapters machine 0).0 (list_adapters machine 0).2
unfolding list_adapters ask_adapters
list_adapters-IsListed_example = list_adapters-IsListed machine 0 refl

abbrev names : List WindowsAdapterInfo → List Bytes
names [] = []
names (x ∷ rest) = x.name ∷ names rest

active_first : names (list_adapters machine 0).0 ≡ text "Wi-Fi" ∷ text "Ethernet" ∷ []
unfolding list_adapters ask_adapters comes_before
active_first = refl

decode64-base64_example : decode64 (base64 (77 ∷ 97 ∷ 110 ∷ 255 ∷ [])) ≡ 77 ∷ 97 ∷ 110 ∷ 255 ∷ []
decode64-base64_example =
    decode64-base64 (77 ∷ 97 ∷ 110 ∷ 255 ∷ [])
      (omega arith, (omega arith, (omega arith, (omega arith, tt))))

man : base64 (77 ∷ 97 ∷ 110 ∷ 255 ∷ []) ≡ text "TWFu/w=="
unfolding base64
man = refl

abbrev program : Bytes
program = text "C:\\App\\app.exe"

abbrev file : Bytes → DirectoryEntry
file path = record { path = path; is_directory = false; is_link = false; is_regular_file = true }

abbrev folder : DirectoryEntry
folder = record {
  path = text "C:\\App\\bin";
  is_directory = true;
  is_link = false;
  is_regular_file = false;
}

abbrev directory : Tree
directory = entry (file program) end (
    entry folder (entry (file (text "helper.exe")) end (entry (file (text "other.exe")) end end))
      end)

abbrev desktop : Shell
desktop = record {
  dialog = true;
  show = chosen;
  picked = some program;
  final_path = λ path. some path;
  extension = λ path. text ".exe";
  file_name = λ path. path;
  same_text = str_eq;
  utf8 = λ s. s;
  app_id_blob = λ path. some (1 ∷ []);
  verify_signature = λ path. true;
  publisher = λ path. if str_eq path (text "other.exe") then text "Other" else text "Maker";
  png = λ path. none;
  directory_tree = λ path. directory;
}

abbrev application : InspectedApplication
application = application_of desktop program (executable_of desktop program)

select_and_inspect-IsChosen_example : IsChosen desktop application
unfolding select_and_inspect pick_exe is_netpilot
select_and_inspect-IsChosen_example = select_and_inspect-IsChosen desktop application refl

abbrev selections : List InspectedExecutable → List Bool
selections [] = []
selections (x ∷ rest) = x.selected ∷ selections rest

one_selected : selections application.helpers ≡ true ∷ false ∷ []
unfolding application_of
one_selected = refl
