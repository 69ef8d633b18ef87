-- ===== src/Browser/Tests.antt =====
-- Two processes with connections, of which one is the network service of a browser.
use netpilot.Base.{ℕ, ◌≡◌, refl, true, some, List, [], ◌∷◌, ◌++◌, All, ◌==◌, if◌then◌else◌}
use netpilot.Base.Text.{text, str_eq}
use netpilot.Std.Number.{stoi}
use netpilot.Protocol.Types.{RestartedProcess}
use netpilot.Routes.Row.{before_slash, find_slash, mask_of}
use netpilot.Browser.{
  Windows, parse_cidrs, parse_cidr, cidr_of, contains_address, insert_pid, tcp_owners_of,
  udp_owners_of, insert_all, starts_with, has_part, tcp_owners, udp_owners, is_known_chromium,
  end_process, try_process, restart_all, candidates, reconnect,
}
use netpilot.Browser.Chosen.{Concerned, Ended, Processes, pids_of, reconnect_chosen}

-- 203.0.113.0/24 in network byte order, and a connection to 203.0.113.10.
abbrev windows : Windows
windows = record {
  World = List ℕ;
  inet_pton = λ s. some 7405771;
  tcp_size = λ w. 64;
  tcp_table = λ w.
      some (record { owner = 700; remote = 175177931 } ∷ record { owner = 300; remote = 1 } ∷ []);
  udp_size = λ w. 64;
  udp_table = λ w. some (500 ∷ 4 ∷ 0 ∷ []);
  file_name = λ s. s;
  towlower = λ c. c;
  initialize = λ w. true;
  connect_wmi = λ w. true;
  session_of = λ pid w. some (if pid == 4 then 0 else 2);
  open_process = λ pid w. true;
  image_name = λ pid w. some (if pid == 700 then text "chrome.exe" else text "notes.exe");
  command_line = λ pid w. text "chrome.exe --utility-sub-type=network.mojom.NetworkService";
  terminate = λ pid w. (true, w ++ pid ∷ []);
}

browser_ended :
    (reconnect windows (text "203.0.113.0/24" ∷ []) 2 []).0
    ≡ record { pid = 700; name = text "Chromium Network Service" } ∷ []
unfolding reconnect candidates parse_cidrs restart_all try_process end_process is_known_chromium
    has_part starts_with insert_all tcp_owners udp_owners tcp_owners_of udp_owners_of insert_pid
    contains_address str_eq stoi before_slash find_slash mask_of cidr_of parse_cidr
browser_ended = refl

processes : Processes windows
processes = record { ended = λ w. w; terminates = λ pid w. refl }

reconnect_chosen_example :
    (processes.ended (reconnect windows (text "203.0.113.0/24" ∷ []) 2 []).2
      ≡ processes.ended []
        ++ pids_of windows (reconnect windows (text "203.0.113.0/24" ∷ []) 2 []).0)
    × All
        (λ (r : RestartedProcess).
          Concerned windows (parse_cidrs windows (text "203.0.113.0/24" ∷ [])) [] r.pid
          × Ended windows 2 r.pid)
        (reconnect windows (text "203.0.113.0/24" ∷ []) 2 []).0
reconnect_chosen_example = reconnect_chosen windows processes (text "203.0.113.0/24" ∷ []) 2 []
