-- ===== src/Browser.antt =====
-- windows/native/service/browser_reconnect.cpp: which processes are ended after a change of routes.
-- Wide strings are lists of code units. A std::set of process ids is a list in increasing order.
pub mod Chosen
mod Tests
use Prim.Native.Nat.{bit_and}
use netpilot.Base.{
  ℕ, suc, ◌*◌, ◌-◌, ◌^◌, ◌<◌, Bool, true, false, not, ◌&&◌, ◌||◌, Option, none, some, List, [], ◌∷◌,
  map, ltb, ◌==◌, if◌then◌else◌, any_of,
}
use netpilot.Base.Text.{Bytes, text, str_eq, is_empty}
use netpilot.Std.Number.{stoi, Signed}
use netpilot.Protocol.Types.{RestartedProcess}
use netpilot.Routes.Row.{before_slash, find_slash, mask_of}
use netpilot.Relay.Connect.{htonl}

pub record Cidr : Type 0 where
  pub network : ℕ
  pub mask : ℕ

pub record TcpRow : Type 0 where
  pub owner : ℕ
  pub remote : ℕ

-- Windows: InetPtonA (network byte order, `none` unless it answers 1), the two tables (the size that
-- the first call asks for, and the rows that the second one gives), COM and WMI, and processes.
pub record Windows : Type 1 where
  pub World : Type 0
  pub inet_pton : Bytes → Option ℕ
  pub tcp_size : World → ℕ
  pub tcp_table : World → Option (List TcpRow)
  pub udp_size : World → ℕ
  pub udp_table : World → Option (List ℕ)
  pub file_name : Bytes → Bytes
  pub towlower : ℕ → ℕ
  pub initialize : World → Bool
  -- CoCreateInstance, ConnectServer and CoSetProxyBlanket all succeed.
  pub connect_wmi : World → Bool
  pub session_of : ℕ → World → Option ℕ
  pub open_process : ℕ → World → Bool
  pub image_name : ℕ → World → Option Bytes
  -- CommandLine.
  pub command_line : ℕ → World → Bytes
  pub terminate : ℕ → World → Bool × World

-- ntohl swaps as htonl does.
module _ (os : Windows) where
  open os use {World}

  unfoldable pub cidr_of : ℕ → Signed → Option Cidr
  unfolding mask_of
  cidr_of address length =
      let mask = mask_of length.magnitude in
      if length.negative && not (length.magnitude == 0) || ltb 32 length.magnitude
      then none
      else some (record { network = bit_and (htonl address) mask; mask = mask })

  unfoldable pub parse_cidr : Bytes → Option Cidr
  unfolding before_slash find_slash stoi cidr_of
  parse_cidr value = elim (find_slash value) [
    | none ↦ none
    | some rest ↦ elim (os.inet_pton (before_slash value)) [
      | none ↦ none
      | some address ↦ elim (stoi rest) [ none ↦ none | some length ↦ cidr_of address length ]
    ]
  ]

  unfoldable pub parse_cidrs : List Bytes → List Cidr
  unfolding parse_cidr
  parse_cidrs [] = []
  parse_cidrs (value ∷ rest) =
      let more = parse_cidrs rest in
      elim (parse_cidr value) [ none ↦ more | some cidr ↦ cidr ∷ more ]

abbrev in_cidr : ℕ → Cidr → Bool
in_cidr address cidr = bit_and address cidr.mask == cidr.network

unfoldable pub contains_address : List Cidr → ℕ → Bool
contains_address cidrs address = any_of (in_cidr (htonl address)) cidrs

unfoldable pub insert_pid : ℕ → List ℕ → List ℕ
insert_pid pid [] = pid ∷ []
insert_pid pid (x ∷ rest) =
    let rest' = insert_pid pid rest in
    if ltb pid x then pid ∷ x ∷ rest else if pid == x then x ∷ rest else x ∷ rest'

-- The order of insertions has no part in a set.
unfoldable pub tcp_owners_of : List Cidr → List TcpRow → List ℕ
unfolding contains_address insert_pid
tcp_owners_of cidrs [] = []
tcp_owners_of cidrs (row ∷ rest) =
    let owners = tcp_owners_of cidrs rest in
    if ltb 1 row.owner && contains_address cidrs row.remote
    then insert_pid row.owner owners
    else owners

unfoldable pub udp_owners_of : List ℕ → List ℕ
unfolding insert_pid
udp_owners_of [] = []
udp_owners_of (owner ∷ rest) =
    let owners = udp_owners_of rest in if ltb 1 owner then insert_pid owner owners else owners

unfoldable pub insert_all : List ℕ → List ℕ → List ℕ
unfolding insert_pid
insert_all [] pids = pids
insert_all (pid ∷ rest) pids = insert_all rest (insert_pid pid pids)

abbrev pub too_large : ℕ → Bool
too_large size = size == 0 || ltb (32 * 1024 * 1024) size

-- `empty` of a vector or a set.
abbrev is_none : {A : Type 0} → List A → Bool
is_none [] = true
is_none (x ∷ xs) = false

abbrev chromium_names : List Bytes
chromium_names =
    text "chrome.exe"
    ∷ text "msedge.exe"
    ∷ text "brave.exe"
    ∷ text "opera.exe"
    ∷ text "chromium.exe"
    ∷ text "vivaldi.exe"
    ∷ []

abbrev pub network_service : Bytes
network_service = text "--utility-sub-type=network.mojom.NetworkService"

unfoldable pub starts_with : Bytes → Bytes → Bool
starts_with [] s = true
starts_with (c ∷ part) [] = false
starts_with (c ∷ part) (d ∷ s) = c == d && starts_with part s

-- `s.find(part) != npos`.
unfoldable pub has_part : Bytes → Bytes → Bool
unfolding starts_with
has_part part [] = starts_with part []
has_part part (c ∷ s) = starts_with part (c ∷ s) || has_part part s

module _ (os : Windows) where
  open os use {World}

  unfoldable pub tcp_owners : List Cidr → World → List ℕ
  tcp_owners cidrs w =
      if too_large (os.tcp_size w)
      then []
      else elim (os.tcp_table w) [ none ↦ [] | some rows ↦ tcp_owners_of cidrs rows ]

  unfoldable pub udp_owners : World → List ℕ
  udp_owners w =
      if too_large (os.udp_size w)
      then []
      else elim (os.udp_table w) [ none ↦ [] | some rows ↦ udp_owners_of rows ]

  unfoldable pub is_known_chromium : Bytes → Bool
  is_known_chromium path = any_of (str_eq (map os.towlower (os.file_name path))) chromium_names

  -- The process with this id and image: whether it is ended.
  unfoldable pub end_process : ℕ → Bytes → World → Bool × World
  end_process pid path w =
      let (ended, w') = os.terminate pid w in
      if is_known_chromium path && has_part network_service (os.command_line pid w)
      then (ended, w')
      else (false, w)

  -- One turn of the loop over the candidates.
  unfoldable pub try_process : ℕ → ℕ → World → Bool × World
  try_process session pid w = elim (os.session_of pid w) [
    | none ↦ (false, w)
    | some its_session ↦
        if not (its_session == session) || not (os.open_process pid w)
        then (false, w)
        else elim (os.image_name pid w) [ none ↦ (false, w) | some path ↦ end_process pid path w ]
  ]

  abbrev pub restarted_process : ℕ → RestartedProcess
  restarted_process pid = record { pid = pid; name = text "Chromium Network Service" }

  unfoldable pub restart_all : ℕ → List ℕ → World → List RestartedProcess × World
  restart_all session [] w = ([], w)
  restart_all session (pid ∷ rest) w =
      let (ended, w') = try_process session pid w in
      let (more, w'') = restart_all session rest w' in
      if ended then (restarted_process pid ∷ more, w'') else (more, w'')

  unfoldable pub candidates : List Cidr → World → List ℕ
  candidates cidrs w = insert_all (udp_owners w) (tcp_owners cidrs w)

  -- Reconnect: the processes, the warning, and the world.
  unfoldable pub reconnect : List Bytes → ℕ → World → List RestartedProcess × Bytes × World
  reconnect destinations session w =
      let cidrs = parse_cidrs os destinations in
      let (restarted, w') = restart_all session (candidates cidrs w) w in
      if is_none cidrs || is_none (candidates cidrs w)
      then ([], [], w)
      else if not (os.initialize w)
      then ([], text "browser refresh skipped: WMI initialization failed", w)
      else if not (os.connect_wmi w)
      then ([], text "browser refresh skipped: WMI process query unavailable", w)
      else (restarted, [], w')
