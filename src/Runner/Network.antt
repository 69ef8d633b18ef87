-- ===== src/Runner/Network.antt =====
-- windows/runner/windows_network.h and .cpp: the list of adapters, and the addresses of a host.
pub mod Listed
pub mod Resolved
use netpilot.Base.{
  ℕ, zero, suc, ◌*◌, Bool, true, false, not, ◌&&◌, ◌||◌, Option, none, some, List, [], ◌∷◌, ◌++◌,
  ◌==◌, if◌then◌else◌,
}
use netpilot.Base.Text.{Bytes, text, str_eq, is_empty}
use netpilot.Std.Number.{to_string, stoull}
use netpilot.Std.OrderedSet.{str_lt}
use netpilot.Std.Sort.{sort, unique}
use netpilot.Relay.Adapters.{buffer_overflow}

pub record WindowsAdapterInfo : Type 0 where
  pub id : Bytes
  pub native_id : Bytes
  pub name : Bytes
  pub interface_name : Bytes
  pub kind : Bytes
  pub ipv4_addresses : List Bytes
  pub gateway : Bytes
  pub dns_servers : List Bytes
  pub is_default_route : Bool
  pub is_active : Bool
  pub interface_index : ℕ

-- An address in an adapter's lists: null or of another family, or IPv4 in network byte order.
pub data Sockaddr : Type 0 where
  inet : ℕ → Sockaddr
  other : Sockaddr

-- IP_ADAPTER_ADDRESSES, the friendly name as Utf8 converts it.
pub record AdapterEntry : Type 0 where
  pub luid : ℕ
  pub type : ℕ
  pub index : ℕ
  pub friendly_name : Bytes
  pub is_up : Bool
  pub unicast : List Sockaddr
  pub gateways : List Sockaddr
  pub dns : List Sockaddr

pub data DnsRecord : Type 0 where
  a : ℕ → DnsRecord
  other_type : DnsRecord

-- Windows. `get_adapters` answers a status, the size that it asks for, and the adapters; the LUID
-- of the best route to 8.8.8.8 is `none` if there is none; a status comes with what was found.
pub record NetworkApi : Type 1 where
  pub World : Type 0
  pub get_adapters : ℕ → World → ℕ × ℕ × List AdapterEntry × World
  pub best_luid : World → Option ℕ
  pub inet_ntop : ℕ → Option Bytes
  pub luid_to_index : ℕ → World → ℕ × ℕ
  -- DnsQueryEx for the A records of a host on an interface.
  pub dns_query : Bytes → ℕ → World → ℕ × List DnsRecord

abbrev pub error_text : Bytes → ℕ → Bytes
error_text label code = label ++ (text " failed (Win32 " ++ (to_string code ++ text ")"))

-- IF_TYPE_ETHERNET_CSMACD and IF_TYPE_IEEE80211.
abbrev pub ethernet : ℕ
ethernet = 6

abbrev pub wireless : ℕ
wireless = 71

-- The comparison of std::sort.
unfoldable pub comes_before : WindowsAdapterInfo → WindowsAdapterInfo → Bool
comes_before x y =
    if x.is_active && not y.is_active || not x.is_active && y.is_active
    then x.is_active && not y.is_active
    else if x.is_default_route && not y.is_default_route
        || not x.is_default_route && y.is_default_route
    then x.is_default_route && not y.is_default_route
    else str_lt x.name y.name

module _ (n : NetworkApi) where
  open n use {World}

  unfoldable pub sockaddr_string : Sockaddr → Bytes
  sockaddr_string other = []
  sockaddr_string (inet address) = elim (n.inet_ntop address) [ none ↦ [] | some s ↦ s ]

  -- The texts that are not empty.
  unfoldable pub address_texts : List Sockaddr → List Bytes
  unfolding sockaddr_string
  address_texts [] = []
  address_texts (address ∷ rest) =
      let more = address_texts rest in
      let value = sockaddr_string address in if is_empty value then more else value ∷ more

  -- The last one that was looked at, which is the first that is not empty.
  unfoldable pub gateway_text : List Sockaddr → Bytes
  unfolding sockaddr_string
  gateway_text [] = []
  gateway_text (gateway ∷ rest) =
      let further = gateway_text rest in
      let value = sockaddr_string gateway in if is_empty value then further else value

  unfoldable pub adapter_info : Option ℕ → AdapterEntry → WindowsAdapterInfo
  unfolding address_texts gateway_text to_string
  adapter_info default_luid current = record {
    id = to_string current.luid;
    native_id = to_string current.luid;
    name = current.friendly_name;
    interface_name = current.friendly_name;
    kind = if current.type == wireless then text "wifi" else text "ethernet";
    ipv4_addresses = address_texts current.unicast;
    gateway = gateway_text current.gateways;
    dns_servers = address_texts current.dns;
    is_default_route = current.luid == (elim default_luid [ none ↦ 0 | some luid ↦ luid ]);
    is_active = current.is_up;
    interface_index = current.index;
  }

  unfoldable pub infos : Option ℕ → List AdapterEntry → List WindowsAdapterInfo
  unfolding adapter_info
  infos default_luid [] = []
  infos default_luid (current ∷ rest) =
      let more = infos default_luid rest in
      if not (current.type == wireless) && not (current.type == ethernet)
      then more
      else adapter_info default_luid current ∷ more

  -- The loop over the attempts: the last status and the adapters.
  unfoldable pub ask_adapters : ℕ → ℕ → World → ℕ × List AdapterEntry × World
  ask_adapters zero size w = (buffer_overflow, [], w)
  ask_adapters (suc attempts) size w =
      let (status, size', adapters, w') = n.get_adapters size w in
      let again = ask_adapters attempts size' w' in
      if status == buffer_overflow then again else (status, adapters, w')

  -- List: the adapters and the error, which is empty if there is none.
  unfoldable pub list_adapters : World → List WindowsAdapterInfo × Bytes × World
  unfolding infos sort
  list_adapters w =
      let (status, adapters, w') = ask_adapters 3 (16 * 1024) w in
      if status == 0
      then (sort comes_before (infos (n.best_luid w') adapters), [], w')
      else ([], error_text (text "GetAdaptersAddresses") status, w')

  unfoldable pub a_texts : List DnsRecord → List Bytes
  a_texts [] = []
  a_texts (other_type ∷ rest) = a_texts rest
  a_texts (a address ∷ rest) =
      let more = a_texts rest in elim (n.inet_ntop address) [ none ↦ more | some s ↦ s ∷ more ]

  unfoldable pub resolve_at : Bytes → ℕ → World → List Bytes × Bytes
  unfolding a_texts sort unique
  resolve_at host index w =
      let (status, records) = n.dns_query host index w in
      if status == 0
      then (unique str_eq (sort str_lt (a_texts records)), [])
      else ([], error_text (text "DnsQueryEx") status)

  -- Resolve: the addresses and the error.
  unfoldable pub resolve : Bytes → Bytes → World → List Bytes × Bytes
  unfolding resolve_at
  resolve host adapter_luid w = elim (stoull adapter_luid) [
    | none ↦ ([], text "Invalid adapter LUID")
    | some luid ↦
        let (status, index) = n.luid_to_index luid w in
        if status == 0
        then resolve_at host index w
        else ([], error_text (text "ConvertInterfaceLuidToIndex") status)
  ]

-- Start, Stop and OnInterfaceChanged: the callback, and whether a notification is registered. The
-- registration may fail.
pub record Watch : Type 0 where
  pub callback : Bool
  pub registered : Bool

unfoldable pub stop_watch : Watch → Watch
stop_watch s = record { callback = false; registered = false }

unfoldable pub start_watch : Bool → Watch → Watch
unfolding stop_watch
start_watch succeeds s = record (stop_watch s) { callback = true; registered = succeeds }
