-- ===== src/Routes/Row.antt =====
-- PopulateRow and the texts of windows/native/service/route_manager.cpp. An IPv4 address is the
-- number that `ntohl` gives of it.
pub mod Safe
use Prim.Native.Nat.{bit_and}
use netpilot.Base.{
  ℕ, zero, suc, ◌+◌, ◌-◌, ◌*◌, ◌%◌, ◌^◌, Bool, true, false, not, ◌&&◌, Option, none, some, List, [],
  ◌∷◌, ◌++◌, ltb, ◌==◌, if◌then◌else◌,
}
use netpilot.Base.Text.{Bytes, text, str_eq, is_empty}
use netpilot.Std.Number.{stoi, stoull, to_string, to_u8, Signed}
use netpilot.Protocol.Types.{RouteSpec}

-- What the service sets or reads of MIB_IPFORWARD_ROW2.
pub record Row : Type 0 where
  pub luid : ℕ
  pub address : ℕ
  pub prefix_length : ℕ
  pub next_hop : ℕ
  pub metric : ℕ

-- `fault`: an exception that PopulateRow does not catch, or a shift by a negative count.
pub data Populated : Type 0 where
  row : Row → Populated
  invalid : Bytes → Populated
  fault : Populated

-- `find('/')` with `substr(0, slash)` and `substr(slash + 1)`; with no slash both are the whole.
unfoldable pub before_slash : Bytes → Bytes
before_slash [] = []
before_slash (c ∷ s) = let rest = before_slash s in if c == 47 then [] else c ∷ rest

unfoldable pub find_slash : Bytes → Option Bytes
find_slash [] = none
find_slash (c ∷ s) = let rest = find_slash s in if c == 47 then some s else rest

unfoldable pub after_slash : Bytes → Bytes
unfolding find_slash
after_slash s = elim (find_slash s) [ none ↦ s | some rest ↦ rest ]

-- `prefix_length == 0 ? 0 : 0xffffffffu << (32 - prefix_length)`.
unfoldable pub mask_of : ℕ → ℕ
mask_of prefix_length =
    if prefix_length == 0 then 0 else 0xffff_ffff * 2 ^ (32 - prefix_length) % 2 ^ 32

pub route_metric : ℕ
route_metric = 5

-- InetPtonA is given as a function: `none` where it does not answer 1.
module _ (inet_pton : Bytes → Option ℕ) where
  populate_gateway : RouteSpec → Row → Populated
  populate_gateway route r =
      if is_empty route.gateway then row r else elim (inet_pton route.gateway) [
        | none ↦ invalid (text "invalid route gateway")
        | some next_hop ↦ row (record r { next_hop = next_hop })
      ]

  populate_address : RouteSpec → ℕ → ℕ → Populated
  unfolding mask_of before_slash populate_gateway route_metric
  populate_address route luid prefix_length = elim (inet_pton (before_slash route.destination)) [
    | none ↦ invalid (text "invalid route destination")
    | some address ↦
        if ltb 32 prefix_length
        then fault
        else populate_gateway route (record {
          luid = luid;
          address = bit_and address (mask_of prefix_length);
          prefix_length = prefix_length;
          next_hop = 0;
          metric = route_metric;
        })
  ]

  unfoldable pub populate_row : RouteSpec → Populated
  unfolding stoull stoi after_slash populate_address to_u8
  populate_row route = elim (stoull route.interface_luid) [
    | none ↦ invalid (text "invalid adapter LUID")
    | some luid ↦ elim (stoi (after_slash route.destination)) [
      | none ↦ fault
      | some prefix_length ↦ populate_address route luid (to_u8 prefix_length)
    ]
  ]

unfoldable pub equal : RouteSpec → RouteSpec → Bool
unfolding str_eq
equal left right =
    str_eq left.destination right.destination
    && str_eq left.gateway right.gateway
    && str_eq left.interface_luid right.interface_luid
    && str_eq left.tag right.tag

unfoldable pub win32_error : Bytes → ℕ → Bytes
unfolding to_string
win32_error operation code = operation ++ (text " failed (Win32 " ++ (to_string code ++ text ")"))

unfoldable pub same_destination : Row → Row → Bool
same_destination left right =
    left.prefix_length == right.prefix_length && left.address == right.address
