-- ===== src/Protocol/Validate.antt =====
-- IsValidRoute of windows/native/common/netpilot_protocol.cpp. The answer is `none` for a valid
-- route and otherwise the text that the source stores in `*error`.
pub mod Address
pub mod Sound
use netpilot.Base.{
  ℕ, Bool, true, false, not, ◌&&◌, ◌||◌, Option, none, some, List, [], ◌∷◌, ◌++◌, ltb, leb, ◌==◌,
  if◌then◌else◌, length, take,
}
use netpilot.Base.Text.{Bytes, text, str_eq, is_empty}
use netpilot.Std.Regex.{Regex, eps, cls, seq, alt, opt, times, up_to, regex_match}
use netpilot.Protocol.Types.{RouteSpec}

-- One byte, and one of a range of bytes.
abbrev pub chr : ℕ → Regex
chr c = cls (λ x. x == c)

abbrev pub range : ℕ → ℕ → Regex
range lo hi = cls (λ x. leb lo x && leb x hi)

abbrev pub digit : Regex
digit = range 48 57

-- `25[0-5]|2[0-4][0-9]|[01]?[0-9]?[0-9]`
unfoldable pub octet : Regex
octet =
    alt (seq (chr 50) (seq (chr 53) (range 48 53))) (
      alt (seq (chr 50) (seq (range 48 52) digit))
        (seq (opt (range 48 49)) (seq (opt digit) digit)))

-- `(octet\.){3}octet`
unfoldable pub ipv4 : Regex
unfolding octet
ipv4 = seq (times 3 (seq octet (chr 46))) octet

-- `3[0-2]|[12]?[0-9]`
unfoldable pub prefix : Regex
prefix = alt (seq (chr 51) (range 48 50)) (seq (opt (range 49 50)) digit)

-- `ipv4\/prefix`
unfoldable pub cidr : Regex
unfolding ipv4 prefix
cidr = seq ipv4 (seq (chr 47) prefix)

-- `[0-9]{1,20}`
unfoldable pub luid : Regex
luid = seq digit (up_to 19 digit)

unfoldable pub tag_prefix : Bytes
tag_prefix = text "netpilot:"

unfoldable pub is_valid_route : RouteSpec → Option Bytes
is_valid_route route =
    if not (regex_match route.destination cidr)
    then some (text "invalid CIDR")
    else if not (is_empty route.gateway) && not (regex_match route.gateway ipv4)
    then some (text "invalid gateway")
    else if not (regex_match route.interface_luid luid)
    then some (text "invalid adapter LUID")
    else if not (str_eq (take 9 route.tag) tag_prefix) || ltb 200 (length route.tag)
    then some (text "invalid route tag")
    else none
