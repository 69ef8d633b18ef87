-- ===== src/Protocol/Validate/Sound.antt =====
-- The destination of a route that IsValidRoute accepts.
use netpilot.Base.{◌≡◌, true, none, arith}
use netpilot.Std.Regex.{regex_match, regex_match_iff, Matches}
use netpilot.Protocol.Types.{RouteSpec}
use netpilot.Protocol.Validate.{is_valid_route, cidr}

-- It is a word of the language of `kCidr`.
pub is_valid_route-destination :
    (route : RouteSpec) → is_valid_route route ≡ none → Matches cidr route.destination
unfolding is_valid_route
is_valid_route-destination route h =
    let m : regex_match route.destination cidr ≡ true = ground arith in
    (regex_match_iff route.destination cidr).0 m
