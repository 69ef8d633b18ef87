-- ===== src/Protocol/Routes.antt =====
-- EncodeRoutes and DecodeRoutes of windows/native/common/netpilot_protocol.cpp.
use netpilot.Base.{◌≤◌, ◌≡◌, some, Option, List, [], arith, length, All}
use netpilot.Protocol.Types.{RouteSpec}
use netpilot.Protocol.Buffer.{
  Write, ◌▸◌, write_string, write_list, Reader, reader, Read, pure, ◌>>=◌, read_string, read_list,
  decode,
}
use netpilot.Protocol.Trip.{Trip, then-Trip, last-Trip}
use netpilot.Protocol.Fields.{IsText, string-Trip, list-Trip, decode-Trip, All-Trip}

abbrev write_route : RouteSpec → Write
write_route route =
    write_string route.destination
    ▸ write_string route.gateway
    ▸ write_string route.interface_luid
    ▸ write_string route.tag

unfoldable pub encode_routes : List RouteSpec → Write
encode_routes routes = write_list write_route routes

abbrev read_route : Read RouteSpec
read_route = do
  destination ← read_string
  gateway ← read_string
  interface_luid ← read_string
  tag ← read_string
  pure (record {
    destination = destination;
    gateway = gateway;
    interface_luid = interface_luid;
    tag = tag;
  })

unfoldable pub decode_routes : Reader → Option (List RouteSpec)
decode_routes = decode (read_list 4096 read_route)

-- The strings of a route are within the frame limit.
pub record RouteFits (route : RouteSpec) : Type 0 where
  pub destination : IsText route.destination
  pub gateway : IsText route.gateway
  pub interface_luid : IsText route.interface_luid
  pub tag : IsText route.tag

route-Trip : (route : RouteSpec) → RouteFits route → Trip (write_route route) read_route route
route-Trip route h = then-Trip _ _ _ _ _ _ (string-Trip _ h.destination) (
    then-Trip _ _ _ _ _ _ (string-Trip _ h.gateway) (
      then-Trip _ _ _ _ _ _ (string-Trip _ h.interface_luid)
        (last-Trip _ _ _ _ (string-Trip _ h.tag))))

-- What EncodeRoutes writes for at most 4096 routes, with every string within the frame limit,
-- DecodeRoutes reads back.
pub decode_routes-encode_routes :
    (routes : List RouteSpec)
    → length routes ≤ 4096
    → All RouteFits routes
    → decode_routes (reader (encode_routes routes [])) ≡ some routes
unfolding decode_routes encode_routes
decode_routes-encode_routes routes fits h = decode-Trip (encode_routes routes) _ routes (
    list-Trip 4096 write_route read_route routes (omega arith) fits
      (All-Trip write_route read_route routes route-Trip h))
