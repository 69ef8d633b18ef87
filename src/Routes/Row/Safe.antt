-- ===== src/Routes/Row/Safe.antt =====
-- PopulateRow on a route that IsValidRoute accepts.
use netpilot.Base.{
  ℕ, ◌≤◌, ◌≡◌, refl, ◌≢◌, false, Option, none, some, [], ◌∷◌, ◌++◌, arith, ==_iff, All,
}
use netpilot.Base.Text.{Bytes}
use netpilot.Std.Number.{stoi, to_u8}
use netpilot.Std.Regex.{Matches}
use netpilot.Protocol.Types.{RouteSpec}
use netpilot.Protocol.Validate.{is_valid_route, cidr}
use netpilot.Protocol.Validate.Address.{ipv4-no_slash, prefix-stoi}
use netpilot.Protocol.Validate.Sound.{is_valid_route-destination}
use netpilot.Routes.Row.{fault, find_slash, after_slash, populate_row}

find_slash-append : (u v : Bytes) → All (λ c. c ≢ 47) u → find_slash (u ++ 47 ∷ v) ≡ some v
unfolding find_slash
find_slash-append [] v h = refl
find_slash-append (c ∷ u) v h = ground (arith, find_slash-append u v h.1)

after_slash-append : (u v : Bytes) → All (λ c. c ≢ 47) u → after_slash (u ++ 47 ∷ v) ≡ v
unfolding after_slash
after_slash-append u v h = rw (find_slash-append u v h, after_slash)

cidr-prefix :
    (s : Bytes)
    → Matches cidr s
    → (m : ℕ) × (stoi (after_slash s) ≡ some (record { negative = false; magnitude = m }))
      × (m ≤ 32)
unfolding cidr
cidr-prefix s (u, v, e, m4, (w, x, e', (c, ec, hc), mp)) =
    let slash : c ≡ 47 = (==_iff c 47).0 hc in
    rw (e, e', ec, slash, after_slash-append u x (ipv4-no_slash u m4)) (prefix-stoi x mp)

module _ (inet_pton : Bytes → Option ℕ) where
  -- Whatever InetPtonA answers, a validated route gives a row or an error text: `std::stoi`
  -- does not throw, and the mask is a shift by 0 to 32.
  pub populate_row-ne-fault :
      (route : RouteSpec) → is_valid_route route ≡ none → populate_row inet_pton route ≢ fault
  unfolding populate_row to_u8
  populate_row-ne-fault route h e =
      let (m, read, small) = cidr-prefix route.destination (is_valid_route-destination route h) in
      ground (arith, read, small)
