-- ===== src/Routes/Entry.antt =====
-- RouteManager::Add, Remove and Inspect of windows/native/service/route_manager.cpp.
use netpilot.Base.{
  ℕ, ◌≡◌, refl, ◌⊎◌, inl, inr, Bool, false, not, ◌&&◌, ◌||◌, Option, none, some, List, [], ◌++◌,
  ltb, ◌==◌, if◌then◌else◌, any_of,
}
use Prim.Native.Nat.{bit_and, bit_or}
use netpilot.Base.Text.{Bytes, text, str_eq, is_empty}
use netpilot.Std.Number.{to_string}
use netpilot.Protocol.Types.{RouteSpec, RouteCheck}
use netpilot.Routes.Row.{
  Row, row, invalid, fault, populate_row, mask_of, win32_error, same_destination,
}
use netpilot.Routes.Net.{Net}

-- The status codes of winerror.h that the source names.
abbrev pub no_error : ℕ
no_error = 0

abbrev pub error_file_not_found : ℕ
error_file_not_found = 2

abbrev pub error_not_found : ℕ
error_not_found = 1168

abbrev pub error_object_already_exists : ℕ
error_object_already_exists = 5010

-- `done` where the method returns true `failed` with `*error` where it returns
-- false, and `thrown` for a fault of PopulateRow.
pub data Attempt (W : Type 0) : Type 0 where
  done : W → Attempt W
  failed : Bytes → W → Attempt W
  thrown : Attempt W

pub Attempt-cases :
    {W : Type 0} (a : Attempt W)
    → ((w : W) × (a ≡ done w)) ⊎ (((e : Bytes) × (w : W) × (a ≡ failed e w)) ⊎ (a ≡ thrown))
Attempt-cases (done w) = inl (w, refl)
Attempt-cases (failed e w) = inr (inl (e, w, refl))
Attempt-cases thrown = inr (inr refl)

module _ (n : Net) where
  open n use {World, inet_pton, inet_ntop, create_entry, delete_entry, forward_table, best_route}

  add_row : Row → World → Attempt World
  unfolding win32_error
  add_row r w =
      let (status, w') = create_entry r w in
      if status == no_error || status == error_object_already_exists
      then done w'
      else failed (win32_error (text "CreateIpForwardEntry2") status) w'

  remove_row : Row → World → Attempt World
  unfolding win32_error
  remove_row r w =
      let (status, w') = delete_entry r w in
      if status == no_error || (status == error_not_found || status == error_file_not_found)
      then done w'
      else failed (win32_error (text "DeleteIpForwardEntry2") status) w'

  unfoldable pub add : RouteSpec → World → Attempt World
  unfolding add_row populate_row
  add route w = elim (populate_row inet_pton route) [
    | row r ↦ add_row r w
    | invalid error ↦ failed error w
    | fault ↦ thrown
  ]

  unfoldable pub remove : RouteSpec → World → Attempt World
  unfolding remove_row populate_row
  remove route w = elim (populate_row inet_pton route) [
    | row r ↦ remove_row r w
    | invalid error ↦ failed error w
    | fault ↦ thrown
  ]

  -- The loop over the forward table; the table is read only if the call succeeds.
  is_exact : Row → Row → Bool
  unfolding same_destination
  is_exact expected r =
      same_destination r expected && (r.luid == expected.luid && r.next_hop == expected.next_hop)

  exact_in : Row → ℕ × List Row → Bool
  unfolding is_exact
  exact_in expected (status, table) = status == no_error && any_of (is_exact expected) table

  -- The address that stands for the destination when the best route is asked for.
  target_of : Row → ℕ
  unfolding mask_of
  target_of expected =
      if expected.prefix_length == 0
      then 0x0808_0808
      else bit_or (bit_and expected.address (mask_of expected.prefix_length))
          (if ltb expected.prefix_length 32 then 1 else 0)

  actual_interface_of : ℕ × Row → Bytes
  actual_interface_of (status, best) = if status == no_error then to_string best.luid else []

  actual_gateway_of : ℕ × Row → Bytes
  actual_gateway_of (status, best) =
      if status == no_error && not (best.next_hop == 0) then inet_ntop best.next_hop else []

  via : Bytes → Bytes
  via gateway = if is_empty gateway then [] else text " via " ++ gateway

  mismatch_message : RouteSpec → Bytes → Bytes → Bool → ℕ → ℕ → Bytes
  unfolding via win32_error
  mismatch_message route actual_interface actual_gateway exact_present table_status best_status =
      text "route "
      ++ (route.destination
          ++ (text " expected adapter "
              ++ (route.interface_luid
                  ++ (via route.gateway
                      ++ (text ", actual "
                          ++ ((if is_empty actual_interface
                                then text "unavailable"
                                else actual_interface)
                              ++ (via actual_gateway
                                  ++ ((if exact_present then [] else text "; exact route missing")
                                      ++ ((if table_status == no_error
                                            then []
                                            else text "; "
                                              ++ win32_error (text "GetIpForwardTable2")
                                                  table_status)
                                          ++ (if best_status == no_error
                                              then []
                                              else text "; "
                                                ++ win32_error (text "GetBestRoute2")
                                                    best_status))))))))))

  is_verified : RouteSpec → Row → Bool → ℕ × Row → Bool
  unfolding str_eq actual_gateway_of
  is_verified route expected exact_present (best_status, best) =
      exact_present
      && (best_status == no_error
          && (best.luid == expected.luid
              && (is_empty route.gateway
                  || str_eq (actual_gateway_of (best_status, best)) route.gateway)))

  inspect_row : RouteSpec → Row → ℕ × List Row → ℕ × Row → RouteCheck
  unfolding exact_in is_verified mismatch_message actual_interface_of actual_gateway_of
  inspect_row route expected table best =
      let exact_present = exact_in expected table in
      let verified = is_verified route expected exact_present best in
      record {
        destination = route.destination;
        expected_interface = route.interface_luid;
        expected_gateway = route.gateway;
        actual_interface = actual_interface_of best;
        actual_gateway = actual_gateway_of best;
        exact_present = exact_present;
        verified = verified;
        message =
            if verified
            then []
            else mismatch_message route (actual_interface_of best) (actual_gateway_of best)
                exact_present table.0 best.0;
      }

  -- `none` is a fault of PopulateRow.
  unfoldable pub inspect : RouteSpec → World → Option RouteCheck
  unfolding inspect_row target_of populate_row
  inspect route w = elim (populate_row inet_pton route) [
    | row expected ↦
        some (inspect_row route expected (forward_table w) (best_route (target_of expected) w))
    | invalid error ↦ some (record {
      destination = route.destination;
      expected_interface = route.interface_luid;
      expected_gateway = route.gateway;
      actual_interface = [];
      actual_gateway = [];
      exact_present = false;
      verified = false;
      message = text "route check " ++ (route.destination ++ (text ": " ++ error));
    })
    | fault ↦ none
  ]
