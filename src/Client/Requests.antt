-- ===== src/Client/Requests.antt =====
-- GetStatus, ReconcileRoutes, ApplyAppRouting and GetDiagnostics of ServiceClient.
use netpilot.Base.{ℕ, ◌≤◌, ◌≡◌, refl, Bool, Option, none, some, List, [], arith, length}
use netpilot.Base.Text.{Bytes, text}
use netpilot.Protocol.Types.{
  Operation, operation_code, RouteSpec, AppRuleSpec, ServiceStatus, ReconcileResult,
  max_frame_bytes,
}
use netpilot.Protocol.Buffer.{Reader, reader, ◌>>=◌, read_count, read_each, read_string, decode}
use netpilot.Protocol.Routes.{encode_routes}
use netpilot.Protocol.AppRules.{encode_app_rules}
use netpilot.Protocol.Status.{StatusFits, encode_status, decode_status, decode_status-encode_status}
use netpilot.Protocol.Reconcile.{decode_reconcile_result}
use netpilot.Routes.Net.{Net}
use netpilot.Wfp.Engine.{Engine}
use netpilot.Service.Host.{Host}
use netpilot.Service.State.{Service, status}
use netpilot.Service.Requests.{dispatch, status_reply}
use netpilot.Service.Serve.{Peer, authorize_client}
use netpilot.Client.Pipe.{Pipe}
use netpilot.Client.Pipe.Steady.{Steady}
use netpilot.Client.Call.{Handles, call}
use netpilot.Client.Served.{Connected, call_served}

-- What a request comes to: its result, or the error.
pub data Reply (A : Type 0) : Type 0 where
  result : A → Reply A
  no_result : Bytes → Reply A

-- The count is at most 1000.
unfoldable pub decode_lines : Reader → Option (List Bytes)
unfolding read_count
decode_lines = decode (read_count 1000 >>= read_each read_string)

module _ (p : Pipe) (c : Handles p) where
  -- Call, and the decoder on the response. `invalid` is the error where that fails, given the
  -- error so far.
  unfoldable pub ask_service :
      {A : Type 0}
      → ℕ
      → (Reader → Option A)
      → (Bytes → Bytes)
      → Bytes
      → Bytes
      → p.World
      → Reply A × p.World
  ask_service operation decoder invalid request error w =
      let a = call p c operation request error w in
      elim a.response [
        | none ↦ (no_result a.error, a.world)
        | some response ↦ elim (decoder (reader response)) [
          | none ↦ (no_result (invalid a.error), a.world)
          | some x ↦ (result x, a.world)
        ]
      ]

  unfoldable pub get_status : Bytes → p.World → Reply ServiceStatus × p.World
  get_status error w =
      ask_service (operation_code Operation.status) decode_status
        (λ error. text "NetPilot Windows Service returned invalid status data") [] error w

  unfoldable pub reconcile_routes :
      List RouteSpec → Bytes → p.World → Reply ReconcileResult × p.World
  reconcile_routes routes error w =
      ask_service (operation_code Operation.reconcile_routes) decode_reconcile_result
        (λ error. text "NetPilot Windows Service returned invalid reconcile data")
        (encode_routes routes []) error w

  unfoldable pub apply_app_routing :
      Bool → Bytes → List AppRuleSpec → Bytes → p.World → Reply ServiceStatus × p.World
  apply_app_routing master hash rules error w =
      ask_service (operation_code Operation.apply_app_routing) decode_status
        (λ error. text "NetPilot Windows Service returned invalid apply data")
        (encode_app_rules master hash rules []) error w

  -- A reply that does not decode leaves the error as it is. (The lines read by then, which the
  -- caller's list has, are left out.)
  unfoldable pub get_diagnostics : Bytes → p.World → Reply (List Bytes) × p.World
  get_diagnostics error w =
      ask_service (operation_code Operation.diagnostics) decode_lines (λ error. error) [] error w

module _ (n : Net) (e : Engine) (h : Host) (p : Pipe) (c : Handles p) (t : Steady p) (q : Pipe)
    (u : Steady q) where
  -- Over a pipe that does not break, GetStatus of an authorized client gives the status that the
  -- service has, field for field. (A status within the widths and limits of its encoding, which
  -- fits in a frame.)
  pub get_status_served :
      (fuel : ℕ) (peer : Peer h) (error : Bytes) (s : Service n e h) (w : p.World) (v : q.World)
      → Connected n e h p c t q u fuel (operation_code Operation.status) peer [] s w v
      → authorize_client n e h q peer s.host ≡ none
      → StatusFits (status n e h [] s)
      → length (encode_status (status n e h [] s) []) ≤ max_frame_bytes
      → (get_status p c error w).0 ≡ result (status n e h [] s)
  unfolding get_status ask_service dispatch status_reply
  get_status_served fuel peer error s w v link allowed fits short =
      let response = encode_status (status n e h [] s) [] in
      let a =
        call_served n e h p c t q u fuel (operation_code Operation.status) peer [] response error s
          s w v link allowed (omega arith) (omega arith) short refl in
      ground (arith, a.returned, decode_status-encode_status (status n e h [] s) fits)
