-- ===== src/Client/RequestTests.antt =====
-- The two ends of a pipe that writes two bytes at a time and reads one, with a service that has
-- nothing to report.
use netpilot.Base.{
  take-length-take, length-take_le_length, ℕ, suc, ◌≤◌, ◌≡◌, refl, ap, sym, ◌∙◌, ◌⊎◌, true, false,
  none, some, [], ◌∷◌, ◌++◌, arith, length, take, drop,
}
use netpilot.Base.Text.{Bytes, text, str_eq}
use netpilot.Protocol.Types.{max_frame_bytes}
use netpilot.Protocol.Frame.{frame_header, header_bytes}
use netpilot.Protocol.Buffer.{write_each, write_u32, write_u64, write_string, write_u8, le_bytes}
use netpilot.Protocol.Status.{StatusFits, encode_status}
use netpilot.Routes.Row.{Row}
use netpilot.Routes.Net.{Net}
use netpilot.Wfp.Engine.{Engine}
use netpilot.Service.Host.{Host}
use netpilot.Service.State.{Service, status}
use netpilot.Service.Requests.{dispatch, snapshot_reply, status_reply}
use netpilot.Service.Serve.{Peer, authorize_client, client_session, Served}
use netpilot.Service.Serve.Answered.{Answers, serve_client_answers}
use netpilot.Service.Serve.Guarded.{Dispatched, TurnedAway, serve_client_cases}
use netpilot.Client.Pipe.{Pipe, write_all, transmit}
use netpilot.Client.Pipe.Steady.{Steady}
use netpilot.Client.Pipe.Frames.{frame, send_frame, send_frame_sends}
use netpilot.Client.Call.{Handles, send_request}
use netpilot.Client.Served.{Agreed, Connected, call_served}
use netpilot.Client.Requests.{result, get_status, get_status_served}

-- What was sent and what is there to be read.
abbrev duplex : Pipe
duplex = record {
  World = Bytes × Bytes;
  write_file = λ bytes w. (some (length (take 2 bytes)), (w.0 ++ take 2 bytes, w.1));
  read_file = λ size w. (some (take 1 w.1), (w.0, drop 1 w.1));
}

duplex_moves :
    (b : ℕ) (bytes : Bytes) → (k : ℕ) × (some (length (take 2 (b ∷ bytes))) ≡ some (suc k))
duplex_moves b [] = (0, refl)
duplex_moves b (a ∷ bytes) = (1, refl)

abbrev duplex_steady : Steady duplex
duplex_steady = record {
  writes = record {
    sent = λ w. w.0;
    within = λ bytes w k h. ground (arith, length-take_le_length 2 bytes);
    front = λ bytes w k h. ground (arith, take-length-take 2 bytes);
  };
  incoming = λ w. w.1;
  moves = λ b bytes w. duplex_moves b bytes;
  gets = λ size w there. record { more = 0; fits = omega arith; read = refl; left = refl };
  read_keeps = λ size w. refl;
}

abbrev handles : Handles duplex
handles = record {
  wait = λ w. (true, w);
  open_pipe = λ w. (true, w);
  close = λ w. w;
  last_error = λ w. 0;
}

abbrev no_row : Row
no_row = record { luid = 0; address = 0; prefix_length = 0; next_hop = 0; metric = 0 }

abbrev net : Net
net = record {
  World = ℕ;
  inet_pton = λ s. none;
  inet_ntop = λ a. [];
  create_entry = λ r w. (0, w);
  delete_entry = λ r w. (0, w);
  forward_table = λ w. (0, []);
  best_route = λ a w. (0, no_row);
  write_state = λ s w. w;
}

abbrev engine : Engine
engine = record {
  World = ℕ;
  open_engine = λ w. (0, w);
  add_provider = λ w. (0, w);
  add_sublayer = λ w. (0, w);
  add_callout = λ w. (0, w);
  begin = λ w. (0, w);
  commit = λ w. (0, w);
  abort = λ w. w;
  create_enum = λ w. (0, w);
  next_filters = λ w. (0, [], w);
  destroy_enum = λ w. w;
  delete_filter = λ id w. (0, w);
  add_filter = λ f w. (0, w);
  interface_up = λ luid w. true;
}

abbrev host : Host
host = record {
  World = ℕ;
  is_absolute = λ path. true;
  extension = λ path. text ".exe";
  WideText = Bytes;
  wide = λ s. s;
  file_name = λ s. drop 3 s;
  same_text = str_eq;
  canonical = λ path w. some path;
  is_regular_file = λ path w. true;
  app_id_blob = λ path w. none;
  driver_ready = λ w. true;
  test_mode = λ w. false;
  reconnect = λ destinations session w. ([], [], w);
  configure = λ rules w. w;
  restart_flows = λ w. w;
  running = λ w. true;
  metrics = λ w. [];
}

abbrev service : Service net engine host
service = record {
  managed = [];
  net = 0;
  wfp = record { ready = true; applied_hash = []; log = []; world = 0 };
  master_enabled = false;
  proxy_running = true;
  applied_hash = text "hash";
  app_rules = [];
  lines = [];
  host = 0;
}

abbrev desktop : Peer host
desktop = record {
  process_id = some 4711;
  path = text "C:/netpilot_desktop.exe";
  parent_path = text "C:/";
  module_directory = text "C:/";
  session = some 2;
}

authorized : authorize_client net engine host duplex desktop 0 ≡ none
unfolding authorize_client str_eq
authorized = refl

-- The service's end before it reads a request without a payload.
abbrev asked : ℕ → Bytes × Bytes
asked operation = ([], frame (frame_header operation 0) [])

abbrev status_response : Bytes
status_response = encode_status (status net engine host [] service) []

snapshot_empty :
    dispatch net engine host 1 6 [] (client_session net engine host duplex desktop) service
    ≡ some (0 ∷ 0 ∷ 0 ∷ 0 ∷ [], service)
unfolding dispatch snapshot_reply write_u32 le_bytes write_each
snapshot_empty = refl

abbrev answered :
    Answers net engine host duplex duplex_steady 1 6 desktop service service
      (0 ∷ 0 ∷ 0 ∷ 0 ∷ [])
      (asked 6)
answered =
    serve_client_answers net engine host duplex duplex_steady 1 6 desktop [] (0 ∷ 0 ∷ 0 ∷ 0 ∷ [])
      service service (asked 6) authorized (omega arith) (omega arith) refl snapshot_empty
      (omega arith)

serve_client_cases_example :
    Dispatched net engine host duplex 1 desktop service (asked 6) answered.served
    ⊎ TurnedAway net engine host duplex service answered.served
serve_client_cases_example =
    serve_client_cases net engine host duplex 1 desktop service (asked 6) answered.served
      answered.is_served

-- The client's end, where the reply to its request comes in.
abbrev awaiting : ℕ → Bytes → Bytes × Bytes
awaiting operation response = ([], frame (frame_header operation (length response)) response)

request_sent :
    (operation : ℕ) (w : Bytes × Bytes) → (send_request duplex handles operation [] w).1.1 ≡ w.1
unfolding send_frame transmit write_all header_bytes le_bytes
request_sent operation w = refl

linked :
    (operation : ℕ) (response : Bytes)
    → Answers net engine host duplex duplex_steady 1 operation desktop service service response
        (asked operation)
    → Connected net engine host duplex handles duplex_steady duplex duplex_steady 1 operation
        desktop [] service
        (awaiting operation response)
        (asked operation)
linked operation response a = record {
  waited = refl;
  opened = refl;
  nothing_sent = refl;
  nothing_answered = refl;
  there = sym (
      send_frame_sends duplex duplex_steady (frame_header operation 0) []
        (awaiting operation response) refl);
  back = λ o out.
      let same : some a.served ≡ some o = sym a.is_served ∙ out in
      let end : a.served ≡ o = cc same in
      request_sent operation (awaiting operation response)
      ∙ sym a.sent
      ∙ ap (λ (x : Served net engine host duplex). x.pipe.0) end;
}

call_served_example :
    Agreed net engine host duplex handles duplex_steady duplex duplex_steady 1 6 desktop []
      (0 ∷ 0 ∷ 0 ∷ 0 ∷ [])
      []
      service
      service
      (awaiting 6 (0 ∷ 0 ∷ 0 ∷ 0 ∷ []))
      (asked 6)
call_served_example =
    call_served net engine host duplex handles duplex_steady duplex duplex_steady 1 6 desktop []
      (0 ∷ 0 ∷ 0 ∷ 0 ∷ []) [] service service (awaiting 6 (0 ∷ 0 ∷ 0 ∷ 0 ∷ [])) (asked 6)
      (linked 6 (0 ∷ 0 ∷ 0 ∷ 0 ∷ []) answered) authorized (omega arith) (omega arith) (omega arith)
      snapshot_empty

status_short : length status_response ≤ max_frame_bytes
unfolding encode_status status le_bytes write_each write_u32 write_u64 write_string write_u8
status_short = omega arith

status_dispatched :
    dispatch net engine host 1 2 [] (client_session net engine host duplex desktop) service
    ≡ some (status_response, service)
unfolding dispatch status_reply
status_dispatched = refl

status_fits : StatusFits (status net engine host [] service)
unfolding status
status_fits = omega arith

get_status_served_example :
    (get_status duplex handles [] (awaiting 2 status_response)).0
    ≡ result (status net engine host [] service)
get_status_served_example =
    get_status_served net engine host duplex handles duplex_steady duplex duplex_steady 1 desktop []
      service (awaiting 2 status_response) (asked 2)
      (linked 2 status_response (
        serve_client_answers net engine host duplex duplex_steady 1 2 desktop [] status_response
          service service (asked 2) authorized (omega arith) (omega arith) refl status_dispatched
          (omega (arith, status_short))))
      authorized status_fits status_short
