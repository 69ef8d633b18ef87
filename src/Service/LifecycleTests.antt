-- ===== src/Service/LifecycleTests.antt =====
-- A service with one filter in force that is stopped, and one to which a stranger connects.
use netpilot.Base.{
  ℕ, suc, ◌≡◌, ◌≢◌, refl, Bool, true, false, not, ◌&&◌, none, some, List, [], ◌∷◌, ◌++◌, ◌==◌,
  if◌then◌else◌,
}
use netpilot.Base.Text.{Bytes, text, str_eq}
use netpilot.Routes.Net.{Net}
use netpilot.Wfp.Engine.{Engine, Filter, block_flow}
use netpilot.Wfp.Policy.{Policy}
use netpilot.Wfp.Policy.Emptied.{Entry, Within}
use netpilot.Client.Pipe.{Pipe}
use netpilot.Service.Host.{Host}
use netpilot.Service.State.{Service}
use netpilot.Service.Serve.{Peer, authorize_client}
use netpilot.Service.Lifecycle.{Daemon, Server, Turn, Runtime, stopped, run}
use netpilot.Service.Lifecycle.Ended.{run_denies}

abbrev net_lab : Net
net_lab = record {
  World = ℕ;
  inet_pton = λ s. none;
  inet_ntop = λ a. [];
  create_entry = λ r w. (0, w);
  delete_entry = λ r w. (0, w);
  forward_table = λ w. (0, []);
  best_route =
      λ a w. (1, record { luid = 0; address = 0; prefix_length = 0; next_hop = 0; metric = 0 });
  write_state = λ s w. suc w;
}

abbrev only : Filter
only = record { app_id = 7 ∷ []; raw_context = 7; action = block_flow }

-- Whether filter 1 is in force, and whether it is still to be given.
abbrev engine_lab : Engine
engine_lab = record {
  World = Bool × Bool;
  open_engine = λ w. (0, w);
  add_provider = λ w. (0, w);
  add_sublayer = λ w. (0, w);
  add_callout = λ w. (0, w);
  begin = λ w. (0, w);
  commit = λ w. (0, w);
  abort = λ w. w;
  create_enum = λ w. (0, (w.0, w.0));
  next_filters = λ w. (0, if w.1 then 1 ∷ [] else [], (w.0, false));
  destroy_enum = λ w. w;
  delete_filter = λ id w. (0, (w.0 && not (1 == id), w.1));
  add_filter = λ f w. (5, w);
  interface_up = λ luid w. true;
}

abbrev in_force : Bool × Bool → List Entry
in_force w = if w.0 then (1, only) ∷ [] else []

listed : (b : Bool) → Within (if b then 1 ∷ [] else []) (in_force (b, b))
listed true = (refl, tt)
listed false = tt

abbrev host_lab : Host
host_lab = record {
  World = ℕ;
  is_absolute = λ path. true;
  extension = λ path. path;
  WideText = Bytes;
  wide = λ s. s;
  file_name = λ s. s;
  same_text = str_eq;
  canonical = λ path w. some path;
  is_regular_file = λ path w. true;
  app_id_blob = λ path w. none;
  driver_ready = λ w. true;
  test_mode = λ w. false;
  reconnect = λ destinations session w. ([], [], w);
  configure = λ rules w. w;
  restart_flows = λ w. w;
  running = λ w. true;
  metrics = λ w. [];
}

abbrev daemon : Daemon host_lab
daemon = record {
  open_device = λ w. (true, w);
  set_proxy_pid = λ w. (none, w);
  close_device = λ w. w;
  relay_start = λ w. (none, w);
  relay_stop = λ w. suc w;
  notify = λ w. (some 1, w);
  cancel_notify = λ handle w. suc w;
  wake = λ w. suc w;
}

abbrev service : Service net_lab engine_lab host_lab
service = record {
  managed = [];
  net = 0;
  wfp = record { ready = true; applied_hash = text "hash"; log = []; world = (true, false) };
  master_enabled = true;
  proxy_running = true;
  applied_hash = text "hash";
  app_rules = [];
  lines = [];
  host = 0;
}

abbrev running_service : Runtime net_lab engine_lab host_lab daemon
running_service = record { service = service; notification = some 1; stopping = false }

abbrev cleared : Policy engine_lab
cleared = record { ready = true; applied_hash = []; log = []; world = (false, false) }

abbrev stopped_service : Runtime net_lab engine_lab host_lab daemon
stopped_service = stopped net_lab engine_lab host_lab daemon cleared [] 1 running_service

-- Bytes that wait in the pipe.
abbrev pipe : Pipe
pipe = record {
  World = ℕ;
  write_file = λ bytes w. (none, w);
  read_file = λ size w. (some (1 ∷ []), w);
}

abbrev server : Server pipe
server = record {
  create = λ w. (true, suc w);
  connect = λ w. (true, w);
  flush = λ w. w;
  disconnect = λ w. w;
  close = λ w. w;
}

abbrev stranger : Peer host_lab
stranger = record {
  process_id = some 4;
  path = text "other.exe";
  parent_path = [];
  module_directory = [];
  session = none;
}

abbrev visit : Turn host_lab
visit = record { stopping = false; peer = stranger; stopping_now = false; signalled = false }

turned_down : authorize_client net_lab engine_lab host_lab pipe stranger 0 ≢ none
unfolding authorize_client str_eq
turned_down = λ allowed. cc allowed

run_denies_example :
    (lines : List Bytes) × (w' : ℕ) × ((later : List (Turn host_lab))
      → run net_lab engine_lab host_lab pipe server 0 ((visit ∷ visit ∷ []) ++ later) service 0
        ≡ run net_lab engine_lab host_lab pipe server 0 later (record service { lines = lines }) w')
run_denies_example =
    run_denies net_lab engine_lab host_lab pipe server 0 (visit ∷ visit ∷ []) service 0 (λ w. refl)
      ((refl, (refl, turned_down)), ((refl, (refl, turned_down)), tt))
