-- ===== src/Relay/Tests.antt =====
-- A small Winsock: sockets are numbered by their count, every call works, and one adapter has an
-- address. The threads take one connection, relay it, and stop.
use netpilot.Base.{
  ℕ, suc, ◌-◌, All, ◌≡◌, ◌≢◌, refl, ap, ◌⊎◌, true, false, Option, none, some, List, [], ◌∷◌, ◌==◌,
  if◌then◌else◌, arith, drop, length,
}
use netpilot.Base.Text.{Bytes, text}
use netpilot.Driver.Classify.{RedirectContext, redirect_context_version}
use netpilot.Relay.Winsock.{ipv4, other, Adapter, Winsock, Sockets}
use netpilot.Relay.Adapters.{find_source, query_adapters, address_in, first_ipv4}
use netpilot.Relay.Rules.{Rules, find_rule}
use netpilot.Std.Number.{stoull}
use netpilot.Relay.Connect.{
  Request, connect_outbound, open_outbound, bind_adapter, pin_interface, hand_records,
  connect_remote,
}
use netpilot.Relay.Connect.Leaks.{with_socket, connect_outbound_settles}
use netpilot.Relay.Connect.Binding.{Bound, connect_outbound-Bound}
use netpilot.Relay.Shared.{Shared, track, begin_flow, worker_starts, worker_leaves}
use netpilot.Relay.Workers.{
  Action, track_socket, untrack_socket, begin, finish, relay, tcp_worker, udp_worker, udp_no_socket,
  receives, leaves, perform, working, left, tcp_connected, open_tcp, open_udp, System, accepts,
  performs, chooses, stop_begins, accept_loop_ends, receive_loop_ends, stop_ends, started, Reach,
  here, next,
}
use netpilot.Relay.Workers.Totals.{total, script_begins, script_ends}
use netpilot.Relay.Workers.Invariant.{active_flows_exact}
use netpilot.Relay.Workers.Counts.{flows}
use netpilot.Relay.Workers.Stop.{stop_waits, IsLeft}
use netpilot.Relay.Engine.{Engine, start}
use netpilot.Relay.Engine.Start.{Tried, Listening, HalfOpen, start_cases}

record Lab : Type 0 where
  sockets : List ℕ
  sources : ℕ → Option ℕ
  interfaces : ℕ → Option ℕ
  peers : ℕ → Option (ℕ × ℕ)

abbrev set_at : {A : Type 0} → ℕ → A → (ℕ → Option A) → ℕ → Option A
set_at s a f x = if x == s then some a else f x

abbrev idle : Lab
idle = record { sockets = []; sources = λ s. none; interfaces = λ s. none; peers = λ s. none }

abbrev adapter : Adapter
adapter = record { luid = 123456; addresses = other ∷ ipv4 167772161 ∷ [] }

abbrev context : RedirectContext
context = record {
  version = redirect_context_version;
  protocol = 6;
  rule_context = 99;
  remote_ipv4 = 3405803786;
  remote_port = 443;
}

abbrev winsock_lab : Winsock
winsock_lab = record {
  World = Lab;
  last_error = λ w. 10048;
  startup = λ w. (true, w);
  cleanup = λ w. w;
  socket = λ type protocol w.
      (some (suc (length w.sockets)), record w { sockets = suc (length w.sockets) ∷ w.sockets });
  set_reuse_address = λ s w. w;
  bind = λ s a port w. (true, record w { sources = set_at s a w.sources });
  listen = λ s w. (true, w);
  connect = λ s a port w. (true, record w { peers = set_at s (a, port) w.peers });
  close = λ s w. record w { sockets = drop 1 w.sockets };
  shut_down = λ s w. w;
  set_unicast_if = λ s i w. (true, record w { interfaces = set_at s i w.interfaces });
  set_records = λ s b w. (true, w);
  query_context = λ s w. (true, context, 24, w);
  query_records = λ s size w. (true, text "records", 7, w);
  luid_to_index = λ luid w. some 7;
  get_adapters = λ size w. (0, size, adapter ∷ [], w);
}

set_at_here : {A : Type 0} → (s : ℕ) (a : A) (f : ℕ → Option A) → set_at s a f s ≡ some a
set_at_here s a f = ground arith

some-none : {x : ℕ} → some x ≡ none → ⊥
some-none h = absurd (cc h)

abbrev sockets_lab : Sockets winsock_lab
sockets_lab = record {
  opened = λ (w : Lab). w.sockets;
  source = λ (w : Lab). w.sources;
  interface = λ (w : Lab). w.interfaces;
  peer = λ (w : Lab). w.peers;
  socket_opens =
      λ type protocol s w h. ap (λ (o : Option ℕ). elim o [ none ↦ [] | some x ↦ x ∷ w.sockets ]) h;
  socket_fails = λ type protocol w h. absurd (some-none h);
  close_last = λ s rest w h. ap (λ (l : List ℕ). drop 1 l) h;
  startup_keeps = λ w. refl;
  reuse_keeps = λ s w. refl;
  bind_keeps = λ s a port w. refl;
  listen_keeps = λ s w. refl;
  connect_keeps = λ s a port w. refl;
  unicast_keeps = λ s i w. refl;
  records_keep = λ s b w. refl;
  adapters_keep = λ size w. refl;
  bind_source = λ s a port w h. set_at_here s a w.sources;
  unicast_interface = λ s i w h. set_at_here s i w.interfaces;
  unicast_source = λ s i w. refl;
  records_source = λ s b w. refl;
  records_interface = λ s b w. refl;
  connect_source = λ s a port w. refl;
  connect_interface = λ s a port w. refl;
  connect_peer = λ s a port w h. set_at_here s (a, port) w.peers;
}

abbrev rules : Rules
rules = (99, record { id = text "browser"; interface_luid = text "123456" }) ∷ []

abbrev request : Request winsock_lab
request = record {
  protocol = 6;
  remote_ipv4 = 3405803786;
  remote_port = 443;
  redirect_records = text "records";
}

connect_outbound_settles_example :
    sockets_lab.opened (connect_outbound winsock_lab rules 99 request idle).world
    ≡ with_socket (connect_outbound winsock_lab rules 99 request idle).socket []
connect_outbound_settles_example =
    connect_outbound_settles winsock_lab sockets_lab rules 99 request idle

connects : (connect_outbound winsock_lab rules 99 request idle).socket ≡ some 1
unfolding connect_outbound find_rule open_outbound bind_adapter find_source query_adapters
    address_in first_ipv4 pin_interface hand_records connect_remote stoull
connects = refl

connect_outbound-Bound_example :
    Bound winsock_lab sockets_lab rules 99 request idle 1
      (connect_outbound winsock_lab rules 99 request idle)
connect_outbound-Bound_example =
    connect_outbound-Bound winsock_lab sockets_lab rules 99 request idle 1 connects

-- A connection has been accepted, connected and counted as a flow; its pumps run.
abbrev shared_empty : Shared
shared_empty = record { rules = []; metrics = []; active_sockets = []; active_workers = 0 }

abbrev with_client : System
with_client = record started { shared = worker_starts started.shared; workers = tcp_worker 4 ∷ [] }

abbrev tracked : System
tracked = record with_client {
  shared = track 4 with_client.shared;
  workers = working (open_tcp 4 ∷ []) ∷ [];
}

abbrev relay_script : Bytes → List Action
relay_script id = begin id 0 ∷ relay id ∷ untrack_socket 5 ∷ untrack_socket 4 ∷ finish id ∷ []

abbrev connected : System
connected = record tracked {
  workers = working (track_socket 5 ∷ relay_script (text "browser")) ∷ [];
}

abbrev both_tracked : System
both_tracked = record connected {
  shared = track 5 connected.shared;
  workers = working (relay_script (text "browser")) ∷ [];
}

abbrev relaying : System
relaying = record both_tracked {
  shared = begin_flow (text "browser") 0 both_tracked.shared;
  workers =
      working (
        relay (text "browser") ∷ untrack_socket 5 ∷ untrack_socket 4 ∷ finish (text "browser") ∷ [])
      ∷ [];
}

Reach-relaying : Reach relaying
unfolding perform
Reach-relaying =
    let accepted : Reach with_client = next here (accepts 4 refl (omega arith) refl) in
    let first : Reach tracked =
      next accepted (performs [] [] (track_socket 4) (open_tcp 4 ∷ []) refl refl refl) in
    let opened : Reach connected =
      next first (chooses [] [] (open_tcp 4) _ [] (tcp_connected 4 5 (text "browser")) refl refl) in
    let second : Reach both_tracked =
      next opened
        (performs [] [] (track_socket 5) (relay_script (text "browser")) refl refl refl) in
    next second (performs [] [] (begin (text "browser") 0) _ refl refl refl)

active_flows_exact_example :
    flows (text "browser") relaying.shared
    ≡ total (script_ends (text "browser")) relaying.workers
      - total (script_begins (text "browser")) relaying.workers
active_flows_exact_example = active_flows_exact (text "browser") Reach-relaying

-- A UDP session has failed and left while Stop waits; it has still to notify.
abbrev with_session : System
with_session = record started { shared = worker_starts started.shared; workers = udp_worker ∷ [] }

abbrev failed_session : System
failed_session = record with_session { workers = working [] ∷ [] }

abbrev left_session : System
left_session = record failed_session {
  shared = worker_leaves failed_session.shared;
  workers = left ∷ [];
}

abbrev joined : System
joined = record left_session { running = false; accepting = false; receiving = false }

abbrev stopped_engine : System
stopped_engine = record joined { stopped = true }

Reach-stopped_engine : Reach stopped_engine
unfolding worker_starts worker_leaves
Reach-stopped_engine =
    let received : Reach with_session = next here (receives refl (omega arith) refl) in
    let failed : Reach failed_session =
      next received (chooses [] [] open_udp [] [] udp_no_socket refl refl) in
    let gone : Reach left_session = next failed (leaves [] [] refl refl) in
    let begun : Reach (record left_session { running = false }) =
      next gone (stop_begins refl refl) in
    let accepted : Reach (record left_session { running = false; accepting = false }) =
      next begun (accept_loop_ends refl refl) in
    let all_joined : Reach joined = next accepted (receive_loop_ends refl) in
    next all_joined (stop_ends refl refl refl refl refl)

stop_waits_example :
    (stopped_engine.accepting ≡ false)
    × (stopped_engine.receiving ≡ false)
    × All IsLeft stopped_engine.workers
stop_waits_example = stop_waits Reach-stopped_engine refl

abbrev stopped_relay : Engine winsock_lab
stopped_relay = record {
  running = false;
  tcp_listener = none;
  udp_listener = none;
  shared = shared_empty;
  log = [];
  world = idle;
}

start_cases_example :
    (((start winsock_lab stopped_relay).0 ≡ none)
      × Listening winsock_lab sockets_lab (start winsock_lab stopped_relay).1 [])
    ⊎ (((start winsock_lab stopped_relay).0 ≢ none)
        × (HalfOpen winsock_lab sockets_lab (start winsock_lab stopped_relay).1 []
            × Tried winsock_lab sockets_lab stopped_relay.world
                (start winsock_lab stopped_relay).1))
start_cases_example = start_cases winsock_lab sockets_lab stopped_relay refl refl refl
