-- ===== src/Relay/Workers.antt =====
-- The threads of the relay: the two loops that accept, the workers, and Stop. A step is one
-- section that holds `mutex_`, or a point where the outcome of Winsock calls decides the way.
-- The relation allows more than the code does: a relay may end at any time, whether or not a socket
-- is shut down, and Stop may end at once when the count is 0, whether or not it is notified. So it
-- serves for what never happens, and says nothing of whether Stop ends.
pub mod Totals
pub mod Counts
pub mod Steps
pub mod Invariant
pub mod Stop
use netpilot.Base.{
  ℕ, suc, ◌+◌, ◌^◌, ◌<◌, ◌≡◌, Bool, true, false, List, [], ◌∷◌, ◌++◌, if◌then◌else◌, length,
}
use netpilot.Base.Text.{Bytes, is_empty}
use netpilot.Protocol.Types.{AppRuleSpec}
use netpilot.Relay.Shared.{
  Shared, configure, track, untrack, set_error, begin_flow, count_bytes, end_flow, fail_flow,
  worker_starts, worker_leaves,
}

pub data Action : Type 0 where
  track_socket untrack_socket : ℕ → Action
  report : (id error : Bytes) → Action
  begin : (id : Bytes) (count : ℕ) → Action
  -- The pumps: any number of counted transfers, then the end.
  relay : (id : Bytes) → Action
  finish : (id : Bytes) → Action
  finish_failed : (id error : Bytes) → Action
  -- QueryContext and ConnectOutbound for a client; the sockets of a UDP session; its first packet.
  open_tcp : (client : ℕ) → Action
  open_udp : Action
  send_first : (socket outbound : ℕ) (id : Bytes) → Action

-- `left` is a worker that has taken itself off the count and has still to notify.
pub data Worker : Type 0 where
  working : List Action → Worker
  left : Worker

-- RelayTcp and RelayUdpSession.
abbrev pub tcp_worker : ℕ → Worker
tcp_worker client = working (track_socket client ∷ open_tcp client ∷ [])

abbrev pub udp_worker : Worker
udp_worker = working (open_udp ∷ [])

-- `if (!rule_id.empty())` the error is kept.
abbrev pub reported : Bytes → Bytes → List Action → List Action
reported id error rest = if is_empty id then rest else report id error ∷ rest

-- Where a call's outcome decides: what the worker does from there on.
pub data Outcome : Action → List Action → Type 0 where
  tcp_refused :
      (client : ℕ) (id error : Bytes)
      → Outcome (open_tcp client) (reported id error (untrack_socket client ∷ []))
  tcp_connected :
      (client outbound : ℕ) (id : Bytes)
      → Outcome (open_tcp client) (
          track_socket outbound
          ∷ begin id 0
          ∷ relay id
          ∷ untrack_socket outbound
          ∷ untrack_socket client
          ∷ finish id
          ∷ [])
  udp_no_socket : Outcome open_udp []
  udp_refused : (id error : Bytes) → Outcome open_udp (reported id error [])
  udp_connected :
      (socket outbound count : ℕ) (id : Bytes)
      → Outcome open_udp (
          track_socket socket
          ∷ track_socket outbound
          ∷ begin id count
          ∷ send_first socket outbound id
          ∷ [])
  udp_sent :
      (socket outbound : ℕ) (id : Bytes)
      → Outcome
          (send_first socket outbound id)
          (relay id ∷ untrack_socket outbound ∷ untrack_socket socket ∷ finish id ∷ [])
  udp_not_sent :
      (socket outbound : ℕ) (id error : Bytes)
      → Outcome
          (send_first socket outbound id)
          (untrack_socket outbound ∷ untrack_socket socket ∷ finish_failed id error ∷ [])

-- What a section does; the end of the pumps and the calls that decide change nothing.
unfoldable pub perform : Action → Shared → Shared
perform (track_socket socket) s = track socket s
perform (untrack_socket socket) s = untrack socket s
perform (report id error) s = set_error id error s
perform (begin id count) s = begin_flow id count s
perform (finish id) s = end_flow id s
perform (finish_failed id error) s = fail_flow id error s
perform (relay id) s = s
perform (open_tcp client) s = s
perform open_udp s = s
perform (send_first socket outbound id) s = s

abbrev pub decides : Action → Bool
decides (open_tcp client) = true
decides open_udp = true
decides (send_first socket outbound id) = true
decides _ = false

-- `accepting` and `receiving`: the loops of TcpAcceptLoop and UdpReceiveLoop have not returned.
-- `stopped`: Stop has waited for the workers.
pub record System : Type 0 where
  pub shared : Shared
  pub running : Bool
  pub accepting : Bool
  pub receiving : Bool
  pub stopped : Bool
  pub workers : List Worker

-- Windows has room for fewer threads than this.
abbrev pub max_threads : ℕ
max_threads = 2 ^ 32

pub data Step (s t : System) : Type 0 where
  configures :
      (rules : List AppRuleSpec) → t ≡ record s { shared = configure rules s.shared } → Step s t
  accepts :
      (client : ℕ)
      → s.accepting ≡ true
      → suc (length s.workers) < max_threads
      → t ≡ record s { shared = worker_starts s.shared; workers = tcp_worker client ∷ s.workers }
      → Step s t
  receives :
      s.receiving ≡ true
      → suc (length s.workers) < max_threads
      → t ≡ record s { shared = worker_starts s.shared; workers = udp_worker ∷ s.workers }
      → Step s t
  accept_loop_ends : s.running ≡ false → t ≡ record s { accepting = false } → Step s t
  -- Also when WSARecvMsg cannot be loaded.
  receive_loop_ends : t ≡ record s { receiving = false } → Step s t
  performs :
      (before after : List Worker) (a : Action) (rest : List Action)
      → decides a ≡ false
      → s.workers ≡ before ++ working (a ∷ rest) ∷ after
      → t ≡ record s { shared = perform a s.shared; workers = before ++ working rest ∷ after }
      → Step s t
  chooses :
      (before after : List Worker) (a : Action) (way rest : List Action)
      → Outcome a way
      → s.workers ≡ before ++ working (a ∷ rest) ∷ after
      → t ≡ record s { workers = before ++ working (way ++ rest) ∷ after }
      → Step s t
  transfers :
      (before after : List Worker) (id : Bytes) (rest : List Action) (inbound : Bool) (count : ℕ)
      → s.workers ≡ before ++ working (relay id ∷ rest) ∷ after
      → t ≡ record s { shared = count_bytes inbound id count s.shared }
      → Step s t
  leaves :
      (before after : List Worker)
      → s.workers ≡ before ++ working [] ∷ after
      → t ≡ record s { shared = worker_leaves s.shared; workers = before ++ left ∷ after }
      → Step s t
  -- `notify_all`, and the end of the thread.
  notifies :
      (before after : List Worker)
      → s.workers ≡ before ++ left ∷ after
      → t ≡ record s { workers = before ++ after }
      → Step s t
  stop_begins : s.running ≡ true → t ≡ record s { running = false } → Step s t
  -- Both loops are joined, and the count of workers is 0.
  stop_ends :
      s.running ≡ false
      → s.accepting ≡ false
      → s.receiving ≡ false
      → s.shared.active_workers ≡ 0
      → t ≡ record s { stopped = true }
      → Step s t

-- After Start, with no rule configured.
abbrev pub started : System
started = record {
  shared = record { rules = []; metrics = []; active_sockets = []; active_workers = 0 };
  running = true;
  accepting = true;
  receiving = true;
  stopped = false;
  workers = [];
}

pub data Reach : System → Type 0 where
  here : Reach started
  next : {s t : System} → Reach s → Step s t → Reach t
