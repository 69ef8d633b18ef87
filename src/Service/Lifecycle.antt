-- ===== src/Service/Lifecycle.antt =====
-- Initialize, Run, Stop and OnInterfaceChanged of ServiceRuntime. A run of the service is a list of the
-- turns of its loop, with what other threads do meanwhile.
pub mod Ended
use netpilot.Base.{
  ℕ, Bool, true, false, not, ◌&&◌, Option, none, some, List, [], ◌∷◌, ◌++◌, if◌then◌else◌,
}
use netpilot.Base.Text.{Bytes, text}
use netpilot.Std.Number.{to_string}
use netpilot.Protocol.Types.{RouteSpec}
use netpilot.Routes.Net.{Net}
use netpilot.Routes.Inventory.{cleanup}
use netpilot.Wfp.Engine.{Engine}
use netpilot.Wfp.Policy.{Answer, done, failed, Policy, initialize, clear}
use netpilot.Client.Pipe.{Pipe}
use netpilot.Service.Host.{Host}
use netpilot.Service.State.{Service}
use netpilot.Service.Requests.{log_to, take_policy, reapply}
use netpilot.Service.Serve.{Peer, Served, serve_client}

-- The driver's device, RelayEngine::Start and Stop, the notifications of the interfaces, and the
-- connection to the own pipe that wakes Run. DeviceIoControl answers an error code or none.
pub record Daemon (h : Host) : Type 0 where
  pub open_device : h.World → Bool × h.World
  pub set_proxy_pid : h.World → Option ℕ × h.World
  pub close_device : h.World → h.World
  pub relay_start : h.World → Option Bytes × h.World
  pub relay_stop : h.World → h.World
  pub notify : h.World → Option ℕ × h.World
  pub cancel_notify : ℕ → h.World → h.World
  pub wake : h.World → h.World

-- The calls of Run on the pipe: CreateNamedPipe, ConnectNamedPipe, and the end of a connection.
pub record Server (p : Pipe) : Type 0 where
  pub create : p.World → Bool × p.World
  pub connect : p.World → Bool × p.World
  pub flush : p.World → p.World
  pub disconnect : p.World → p.World
  pub close : p.World → p.World

-- What a turn of the loop reads of `stopping_`, at its start and after the connection, who connects, and
-- whether the stop event is set at its end.
pub record Turn (h : Host) : Type 0 where
  pub stopping : Bool
  pub peer : Peer h
  pub stopping_now : Bool
  pub signalled : Bool

module _ (n : Net) (e : Engine) (h : Host) (d : Daemon h) where
  pub record Runtime : Type 0 where
    pub service : Service n e h
    pub notification : Option ℕ
    pub stopping : Bool

  -- ConfigureDriverProxyProcess: `none` is true.
  unfoldable pub configure_driver : h.World → Option Bytes × h.World
  unfolding to_string
  configure_driver w =
      let (opened, w1) = d.open_device w in
      let (code, w2) = d.set_proxy_pid w1 in
      if not opened
      then (some (text "WFP Driver is not installed or not running"), w1)
      else elim code [
        | none ↦ (none, d.close_device w2)
        | some c ↦ (
          some (
              text "could not register NetPilot Service with WFP Driver ("
              ++ (to_string c ++ text ")")),
          d.close_device w2,
        )
      ]

  unfoldable pub start_relay : Runtime → Option Bytes × Runtime
  unfolding log_to
  start_relay r =
      let (error, w) = d.relay_start r.service.host in
      let (handle, w') = d.notify w in
      elim error [
        | some message ↦ (some message, record r { service = record r.service { host = w } })
        | none ↦ (
          none,
          record r {
            service =
                log_to n e h (text "Windows Service started; WFP engine ready" ∷ [])
                  (record r.service { host = w' });
            notification = handle;
          },
        )
      ]

  unfoldable pub start_policy : Runtime → Option Bytes × Runtime
  unfolding start_relay take_policy
  start_policy r = elim (initialize e r.service.wfp) [
    | failed error p ↦ (some error, record r { service = take_policy n e h p r.service })
    | done p ↦ start_relay (record r { service = take_policy n e h p r.service })
  ]

  -- ServiceRuntime::Initialize: the error, or `none` for true. An exception of the route manager is `none`
  -- in place of both.
  unfoldable pub start_runtime : Runtime → Option (Option Bytes × Runtime)
  unfolding configure_driver start_policy
  start_runtime r = elim (cleanup n r.service.managed r.service.net) [
    | none ↦ none
    | some (managed, net) ↦
        let (error, w) = configure_driver r.service.host in
        let r' = record r {
          service = record r.service { managed = managed; net = net; host = w };
        } in
        elim error [ some message ↦ some (some message, r') | none ↦ some (start_policy r') ]
  ]

  cancel : Option ℕ → h.World → h.World
  cancel none w = w
  cancel (some handle) w = d.cancel_notify handle w

  -- After Clear and Cleanup, by what they leave.
  unfoldable pub stopped : Policy e → List RouteSpec → n.World → Runtime → Runtime
  unfolding cancel log_to
  stopped p managed net r = record {
    service =
        log_to n e h (text "Windows Service stopped; filters and routes removed" ∷ [])
          (record r.service {
            wfp = p;
            managed = managed;
            net = net;
            host = d.wake (d.relay_stop (cancel r.notification r.service.host));
          });
    notification = none;
    stopping = true;
  }

  -- ServiceRuntime::Stop. The parts do not depend on each other, so that their order does not matter.
  unfoldable pub stop_runtime : ℕ → Runtime → Option Runtime
  unfolding stopped
  stop_runtime fuel r = if r.stopping then some r else elim (clear e fuel r.service.wfp) [
    | none ↦ none
    | some p ↦ elim (cleanup n r.service.managed r.service.net) [
      | none ↦ none
      | some (managed, net) ↦ some (stopped p managed net r)
    ]
  ]

  unfoldable pub on_interface_changed : ℕ → Runtime → Option Runtime
  on_interface_changed fuel r = if r.stopping then some r else elim (reapply n e h fuel r.service) [
    | none ↦ none
    | some s ↦ some (record r { service = s })
  ]

module _ (n : Net) (e : Engine) (h : Host) (p : Pipe) (v : Server p) where
  -- The end of a turn.
  unfoldable pub hang_up : p.World → p.World
  hang_up w = v.close (v.disconnect (v.flush w))

  -- A turn from ConnectNamedPipe on.
  unfoldable pub serve_turn :
      ℕ → Turn h → Service n e h → p.World → Option (Service n e h × p.World)
  unfolding hang_up
  serve_turn fuel turn s w =
      let (connected, w1) = v.connect w in
      if connected && not turn.stopping_now
      then elim (serve_client n e h p fuel turn.peer s w1) [
        | none ↦ none
        | some served ↦ some (served.service, hang_up served.pipe)
      ]
      else some (s, hang_up w1)

  -- ServiceRuntime::Run, for so many turns at most.
  unfoldable pub run :
      ℕ → List (Turn h) → Service n e h → p.World → Option (Service n e h × p.World)
  unfolding serve_turn
  run fuel [] s w = some (s, w)
  run fuel (turn ∷ turns) s w =
      let (created, w1) = v.create w in
      if turn.stopping
      then some (s, w)
      else if not created
      then some (s, w1)
      else elim (serve_turn fuel turn s w1) [
        | none ↦ none
        | some (s', w2) ↦ if turn.signalled then some (s', w2) else run fuel turns s' w2
      ]
