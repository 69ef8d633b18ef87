-- ===== src/Relay/Workers/Counts.antt =====
-- What an action does to the counts that the engine keeps.
use netpilot.Base.{ℕ, ◌+◌, ◌%◌, ◌^◌, ◌≤◌, ◌<◌, ◌≡◌, refl, false, arith}
use netpilot.Base.Text.{Bytes, str_eq_iff}
use netpilot.Protocol.Types.{RuleMetric}
use netpilot.Relay.Rules.{metric_of, metric_of-update_metric}
use netpilot.Relay.Shared.{
  Shared, track, untrack, set_error, begin_flow, end_flow, fail_flow, one_less,
}
use netpilot.Relay.Workers.{
  Action, track_socket, untrack_socket, report, begin, relay, finish, finish_failed, open_tcp,
  open_udp, send_first, perform, decides,
}
use netpilot.Relay.Workers.Totals.{begins, ends}

abbrev pub flows : Bytes → Shared → ℕ
flows id s = (metric_of id s.metrics).active_flows

-- One action, where the count has room and a flow that ends was begun.
pub perform-flows :
    (id : Bytes) (a : Action) (s : Shared)
    → decides a ≡ false
    → flows id s + begins id a < 2 ^ 32
    → ends id a ≤ flows id s
    → flows id (perform a s) + ends id a ≡ flows id s + begins id a
unfolding perform track untrack set_error begin_flow end_flow fail_flow
perform-flows id (track_socket socket) s d room some_flow = omega arith
perform-flows id (untrack_socket socket) s d room some_flow = omega arith
perform-flows id (report other error) s d room some_flow = ground (
  arith,
  str_eq_iff other id,
  metric_of-update_metric other id (λ (m : RuleMetric). record m { last_error = error }) s.metrics,
)
perform-flows id (begin other count) s d room some_flow = ground (
  arith,
  str_eq_iff other id,
  metric_of-update_metric other id
      (λ (m : RuleMetric). record m {
        active_flows = (m.active_flows + 1) % 2 ^ 32;
        bytes_out = (m.bytes_out + count) % 2 ^ 64;
      })
      s.metrics,
)
perform-flows id (relay other) s d room some_flow = omega arith
perform-flows id (finish other) s d room some_flow =
    ground (arith, str_eq_iff other id, metric_of-update_metric other id one_less s.metrics)
perform-flows id (finish_failed other error) s d room some_flow = ground (
  arith,
  str_eq_iff other id,
  metric_of-update_metric other id (λ (m : RuleMetric). one_less (record m { last_error = error }))
      s.metrics,
)
perform-flows id (open_tcp client) s d room some_flow = absurd (cc d)
perform-flows id open_udp s d room some_flow = absurd (cc d)
perform-flows id (send_first socket outbound other) s d room some_flow = absurd (cc d)

pub perform-active_workers :
    (a : Action) (s : Shared) → (perform a s).active_workers ≡ s.active_workers
unfolding perform track untrack set_error begin_flow end_flow fail_flow
perform-active_workers (track_socket socket) s = refl
perform-active_workers (untrack_socket socket) s = refl
perform-active_workers (report other error) s = refl
perform-active_workers (begin other count) s = refl
perform-active_workers (relay other) s = refl
perform-active_workers (finish other) s = refl
perform-active_workers (finish_failed other error) s = refl
perform-active_workers (open_tcp client) s = refl
perform-active_workers open_udp s = refl
perform-active_workers (send_first socket outbound other) s = refl
