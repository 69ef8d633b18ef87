-- ===== src/Relay/Workers/Invariant.antt =====
-- The counts that the engine keeps, in every state that the threads can reach.
use netpilot.Base.{◌-◌, ◌≡◌, refl, sym, subst, [], ◌∷◌, arith}
use netpilot.Base.Text.{Bytes}
use netpilot.Relay.Rules.{metric_of, flows-metrics_from}
use netpilot.Relay.Shared.{configure}
use netpilot.Relay.Workers.{
  working, left, System, Step, configures, accepts, receives, accept_loop_ends, receive_loop_ends,
  performs, chooses, transfers, leaves, notifies, stop_begins, stop_ends, Reach, here, next,
  tcp_worker, udp_worker,
}
use netpilot.Relay.Workers.Totals.{total, script_begins, script_ends, is_working}
use netpilot.Relay.Workers.Counts.{flows}
use netpilot.Relay.Workers.Steps.{
  Inv, Inv-Around, performs-Inv, chooses-Inv, transfers-flows, transfers-active_workers, spawns-Inv,
  leaves-Inv, notifies-Inv,
}

Step-Inv : (id : Bytes) {s t : System} → Step s t → Inv id s → Inv id t
unfolding configure
Step-Inv id {s} (configures rules e) inv = subst (Inv id) (sym e) (record {
  counted = inv.counted;
  balanced = omega (arith, inv.balanced, flows-metrics_from rules id s.shared.metrics);
  paired = inv.paired;
  few = inv.few;
})
Step-Inv id {s} (accepts client on room e) inv = subst (Inv id) (sym e) (
    spawns-Inv id s (tcp_worker client) room refl refl refl
      (omega arith, omega arith, tt, (omega arith, omega arith, refl, tt)) inv)
Step-Inv id {s} (receives on room e) inv =
    subst (Inv id) (sym e)
      (spawns-Inv id s udp_worker room refl refl refl (omega arith, omega arith, refl, tt) inv)
Step-Inv id {s} (accept_loop_ends off e) inv =
    subst (Inv id) (sym e) (record {
      counted = inv.counted;
      balanced = inv.balanced;
      paired = inv.paired;
      few = inv.few;
    })
Step-Inv id {s} (receive_loop_ends e) inv =
    subst (Inv id) (sym e) (record {
      counted = inv.counted;
      balanced = inv.balanced;
      paired = inv.paired;
      few = inv.few;
    })
Step-Inv id {s} (performs before after a rest d h e) inv = subst (Inv id) (sym e) (
    performs-Inv id s before after a rest d
      (Inv-Around id s before after (working (a ∷ rest)) inv h))
Step-Inv id {s} (chooses before after a way rest o h e) inv = subst (Inv id) (sym e) (
    chooses-Inv id s before after a way rest o
      (Inv-Around id s before after (working (a ∷ rest)) inv h))
Step-Inv id {s} (transfers before after other rest inbound count h e) inv =
    subst (Inv id) (sym e) (record {
      counted = omega (arith, inv.counted, transfers-active_workers other inbound count s.shared);
      balanced = omega (arith, inv.balanced, transfers-flows id other inbound count s.shared);
      paired = inv.paired;
      few = inv.few;
    })
Step-Inv id {s} (leaves before after h e) inv =
    subst (Inv id) (sym e)
      (leaves-Inv id s before after (Inv-Around id s before after (working []) inv h))
Step-Inv id {s} (notifies before after h e) inv =
    subst (Inv id) (sym e)
      (notifies-Inv id s before after (Inv-Around id s before after left inv h))
Step-Inv id {s} (stop_begins on e) inv =
    subst (Inv id) (sym e) (record {
      counted = inv.counted;
      balanced = inv.balanced;
      paired = inv.paired;
      few = inv.few;
    })
Step-Inv id {s} (stop_ends off a r none_left e) inv =
    subst (Inv id) (sym e) (record {
      counted = inv.counted;
      balanced = inv.balanced;
      paired = inv.paired;
      few = inv.few;
    })

Reach-Inv : (id : Bytes) {s : System} → Reach s → Inv id s
unfolding metric_of
Reach-Inv id here = record { counted = refl; balanced = refl; paired = tt; few = omega arith }
Reach-Inv id (next r st) = Step-Inv id st (Reach-Inv id r)

-- In every state that the threads can reach, `active_workers_` is the number of workers that have
-- not taken themselves off.
pub active_workers_exact :
    {s : System} → Reach s → s.shared.active_workers ≡ total is_working s.workers
active_workers_exact r = (Reach-Inv [] r).counted

-- In every state that the threads can reach, whatever their order, the `active_flows` of a rule
-- are exactly the flows of the rule that its workers have begun and not ended: those that they
-- have still to end, less those that they have still to begin.
pub active_flows_exact :
    (id : Bytes) {s : System}
    → Reach s
    → flows id s.shared ≡ total (script_ends id) s.workers - total (script_begins id) s.workers
active_flows_exact id r = omega (arith, (Reach-Inv id r).balanced)
