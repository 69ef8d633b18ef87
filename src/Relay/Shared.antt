-- ===== src/Relay/Shared.antt =====
-- The sections that hold `mutex_`: Configure, Track, Untrack, Metrics, the changes of a metric and of
-- the count of workers.
use netpilot.Base.{ℕ, ◌+◌, ◌-◌, ◌%◌, ◌^◌, Bool, List, [], ◌∷◌, ◌++◌, map, ◌==◌, if◌then◌else◌}
use netpilot.Base.Text.{Bytes}
use netpilot.Protocol.Types.{AppRuleSpec, RuleMetric}
use netpilot.Relay.Rules.{Rules, rules_from, Metrics, metrics_from, update_metric}

pub record Shared : Type 0 where
  pub rules : Rules
  pub metrics : Metrics
  pub active_sockets : List ℕ
  pub active_workers : ℕ

unfoldable pub configure : List AppRuleSpec → Shared → Shared
configure rules s = record s { rules = rules_from rules []; metrics = metrics_from rules s.metrics }

-- std::remove and erase.
unfoldable pub without : ℕ → List ℕ → List ℕ
without socket [] = []
without socket (x ∷ rest) =
    let rest' = without socket rest in if x == socket then rest' else x ∷ rest'

unfoldable pub track : ℕ → Shared → Shared
track socket s = record s { active_sockets = s.active_sockets ++ socket ∷ [] }

unfoldable pub untrack : ℕ → Shared → Shared
untrack socket s = record s { active_sockets = without socket s.active_sockets }

unfoldable pub set_error : Bytes → Bytes → Shared → Shared
set_error id error s = record s {
  metrics =
      update_metric id (λ (metric : RuleMetric). record metric { last_error = error }) s.metrics;
}

-- `++active_flows`, and `bytes_out +=` the first packet of a UDP flow, which is 0 for TCP.
unfoldable pub begin_flow : Bytes → ℕ → Shared → Shared
begin_flow id count s = record s {
  metrics =
      update_metric id
        (λ (metric : RuleMetric). record metric {
          active_flows = (metric.active_flows + 1) % 2 ^ 32;
          bytes_out = (metric.bytes_out + count) % 2 ^ 64;
        })
        s.metrics;
}

unfoldable pub count_bytes : Bool → Bytes → ℕ → Shared → Shared
count_bytes inbound id count s = record s {
  metrics =
      update_metric id
        (λ (metric : RuleMetric).
          if inbound
          then record metric { bytes_in = (metric.bytes_in + count) % 2 ^ 64 }
          else record metric { bytes_out = (metric.bytes_out + count) % 2 ^ 64 })
        s.metrics;
}

-- `if (active_flows) --active_flows`.
abbrev pub one_less : RuleMetric → RuleMetric
one_less metric =
    if metric.active_flows == 0
    then metric
    else record metric { active_flows = metric.active_flows - 1 }

unfoldable pub end_flow : Bytes → Shared → Shared
end_flow id s = record s { metrics = update_metric id one_less s.metrics }

unfoldable pub fail_flow : Bytes → Bytes → Shared → Shared
fail_flow id error s = record s {
  metrics =
      update_metric id (λ (metric : RuleMetric). one_less (record metric { last_error = error }))
        s.metrics;
}

unfoldable pub worker_starts : Shared → Shared
worker_starts s = record s { active_workers = (s.active_workers + 1) % 2 ^ 64 }

unfoldable pub worker_leaves : Shared → Shared
worker_leaves s = record s { active_workers = (s.active_workers + 2 ^ 64 - 1) % 2 ^ 64 }

-- Metrics.
unfoldable pub metrics_list : Shared → List RuleMetric
metrics_list s = map (λ (entry : Bytes × RuleMetric). entry.1) s.metrics
