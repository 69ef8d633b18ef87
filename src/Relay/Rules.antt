-- ===== src/Relay/Rules.antt =====
-- The two tables of the relay engine, `rules_` and `metrics_`, and Configure.
use netpilot.Base.{
  ℕ, ◌≡◌, refl, ◌∙◌, inl, inr, Option, none, some, List, [], ◌∷◌, ◌==◌, if◌then◌else◌, arith,
  Bool-cases,
}
use netpilot.Base.Text.{Bytes, str_eq, str_eq_iff}
use netpilot.Protocol.Types.{AppRuleSpec, RuleMetric}
use netpilot.Wfp.AppId.{rule_context}

pub record RuleRuntime : Type 0 where
  pub id : Bytes
  pub interface_luid : Bytes

-- An unordered_map as a list of its entries: a key that is written stands first, and hides what
-- the key had before.
abbrev pub Rules : Type 0
Rules = List (ℕ × RuleRuntime)

unfoldable pub find_rule : ℕ → Rules → Option RuleRuntime
find_rule key [] = none
find_rule key ((k, rule) ∷ rest) =
    let further = find_rule key rest in if k == key then some rule else further

unfoldable pub rules_from : List AppRuleSpec → Rules → Rules
rules_from [] rules = rules
rules_from (rule ∷ rest) rules = rules_from rest (
    if rule.enabled
    then (rule_context rule.id, record { id = rule.id; interface_luid = rule.interface_luid })
      ∷ rules
    else rules)

-- `metrics_`: one entry for each key, in the order of the first use.
abbrev pub Metrics : Type 0
Metrics = List (Bytes × RuleMetric)

abbrev pub new_metric : Bytes → RuleMetric
new_metric id = record { id = id; active_flows = 0; bytes_in = 0; bytes_out = 0; last_error = [] }

-- `metrics_.try_emplace`: an entry that is there stays as it is.
unfoldable pub try_emplace : Bytes → Metrics → Metrics
try_emplace id [] = (id, new_metric id) ∷ []
try_emplace id ((key, metric) ∷ rest) =
    let rest' = try_emplace id rest in
    if str_eq key id then (key, metric) ∷ rest else (key, metric) ∷ rest'

unfoldable pub metrics_from : List AppRuleSpec → Metrics → Metrics
metrics_from [] metrics = metrics
metrics_from (rule ∷ rest) metrics =
    metrics_from rest (if rule.enabled then try_emplace rule.id metrics else metrics)

-- What `metrics_[id]` is: a key that is not there has a metric of zeros and no id.
unfoldable pub metric_of : Bytes → Metrics → RuleMetric
metric_of id [] = new_metric []
metric_of id ((key, metric) ∷ rest) =
    let further = metric_of id rest in if str_eq key id then metric else further

-- A change of `metrics_[id]`, which makes the entry if it is not there.
unfoldable pub update_metric : Bytes → (RuleMetric → RuleMetric) → Metrics → Metrics
update_metric id f [] = (id, f (new_metric [])) ∷ []
update_metric id f ((key, metric) ∷ rest) =
    let rest' = update_metric id f rest in
    if str_eq key id then (key, f metric) ∷ rest else (key, metric) ∷ rest'

pub metric_of-update_metric :
    (id other : Bytes) (f : RuleMetric → RuleMetric) (metrics : Metrics)
    → metric_of other (update_metric id f metrics)
      ≡ (if str_eq id other then f (metric_of id metrics) else metric_of other metrics)
unfolding metric_of update_metric
metric_of-update_metric id other f [] = ground (arith, str_eq_iff id other)
metric_of-update_metric id other f ((key, metric) ∷ rest) = ground (
  arith,
  str_eq_iff id other,
  str_eq_iff key id,
  str_eq_iff key other,
  metric_of-update_metric id other f rest,
)

-- Configure makes entries, and changes no metric.
pub flows-try_emplace :
    (id other : Bytes) (metrics : Metrics)
    → (metric_of other (try_emplace id metrics)).active_flows
      ≡ (metric_of other metrics).active_flows
unfolding metric_of try_emplace
flows-try_emplace id other [] = ground (arith, str_eq_iff id other)
flows-try_emplace id other ((key, metric) ∷ rest) =
    ground (arith, str_eq_iff key id, str_eq_iff key other, flows-try_emplace id other rest)

pub flows-metrics_from :
    (rules : List AppRuleSpec) (other : Bytes) (metrics : Metrics)
    → (metric_of other (metrics_from rules metrics)).active_flows
      ≡ (metric_of other metrics).active_flows
unfolding metrics_from
flows-metrics_from [] other metrics = refl
flows-metrics_from (rule ∷ rest) other metrics = elim (Bool-cases rule.enabled) [
  | inl b ↦ rw b (
      flows-metrics_from rest other (try_emplace rule.id metrics)
      ∙ flows-try_emplace rule.id other metrics)
  | inr b ↦ rw b (flows-metrics_from rest other metrics)
]
