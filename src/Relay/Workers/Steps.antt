-- ===== src/Relay/Workers/Steps.antt =====
-- The invariant on the counts, and the steps of the workers that keep it.
use netpilot.Base.{
  ℕ, suc, ◌+◌, ◌%◌, ◌^◌, ◌≤◌, ◌<◌, ◌≡◌, refl, sym, ap, subst, Bool, true, false, List, [], ◌∷◌,
  ◌++◌, arith, length, length-append, All, All-append,
}
use netpilot.Base.Text.{Bytes, str_eq_iff}
use netpilot.Protocol.Types.{RuleMetric}
use netpilot.Relay.Rules.{metric_of-update_metric}
use netpilot.Relay.Shared.{Shared, count_bytes, worker_starts, worker_leaves}
use netpilot.Relay.Workers.{
  Action, Worker, working, left, Outcome, perform, decides, System, max_threads,
}
use netpilot.Relay.Workers.Totals.{
  total, total-append, begins, ends, script_begins, script_ends, is_working, IsPairedWorker,
  IsPaired-totals, All-totals, Outcome-IsPaired, Outcome-Last, All-middle, begins-ends_le,
}
use netpilot.Relay.Workers.Counts.{flows, perform-flows, perform-active_workers}

pub record Inv (id : Bytes) (s : System) : Type 0 where
  pub counted : s.shared.active_workers ≡ total is_working s.workers
  pub balanced :
      flows id s.shared + total (script_begins id) s.workers ≡ total (script_ends id) s.workers
  pub paired : All (IsPairedWorker id) s.workers
  pub few : length s.workers < max_threads

total-is_working_le : (workers : List Worker) → total is_working workers ≤ length workers
total-is_working_le [] = omega arith
total-is_working_le (working script ∷ rest) = omega (arith, total-is_working_le rest)
total-is_working_le (left ∷ rest) = omega (arith, total-is_working_le rest)

-- The invariant about a list of workers with one of them taken out.
pub record Around (id : Bytes) (s : System) (before after : List Worker) (w : Worker) : Type 0 where
  counted :
      s.shared.active_workers ≡ total is_working before + is_working w + total is_working after
  balanced :
      flows id s.shared
        + (total (script_begins id) before + script_begins id w + total (script_begins id) after)
      ≡ total (script_ends id) before + script_ends id w + total (script_ends id) after
  befores : All (IsPairedWorker id) before
  paired : IsPairedWorker id w
  afters : All (IsPairedWorker id) after
  few : length before + suc (length after) < max_threads

pub Inv-Around :
    (id : Bytes) (s : System) (before after : List Worker) (w : Worker)
    → Inv id s
    → s.workers ≡ before ++ w ∷ after
    → Around id s before after w
Inv-Around id s before after w inv h =
    let (befores, at, afters) =
      All-middle (IsPairedWorker id) before after w
        (subst (All (IsPairedWorker id)) h inv.paired) in
    record {
      counted =
          omega (
            arith,
            inv.counted,
            ap (total is_working) h,
            total-append is_working before (w ∷ after),
          );
      balanced = omega (
        arith,
        inv.balanced,
        ap (total (script_begins id)) h,
        ap (total (script_ends id)) h,
        total-append (script_begins id) before (w ∷ after),
        total-append (script_ends id) before (w ∷ after),
      );
      befores = befores;
      paired = at;
      afters = afters;
      few = omega (arith, inv.few, ap (length {A = Worker}) h, length-append before (w ∷ after));
    }

-- Back, with any shared state and worker that keep the sums.
Around-Inv :
    (id : Bytes) (s : System) (before after : List Worker) (w : Worker)
    → Around id s before after w
    → s.workers ≡ before ++ w ∷ after
    → Inv id s
Around-Inv id s before after w r h = record {
  counted =
      omega (arith, r.counted, ap (total is_working) h, total-append is_working before (w ∷ after));
  balanced = omega (
    arith,
    r.balanced,
    ap (total (script_begins id)) h,
    ap (total (script_ends id)) h,
    total-append (script_begins id) before (w ∷ after),
    total-append (script_ends id) before (w ∷ after),
  );
  paired =
      subst (All (IsPairedWorker id)) (sym h)
        (All-append (IsPairedWorker id) before (w ∷ after) r.befores (r.paired, r.afters));
  few = omega (arith, r.few, ap (length {A = Worker}) h, length-append before (w ∷ after));
}

pub performs-Inv :
    (id : Bytes) (s : System) (before after : List Worker) (a : Action) (rest : List Action)
    → decides a ≡ false
    → Around id s before after (working (a ∷ rest))
    → Inv id (record s { shared = perform a s.shared; workers = before ++ working rest ∷ after })
performs-Inv id s before after a rest d r =
    let b = All-totals id before r.befores in
    let c = All-totals id after r.afters in
    let d' = IsPaired-totals id rest r.paired.3 in
    let changed =
      perform-flows id a s.shared d
        (omega (arith, r.balanced, r.paired.0, r.paired.1, b, c, d', begins-ends_le id a, r.few))
        (omega (arith, r.balanced, r.paired.0, r.paired.1, b, c, d', begins-ends_le id a, r.few)) in
    Around-Inv id _ before after (working rest)
      (record {
        counted = omega (arith, r.counted, perform-active_workers a s.shared);
        balanced = omega (arith, r.balanced, changed);
        befores = r.befores;
        paired = r.paired.3;
        afters = r.afters;
        few = r.few;
      })
      refl

pub chooses-Inv :
    (id : Bytes) (s : System) (before after : List Worker) (a : Action) (way rest : List Action)
    → Outcome a way
    → Around id s before after (working (a ∷ rest))
    → Inv id (record s { workers = before ++ working (way ++ rest) ∷ after })
chooses-Inv id s before after a way rest o r =
    let last = Outcome-Last o r.paired.2 in
    let (fine, kept) = Outcome-IsPaired id o in
    let gone : (total (begins id) rest ≡ 0) × (total (ends id) rest ≡ 0) =
      (rw last (omega arith), rw last (omega arith)) in
    Around-Inv id _ before after (working (way ++ rest))
      (record {
        counted = omega (arith, r.counted);
        balanced = rw last (omega (arith, r.balanced, kept, gone));
        befores = r.befores;
        paired = rw last fine;
        afters = r.afters;
        few = r.few;
      })
      refl

pub transfers-flows :
    (id other : Bytes) (inbound : Bool) (count : ℕ) (s : Shared)
    → flows id (count_bytes inbound other count s) ≡ flows id s
unfolding count_bytes
transfers-flows id other true count s = ground (
  arith,
  str_eq_iff other id,
  metric_of-update_metric other id
      (λ (m : RuleMetric). record m { bytes_in = (m.bytes_in + count) % 2 ^ 64 }) s.metrics,
)
transfers-flows id other false count s = ground (
  arith,
  str_eq_iff other id,
  metric_of-update_metric other id
      (λ (m : RuleMetric). record m { bytes_out = (m.bytes_out + count) % 2 ^ 64 }) s.metrics,
)

pub transfers-active_workers :
    (id : Bytes) (inbound : Bool) (count : ℕ) (s : Shared)
    → (count_bytes inbound id count s).active_workers ≡ s.active_workers
unfolding count_bytes
transfers-active_workers id inbound count s = refl

-- A new worker, which has no flow yet.
pub spawns-Inv :
    (id : Bytes) (s : System) (w : Worker)
    → suc (length s.workers) < max_threads
    → is_working w ≡ 1
    → script_begins id w ≡ 0
    → script_ends id w ≡ 0
    → IsPairedWorker id w
    → Inv id s
    → Inv id (record s { shared = worker_starts s.shared; workers = w ∷ s.workers })
unfolding worker_starts
spawns-Inv id s w room one none_begun none_ended paired inv = record {
  counted = omega (arith, inv.counted, one, room, total-is_working_le s.workers);
  balanced = omega (arith, inv.balanced, none_begun, none_ended);
  paired = (paired, inv.paired);
  few = room;
}

pub leaves-Inv :
    (id : Bytes) (s : System) (before after : List Worker)
    → Around id s before after (working [])
    → Inv id (record s { shared = worker_leaves s.shared; workers = before ++ left ∷ after })
unfolding worker_leaves
leaves-Inv id s before after r =
    Around-Inv id _ before after left
      (record {
        counted =
            omega (arith, r.counted, r.few, total-is_working_le before, total-is_working_le after);
        balanced = r.balanced;
        befores = r.befores;
        paired = tt;
        afters = r.afters;
        few = r.few;
      })
      refl

pub notifies-Inv :
    (id : Bytes) (s : System) (before after : List Worker)
    → Around id s before after left
    → Inv id (record s { workers = before ++ after })
notifies-Inv id s before after r = record {
  counted = omega (arith, r.counted, total-append is_working before after);
  balanced = omega (
    arith,
    r.balanced,
    total-append (script_begins id) before after,
    total-append (script_ends id) before after,
  );
  paired = All-append (IsPairedWorker id) before after r.befores r.afters;
  few = omega (arith, r.few, length-append before after);
}
