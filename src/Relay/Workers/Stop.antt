-- ===== src/Relay/Workers/Stop.antt =====
-- Stop: what holds when it has waited, and that its wait can always end.
use netpilot.Base.{
  ◌+◌, ◌≡◌, refl, ap, ◌∙◌, ◌⊎◌, inl, inr, true, false, List, [], ◌∷◌, ◌++◌, arith, All,
}
use netpilot.Relay.Workers.{
  Worker, working, left, System, Step, configures, accepts, receives, accept_loop_ends,
  receive_loop_ends, performs, chooses, transfers, leaves, notifies, stop_begins, stop_ends, Reach,
  here, next,
}
use netpilot.Relay.Workers.Totals.{total, total-append, is_working}
use netpilot.Relay.Workers.Invariant.{active_workers_exact}

-- Stop has not ended, or no loop is left that could start a worker, and no worker is working.
abbrev IsQuiet : System → Type 0
IsQuiet s =
    (s.stopped ≡ false)
    ⊎ ((s.running ≡ false)
        × (s.accepting ≡ false)
        × (s.receiving ≡ false)
        × (total is_working s.workers ≡ 0))

-- A worker in the middle counts.
middle :
    (w : Worker) (workers before after : List Worker)
    → workers ≡ before ++ w ∷ after
    → total is_working workers ≡ total is_working before + (is_working w + total is_working after)
middle w workers before after h =
    ap (total is_working) h ∙ total-append is_working before (w ∷ after)

Step-IsQuiet : {s t : System} → Reach s → Step s t → IsQuiet s → IsQuiet t
Step-IsQuiet r (configures rules e) q = ground arith
Step-IsQuiet r (accepts client on room e) q = ground arith
Step-IsQuiet r (receives on room e) q = ground arith
Step-IsQuiet r (accept_loop_ends off e) q = ground arith
Step-IsQuiet r (receive_loop_ends e) q = ground arith
Step-IsQuiet {s} r (performs before after a rest d h e) q =
    ground (arith, middle (working (a ∷ rest)) s.workers before after h)
Step-IsQuiet {s} r (chooses before after a way rest o h e) q =
    ground (arith, middle (working (a ∷ rest)) s.workers before after h)
Step-IsQuiet r (transfers before after id rest inbound count h e) q = ground arith
Step-IsQuiet {s} r (leaves before after h e) q =
    ground (arith, middle (working []) s.workers before after h)
Step-IsQuiet {s} r (notifies before after h e) q =
    ground (arith, middle left s.workers before after h, total-append is_working before after)
Step-IsQuiet r (stop_begins on e) q = ground arith
Step-IsQuiet r (stop_ends off a b none_left e) q = ground (arith, active_workers_exact r)

Reach-IsQuiet : {s : System} → Reach s → IsQuiet s
Reach-IsQuiet here = inl refl
Reach-IsQuiet (next r st) = Step-IsQuiet r st (Reach-IsQuiet r)

abbrev pub IsLeft : Worker → Type 0
IsLeft w = w ≡ left

none_working : (workers : List Worker) → total is_working workers ≡ 0 → All IsLeft workers
none_working [] h = tt
none_working (working script ∷ rest) h = absurd (omega arith)
none_working (left ∷ rest) h = (refl, none_working rest (omega arith))

-- When Stop has waited, the loops have ended, no worker is in RelayTcp or RelayUdpSession, and
-- those threads that are left have only to call notify_all.
pub stop_waits :
    {s : System}
    → Reach s
    → s.stopped ≡ true
    → (s.accepting ≡ false) × (s.receiving ≡ false) × All IsLeft s.workers
stop_waits {s} r h = elim (Reach-IsQuiet r) [
  | inl running ↦ absurd (cc (running, h))
  | inr quiet ↦ (quiet.1, quiet.2, none_working s.workers quiet.3)
]
