-- ===== src/Relay/Workers/Totals.antt =====
-- Sums over the workers, and what a worker has still to do to the count of a rule's flows.
use netpilot.Base.{ℕ, ◌+◌, ◌≤◌, ◌≡◌, Bool, List, [], ◌∷◌, ◌++◌, if◌then◌else◌, arith, length, All}
use netpilot.Base.Text.{Bytes, str_eq}
use netpilot.Relay.Workers.{
  Action, track_socket, untrack_socket, report, begin, relay, finish, finish_failed, open_tcp,
  open_udp, send_first, Worker, working, left, Outcome, tcp_refused, tcp_connected, udp_no_socket,
  udp_refused, udp_connected, udp_sent, udp_not_sent,
}

module _ {ℓ} {A : Type ℓ} (f : A → ℕ) where
  abbrev pub total : List A → ℕ
  total [] = 0
  total (x ∷ xs) = f x + total xs

  pub total-append : (xs ys : List A) → total (xs ++ ys) ≡ total xs + total ys
  total-append [] ys = omega arith
  total-append (x ∷ xs) ys = omega (arith, total-append xs ys)

abbrev one_if : Bool → ℕ
one_if b = if b then 1 else 0

-- Whether the action begins, or ends, a flow of the rule.
abbrev pub begins : Bytes → Action → ℕ
begins id (begin other count) = one_if (str_eq other id)
begins id _ = 0

abbrev pub ends : Bytes → Action → ℕ
ends id (finish other) = one_if (str_eq other id)
ends id (finish_failed other error) = one_if (str_eq other id)
ends id (send_first socket outbound other) = one_if (str_eq other id)
ends id _ = 0

abbrev pub script_begins : Bytes → Worker → ℕ
script_begins id (working script) = total (begins id) script
script_begins id left = 0

abbrev pub script_ends : Bytes → Worker → ℕ
script_ends id (working script) = total (ends id) script
script_ends id left = 0

abbrev pub is_working : Worker → ℕ
is_working (working script) = 1
is_working left = 0

-- An action whose outcome decides is the last of a script.
abbrev pub Last : Action → List Action → Type 0
Last (open_tcp client) rest = rest ≡ []
Last open_udp rest = rest ≡ []
Last (send_first socket outbound id) rest = rest ≡ []
Last _ rest = Unit {0}

-- From each point on, at most one flow is ended, and none is begun that is not.
abbrev pub IsPaired : Bytes → List Action → Type 0
IsPaired id [] = Unit {0}
IsPaired id (a ∷ rest) =
    (total (begins id) (a ∷ rest) ≤ total (ends id) (a ∷ rest))
    × (total (ends id) (a ∷ rest) ≤ 1)
    × Last a rest
    × IsPaired id rest

abbrev pub IsPairedWorker : Bytes → Worker → Type 0
IsPairedWorker id (working script) = IsPaired id script
IsPairedWorker id left = Unit {0}

pub IsPaired-totals :
    (id : Bytes) (script : List Action)
    → IsPaired id script
    → (total (begins id) script ≤ total (ends id) script) × (total (ends id) script ≤ 1)
IsPaired-totals id [] p = omega arith
IsPaired-totals id (a ∷ rest) p = (p.0, p.1)

pub All-totals :
    (id : Bytes) (workers : List Worker)
    → All (IsPairedWorker id) workers
    → (total (script_begins id) workers ≤ total (script_ends id) workers)
      × (total (script_ends id) workers ≤ length workers)
All-totals id [] h = omega arith
All-totals id (working script ∷ rest) h =
    omega (arith, All-totals id rest h.1, IsPaired-totals id script h.0)
All-totals id (left ∷ rest) h = omega (arith, All-totals id rest h.1)

-- No action does both.
pub begins-ends_le : (id : Bytes) (a : Action) → begins id a + ends id a ≤ 1
begins-ends_le id (track_socket socket) = omega arith
begins-ends_le id (untrack_socket socket) = omega arith
begins-ends_le id (report other error) = omega arith
begins-ends_le id (begin other count) = ground arith
begins-ends_le id (relay other) = omega arith
begins-ends_le id (finish other) = ground arith
begins-ends_le id (finish_failed other error) = ground arith
begins-ends_le id (open_tcp client) = omega arith
begins-ends_le id open_udp = omega arith
begins-ends_le id (send_first socket outbound other) = ground arith

-- What is decided takes over what the action was to end.
pub Outcome-IsPaired :
    (id : Bytes) {a : Action} {way : List Action}
    → Outcome a way
    → IsPaired id (way ++ [])
      × (total (begins id) (way ++ []) + ends id a ≡ total (ends id) (way ++ []) + begins id a)
Outcome-IsPaired id (tcp_refused client other error) = ground arith
Outcome-IsPaired id (tcp_connected client outbound other) = ground arith
Outcome-IsPaired id udp_no_socket = ground arith
Outcome-IsPaired id (udp_refused other error) = ground arith
Outcome-IsPaired id (udp_connected socket outbound count other) = ground arith
Outcome-IsPaired id (udp_sent socket outbound other) = ground arith
Outcome-IsPaired id (udp_not_sent socket outbound other error) = ground arith

pub Outcome-Last : {a : Action} {way rest : List Action} → Outcome a way → Last a rest → rest ≡ []
Outcome-Last (tcp_refused client other error) l = l
Outcome-Last (tcp_connected client outbound other) l = l
Outcome-Last udp_no_socket l = l
Outcome-Last (udp_refused other error) l = l
Outcome-Last (udp_connected socket outbound count other) l = l
Outcome-Last (udp_sent socket outbound other) l = l
Outcome-Last (udp_not_sent socket outbound other error) l = l

module _ {ℓ κ} {A : Type ℓ} (P : A → Type κ) where
  pub All-middle : (xs ys : List A) (y : A) → All P (xs ++ y ∷ ys) → All P xs × P y × All P ys
  All-middle [] ys y h = (tt, h.0, h.1)
  All-middle (x ∷ xs) ys y h =
      let (before, at, after) = All-middle xs ys y h.1 in ((h.0, before), at, after)
