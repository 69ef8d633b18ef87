-- ===== src/Service/Lifecycle/Ended.antt =====
-- What Stop leaves, and what strangers can do to a service that runs.
use netpilot.Base.{
  ℕ, ◌≡◌, ◌≢◌, refl, inl, inr, true, false, not, ◌&&◌, none, some, List, [], ◌∷◌, ◌++◌, arith, All,
  Bool-cases, Option-cases,
}
use netpilot.Base.Text.{Bytes, text}
use netpilot.Diagnostics.{log_all}
use netpilot.Routes.Net.{Net}
use netpilot.Wfp.Engine.{Engine}
use netpilot.Wfp.Policy.{Policy}
use netpilot.Wfp.Policy.Emptied.{Provider}
use netpilot.Client.Pipe.{Pipe}
use netpilot.Service.Host.{Host}
use netpilot.Service.State.{Service}
use netpilot.Service.Requests.{log_to}
use netpilot.Service.Serve.{authorize_client, serve_client, reject}
use netpilot.Service.Lifecycle.{
  Daemon, Server, Turn, Runtime, stop_runtime, on_interface_changed, hang_up, serve_turn, run,
}

module _ (n : Net) (e : Engine) (h : Host) (d : Daemon h) (t : Provider e) where
  -- No filter, no route of the inventory and no notification is left, and nothing that comes later
  -- changes that.
  pub record IsEnded (r : Runtime n e h d) : Type 0 where
    pub stopping : r.stopping ≡ true
    pub notification : r.notification ≡ none
    pub managed : r.service.managed ≡ []
    pub applied_hash : r.service.wfp.applied_hash ≡ []
    pub filters : t.provided r.service.wfp.world ≡ []
    pub interface_changes : (fuel : ℕ) → on_interface_changed n e h d fuel r ≡ some r
    pub stops : (fuel : ℕ) → stop_runtime n e h d fuel r ≡ some r

module _ (n : Net) (e : Engine) (h : Host) (p : Pipe) (v : Server p) where
  serve_turn_denies :
      (fuel : ℕ) (turn : Turn h) (s : Service n e h) (w : p.World)
      → authorize_client n e h p turn.peer s.host ≢ none
      → (lines : List Bytes) × (w' : p.World) × (serve_turn n e h p v fuel turn s w
          ≡ some (record s { lines = lines }, w'))
  unfolding serve_turn serve_client reject log_to
  serve_turn_denies fuel turn s w denied =
      elim (Option-cases (authorize_client n e h p turn.peer s.host)) [
        | inl allowed ↦ absurd (denied allowed)
        | inr (error, e') ↦
            let w1 = (v.connect w).1 in
            elim (Bool-cases ((v.connect w).0 && not turn.stopping_now)) [
              | inr idle ↦ (s.lines, hang_up n e h p v w1, ground (arith, idle))
              | inl served ↦ (
                log_all ((text "Rejected service client: " ++ error) ∷ []) s.lines,
                hang_up n e h p v w1,
                ground (arith, served, e'),
              )
            ]
      ]

  -- Whoever connects to the pipe and is not authorized, in whatever number, Run goes on as if they had
  -- not come: it serves the later connections as a run that begins after them does, on a service of
  -- which nothing but the lines of its log has changed. (The pipe can be created each time, and the
  -- service is not stopped meanwhile.)
  pub run_denies :
      (fuel : ℕ) (turns : List (Turn h)) (s : Service n e h) (w : p.World)
      → ((w : p.World) → (v.create w).0 ≡ true)
      → All
          (λ (turn : Turn h).
            (turn.stopping ≡ false)
            × ((turn.signalled ≡ false) × (authorize_client n e h p turn.peer s.host ≢ none)))
          turns
      → (lines : List Bytes) × (w' : p.World) × ((later : List (Turn h))
          → run n e h p v fuel (turns ++ later) s w
            ≡ run n e h p v fuel later (record s { lines = lines }) w')
  unfolding run
  run_denies fuel [] s w made denied = (s.lines, w, λ later. refl)
  run_denies fuel (turn ∷ turns) s w made ((runs, (set, here)), there) =
      let w1 = (v.create w).1 in
      let (lines, w2, turned) = serve_turn_denies fuel turn s w1 here in
      let (lines', w3, rest) = run_denies fuel turns (record s { lines = lines }) w2 made there in
      (lines', w3, λ later. ground (arith, runs, made w, turned, set, rest later))
