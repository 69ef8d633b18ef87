-- ===== src/Diagnostics/Tests.antt =====
-- A run of the log.
use netpilot.Base.{◌≡◌, [], ◌∷◌, map}
use netpilot.Base.Text.{text}
use netpilot.Diagnostics.{format, latest, log_all, log_all-latest}

log_all-latest_example :
    log_all (text "started" ∷ text "[NetPilot] ready" ∷ []) []
    ≡ latest (map format (text "started" ∷ text "[NetPilot] ready" ∷ []))
log_all-latest_example = log_all-latest (text "started" ∷ text "[NetPilot] ready" ∷ [])
