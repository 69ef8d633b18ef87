-- ===== src/Routes/Net.antt =====
-- What RouteManager calls of Windows: the IP helper functions, the address functions, and the
-- write of its state file. Each call takes the state of the system and gives the next one.
use netpilot.Base.{ℕ, Option, List}
use netpilot.Base.Text.{Bytes}
use netpilot.Routes.Row.{Row}

pub record Net : Type 1 where
  pub World : Type 0
  -- InetPtonA(AF_INET), `none` where it does not answer 1, and InetNtopA.
  pub inet_pton : Bytes → Option ℕ
  pub inet_ntop : ℕ → Bytes
  -- CreateIpForwardEntry2 and DeleteIpForwardEntry2 with their status codes.
  pub create_entry : Row → World → ℕ × World
  pub delete_entry : Row → World → ℕ × World
  -- GetIpForwardTable2 and GetBestRoute2: a status code, and what was found.
  pub forward_table : World → ℕ × List Row
  pub best_route : ℕ → World → ℕ × Row
  -- The new state file is written and moved over the old one.
  pub write_state : Bytes → World → World
