-- ===== src/Relay/Winsock.antt =====
-- What the relay calls of Winsock and of the IP helper, and what its documentation says of sockets.
use netpilot.Base.{ℕ, ◌≡◌, Bool, true, Option, none, some, List, ◌∷◌}
use netpilot.Base.Text.{Bytes}
use netpilot.Driver.Classify.{RedirectContext}

-- A unicast address of an adapter.
pub data Address : Type 0 where
  ipv4 : ℕ → Address
  other : Address

pub record Adapter : Type 0 where
  pub luid : ℕ
  pub addresses : List Address

-- Addresses and ports are numbers in network byte order. A call that may fail answers whether it
-- succeeded, or `none` for INVALID_SOCKET.
pub record Winsock : Type 1 where
  pub World : Type 0
  pub last_error : World → ℕ
  pub startup : World → Bool × World
  pub cleanup : World → World
  -- socket on AF_INET: the type and the protocol.
  pub socket : ℕ → ℕ → World → Option ℕ × World
  pub set_reuse_address : ℕ → World → World
  pub bind : ℕ → ℕ → ℕ → World → Bool × World
  pub listen : ℕ → World → Bool × World
  pub connect : ℕ → ℕ → ℕ → World → Bool × World
  pub close : ℕ → World → World
  pub shut_down : ℕ → World → World
  -- IP_UNICAST_IF, SIO_SET_WFP_CONNECTION_REDIRECT_RECORDS.
  pub set_unicast_if : ℕ → ℕ → World → Bool × World
  pub set_records : ℕ → Bytes → World → Bool × World
  -- SIO_QUERY_WFP_CONNECTION_REDIRECT_CONTEXT: the context and the number of bytes.
  pub query_context : ℕ → World → Bool × RedirectContext × ℕ × World
  -- SIO_QUERY_WFP_CONNECTION_REDIRECT_RECORDS into a buffer of this size: the buffer and the
  -- number of bytes.
  pub query_records : ℕ → ℕ → World → Bool × Bytes × ℕ × World
  pub luid_to_index : ℕ → World → Option ℕ
  -- GetAdaptersAddresses into a buffer of this size: the status, the size asked for, the adapters.
  pub get_adapters : ℕ → World → ℕ × ℕ × List Adapter × World

-- The sockets of the process that are open, the last one first, and of each the address and the
-- interface that it is bound to, and its peer.
pub record Sockets (ws : Winsock) : Type 0 where
  pub opened : ws.World → List ℕ
  pub source : ws.World → ℕ → Option ℕ
  pub interface : ws.World → ℕ → Option ℕ
  pub peer : ws.World → ℕ → Option (ℕ × ℕ)
  pub socket_opens :
      (type protocol s : ℕ) (w : ws.World)
      → (ws.socket type protocol w).0 ≡ some s
      → opened (ws.socket type protocol w).1 ≡ s ∷ opened w
  pub socket_fails :
      (type protocol : ℕ) (w : ws.World)
      → (ws.socket type protocol w).0 ≡ none
      → opened (ws.socket type protocol w).1 ≡ opened w
  pub close_last :
      (s : ℕ) (rest : List ℕ) (w : ws.World) → opened w ≡ s ∷ rest → opened (ws.close s w) ≡ rest
  pub startup_keeps : (w : ws.World) → opened (ws.startup w).1 ≡ opened w
  pub reuse_keeps : (s : ℕ) (w : ws.World) → opened (ws.set_reuse_address s w) ≡ opened w
  pub bind_keeps : (s a port : ℕ) (w : ws.World) → opened (ws.bind s a port w).1 ≡ opened w
  pub listen_keeps : (s : ℕ) (w : ws.World) → opened (ws.listen s w).1 ≡ opened w
  pub connect_keeps : (s a port : ℕ) (w : ws.World) → opened (ws.connect s a port w).1 ≡ opened w
  pub unicast_keeps : (s i : ℕ) (w : ws.World) → opened (ws.set_unicast_if s i w).1 ≡ opened w
  pub records_keep : (s : ℕ) (b : Bytes) (w : ws.World) → opened (ws.set_records s b w).1 ≡ opened w
  pub adapters_keep : (size : ℕ) (w : ws.World) → opened (ws.get_adapters size w).3 ≡ opened w
  pub bind_source :
      (s a port : ℕ) (w : ws.World)
      → (ws.bind s a port w).0 ≡ true
      → source (ws.bind s a port w).1 s ≡ some a
  pub unicast_interface :
      (s i : ℕ) (w : ws.World)
      → (ws.set_unicast_if s i w).0 ≡ true
      → interface (ws.set_unicast_if s i w).1 s ≡ some i
  pub unicast_source : (s i : ℕ) (w : ws.World) → source (ws.set_unicast_if s i w).1 ≡ source w
  pub records_source :
      (s : ℕ) (b : Bytes) (w : ws.World) → source (ws.set_records s b w).1 ≡ source w
  pub records_interface :
      (s : ℕ) (b : Bytes) (w : ws.World) → interface (ws.set_records s b w).1 ≡ interface w
  pub connect_source :
      (s a port : ℕ) (w : ws.World) → source (ws.connect s a port w).1 s ≡ source w s
  pub connect_interface :
      (s a port : ℕ) (w : ws.World) → interface (ws.connect s a port w).1 s ≡ interface w s
  pub connect_peer :
      (s a port : ℕ) (w : ws.World)
      → (ws.connect s a port w).0 ≡ true
      → peer (ws.connect s a port w).1 s ≡ some (a, port)
