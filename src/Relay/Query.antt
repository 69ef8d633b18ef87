-- ===== src/Relay/Query.antt =====
-- The redirect context and records of a connection: the layout of NetPilotRedirectContext,
-- QueryContext for TCP, and the control messages of a UDP packet.
use netpilot.Base.{
  ℕ, zero, suc, not, ◌&&◌, ◌||◌, Option, none, some, List, [], ◌∷◌, ◌==◌, leb, if◌then◌else◌,
  length, take, drop,
}
use netpilot.Base.Text.{Bytes, text, is_empty}
use netpilot.Protocol.Buffer.{of_le_bytes}
use netpilot.Driver.Classify.{RedirectContext, redirect_context_version, ipproto_udp}
use netpilot.Relay.Winsock.{Winsock}
use netpilot.Relay.Connect.{socket_error}

abbrev context_size : ℕ
context_size = 24

abbrev pub zero_context : RedirectContext
zero_context = record {
  version = 0;
  protocol = 0;
  rule_context = 0;
  remote_ipv4 = 0;
  remote_port = 0;
}

-- The structure in the first bytes of a buffer.
unfoldable context_at : Bytes → RedirectContext
unfolding of_le_bytes
context_at bytes = record {
  version = of_le_bytes (take 4 bytes);
  protocol = of_le_bytes (take 4 (drop 4 bytes));
  rule_context = of_le_bytes (take 8 (drop 8 bytes));
  remote_ipv4 = of_le_bytes (take 4 (drop 16 bytes));
  remote_port = of_le_bytes (take 2 (drop 20 bytes));
}

-- `vector::resize`.
unfoldable pub resize : ℕ → Bytes → Bytes
resize zero bytes = []
resize (suc n) [] = 0 ∷ resize n []
resize (suc n) (b ∷ bytes) = b ∷ resize n bytes

-- The answer of a query: what it found, or the error.
pub data Found (A : Type 0) : Type 0 where
  found : A → Found A
  missed : Bytes → Found A

-- IPPROTO_IP, IP_WFP_REDIRECT_RECORDS and IP_WFP_REDIRECT_CONTEXT.
abbrev pub ipproto_ip : ℕ
ipproto_ip = 0

abbrev pub redirect_records_type : ℕ
redirect_records_type = 60

abbrev pub redirect_context_type : ℕ
redirect_context_type = 70

-- A control message: its level, its type and its data.
pub record Control : Type 0 where
  pub level : ℕ
  pub type : ℕ
  pub payload : Bytes

-- The body of the loop over the control messages.
unfoldable pub read_control : Control → RedirectContext × Bytes → RedirectContext × Bytes
unfolding context_at
read_control message (context, records) =
    if not (message.level == ipproto_ip)
    then (context, records)
    else if message.type == redirect_context_type && leb context_size (length message.payload)
    then (context_at message.payload, records)
    else if message.type == redirect_records_type && not (is_empty message.payload)
    then (context, message.payload)
    else (context, records)

unfoldable pub read_controls : List Control → RedirectContext × Bytes → RedirectContext × Bytes
unfolding read_control
read_controls [] s = s
read_controls (message ∷ rest) s = read_controls rest (read_control message s)

-- The context and the records of a packet; `none` is a packet that is rejected.
unfoldable pub udp_metadata : List Control → Option (RedirectContext × Bytes)
unfolding read_controls
udp_metadata messages =
    let (context, records) = read_controls messages (zero_context, []) in
    if not (context.version == redirect_context_version)
      || (not (context.protocol == ipproto_udp) || is_empty records)
    then none
    else some (context, records)

module _ (ws : Winsock) where
  open ws use {World}

  -- The second query, where the first buffer was too small.
  unfoldable pub query_again : ℕ → ℕ → World → Found Bytes × World
  unfolding resize
  query_again s size w =
      let (ok, buffer, bytes, w') = ws.query_records s size w in
      if ok
      then (found (resize bytes buffer), w')
      else (missed (socket_error ws (text "query redirect records") w'), w')

  unfoldable pub query_records : ℕ → World → Found Bytes × World
  unfolding resize query_again
  query_records s w =
      let (ok, buffer, bytes, w') = ws.query_records s 1024 w in
      if ok
      then (found (resize bytes buffer), w')
      else if leb bytes 1024
      then (missed (socket_error ws (text "query redirect records") w'), w')
      else query_again s bytes w'

  with_context : RedirectContext → Found Bytes × World → Found (RedirectContext × Bytes) × World
  with_context context (found records, w) = (found (context, records), w)
  with_context context (missed error, w) = (missed error, w)

  unfoldable pub query_context : ℕ → World → Found (RedirectContext × Bytes) × World
  unfolding query_records with_context
  query_context s w =
      let (ok, context, bytes, w') = ws.query_context s w in
      if not ok
        || (not (bytes == context_size) || not (context.version == redirect_context_version))
      then (missed (socket_error ws (text "query redirect context") w'), w')
      else with_context context (query_records s w')
