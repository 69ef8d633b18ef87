-- ===== src/Client/Call.antt =====
-- ServiceClient::Call.
use netpilot.Base.{
  ℕ, ◌^◌, ◌%◌, Bool, not, ◌&&◌, Option, none, some, ◌++◌, ◌==◌, if◌then◌else◌, length,
}
use netpilot.Base.Text.{Bytes, text, is_empty}
use netpilot.Std.Number.{to_string}
use netpilot.Protocol.Frame.{header_at, header_size, is_frame, frame_header}
use netpilot.Client.Pipe.{Pipe, receive}
use netpilot.Client.Pipe.Frames.{send_frame, receive_payload}

-- WaitNamedPipe, CreateFile, CloseHandle and GetLastError.
pub record Handles (p : Pipe) : Type 0 where
  pub wait : p.World → Bool × p.World
  pub open_pipe : p.World → Bool × p.World
  pub close : p.World → p.World
  pub last_error : p.World → ℕ

module _ (p : Pipe) (c : Handles p) where
  unfoldable pub windows_error : Bytes → p.World → Bytes
  unfolding to_string
  windows_error prefix w = prefix ++ (text " (Win32 " ++ (to_string (c.last_error w) ++ text ")"))

  -- What Call returns: `none` is false. `error` is what `*error` holds then.
  pub record Answer : Type 0 where
    pub response : Option Bytes
    pub error : Bytes
    pub world : p.World

  -- `if (!ok && error->empty())`.
  unfoldable pub io_failed : Bytes → p.World → Answer
  unfolding windows_error
  io_failed error w = record {
    response = none;
    error = if is_empty error then windows_error (text "Service I/O failed") w else error;
    world = c.close w;
  }

  unfoldable pub read_response : ℕ → Bytes → p.World → Answer
  unfolding io_failed
  read_response size error w =
      let (payload, w') = receive_payload p size w in
      elim payload [
        | none ↦ io_failed error w'
        | some bytes ↦ record { response = some bytes; error = error; world = c.close w' }
      ]

  unfoldable pub read_reply : ℕ → Bytes → p.World → Answer
  read_reply operation error w =
      let (head, w') = receive p header_size w in
      elim head [
        | none ↦ io_failed error w'
        | some bytes ↦
            let reply = header_at bytes in
            if not (is_frame reply && reply.operation == operation)
            then record {
              response = none;
              error = text "NetPilot Windows Service returned an invalid frame";
              world = c.close w';
            }
            else read_response reply.payload_size error w'
      ]

  -- The request as it is sent.
  abbrev pub send_request : ℕ → Bytes → p.World → Bool × p.World
  send_request operation request w =
      send_frame p (frame_header operation (length request % 2 ^ 32)) request w

  unfoldable pub exchange : ℕ → Bytes → Bytes → p.World → Answer
  exchange operation request error w =
      let (sent, w') = send_request operation request w in
      if sent then read_reply operation error w' else io_failed error w'

  unfoldable pub call : ℕ → Bytes → Bytes → p.World → Answer
  call operation request error w =
      let (ready, w') = c.wait w in
      let (opened, w'') = c.open_pipe w' in
      if not ready
      then record {
        response = none;
        error = windows_error (text "NetPilot Windows Service is unavailable") w';
        world = w';
      }
      else if not opened
      then record {
        response = none;
        error = windows_error (text "Could not connect to NetPilot Windows Service") w'';
        world = w'';
      }
      else exchange operation request error w''
