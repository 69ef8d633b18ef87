-- ===== src/Service/Serve.antt =====
-- AuthorizeClient and ServeClient: one connection of the pipe.
pub mod Answered
pub mod Guarded
use netpilot.Base.{
  ℕ, ◌^◌, ◌%◌, Bool, true, false, not, ◌&&◌, Option, none, some, List, [], ◌∷◌, ◌++◌, if◌then◌else◌,
  length,
}
use netpilot.Base.Text.{Bytes, text}
use netpilot.Protocol.Types.{FrameHeader}
use netpilot.Protocol.Frame.{header_at, header_size, is_frame}
use netpilot.Routes.Net.{Net}
use netpilot.Wfp.Engine.{Engine}
use netpilot.Service.Host.{Host}
use netpilot.Service.State.{Service}
use netpilot.Service.Requests.{dispatch, log_to}
use netpilot.Client.Pipe.{Pipe, receive}
use netpilot.Client.Pipe.Frames.{send_frame, receive_payload}

-- What Windows knows of the process at the other end: GetNamedPipeClientProcessId, ProcessPath,
-- the path of its directory, ModuleDirectory, and ProcessIdToSessionId.
pub record Peer (h : Host) : Type 0 where
  pub process_id : Option ℕ
  pub path : Bytes
  pub parent_path : h.WideText
  pub module_directory : h.WideText
  pub session : Option ℕ

module _ (n : Net) (e : Engine) (h : Host) (p : Pipe) where
  -- `none` is a client that is authorized.
  unfoldable pub authorize_client : Peer h → h.World → Option Bytes
  authorize_client peer w = elim peer.process_id [
    | none ↦ some (text "could not identify named-pipe client")
    | some id ↦
        let name = h.file_name (h.wide peer.path) in
        if not (h.same_text name (h.wide (text "netpilot_desktop.exe")))
          && not (h.same_text name (h.wide (text "NetPilotMaintenance.exe")))
        then some (text "named-pipe client is not NetPilot Desktop")
        else elim (h.canonical peer.parent_path w) [
          | none ↦ some (text "named-pipe client is outside the NetPilot installation directory")
          | some parent ↦
              if not (h.same_text parent peer.module_directory)
              then some (text "named-pipe client is outside the NetPilot installation directory")
              else none
        ]
  ]

  -- The answer of ServeClient, the service and the pipe.
  pub record Served : Type 0 where
    pub ok : Bool
    pub service : Service n e h
    pub pipe : p.World

  abbrev pub client_session : Peer h → ℕ
  client_session peer = elim peer.process_id [
    | none ↦ 0xffffffff
    | some id ↦ elim peer.session [ none ↦ 0xffffffff | some session ↦ session ]
  ]

  -- Dispatch and its answer.
  unfoldable pub answer_request :
      ℕ → Peer h → FrameHeader → Bytes → Service n e h → p.World → Option Served
  answer_request fuel peer header payload s w =
      elim (dispatch n e h fuel header.operation payload (client_session peer) s) [
        | none ↦ none
        | some (response, s') ↦
            let (ok, w') =
              send_frame p (record header { payload_size = length response % 2 ^ 32 }) response w in
            some (record { ok = ok; service = s'; pipe = w' })
      ]

  unfoldable pub reject : Bytes → Service n e h → p.World → Option Served
  unfolding log_to
  reject line s w = some (record { ok = false; service = log_to n e h (line ∷ []) s; pipe = w })

  -- After the header.
  unfoldable pub serve_request : ℕ → Peer h → FrameHeader → Service n e h → p.World → Option Served
  serve_request fuel peer header s w =
      let (payload, w') = receive_payload p header.payload_size w in
      if not (is_frame header)
      then reject (text "Rejected malformed service frame") s w
      else elim payload [
        | none ↦ some (record { ok = false; service = s; pipe = w' })
        | some bytes ↦ answer_request fuel peer header bytes s w'
      ]

  unfoldable pub serve_client : ℕ → Peer h → Service n e h → p.World → Option Served
  serve_client fuel peer s w =
      let (head, w') = receive p header_size w in
      elim (authorize_client peer s.host) [
        | some error ↦ reject (text "Rejected service client: " ++ error) s w
        | none ↦ elim head [
          | none ↦ reject (text "Rejected malformed service frame") s w'
          | some bytes ↦ serve_request fuel peer (header_at bytes) s w'
        ]
      ]
