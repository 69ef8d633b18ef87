-- ===== src/Client/Served.antt =====
-- A call of the client and the service's answer to it, over the two ends of a pipe.
use netpilot.Base.{ℕ, ◌≤◌, ◌<◌, ◌^◌, ◌%◌, ◌≡◌, ap, ◌∙◌, true, none, some, [], ◌++◌, arith, length}
use netpilot.Base.Text.{Bytes}
use netpilot.Protocol.Types.{max_frame_bytes}
use netpilot.Protocol.Frame.{
  header_at, header_bytes, header_size, frame_header, header_at-header_bytes,
}
use netpilot.Routes.Net.{Net}
use netpilot.Wfp.Engine.{Engine}
use netpilot.Service.Host.{Host}
use netpilot.Service.State.{Service}
use netpilot.Service.Requests.{dispatch}
use netpilot.Service.Serve.{Peer, authorize_client, client_session, Served, serve_client}
use netpilot.Service.Serve.Answered.{serve_client_answers}
use netpilot.Client.Pipe.{Pipe, receive}
use netpilot.Client.Pipe.Steady.{Steady}
use netpilot.Client.Pipe.Frames.{frame, send_frame_works, send_frame_sends, receive_frame}
use netpilot.Client.Call.{Handles, Answer, send_request, exchange, read_reply, read_response, call}

module _ (p : Pipe) (c : Handles p) (t : Steady p) where
  open t use {writes, incoming}

  -- The reply that is there after the request has been sent is what Call returns.
  exchange_answered :
      (operation : ℕ) (request response error : Bytes) (w : p.World)
      → operation < 2 ^ 16
      → length request ≤ max_frame_bytes
      → length response ≤ max_frame_bytes
      → incoming (send_request p c operation request w).1
        ≡ frame (frame_header operation (length response)) response
      → (exchange p c operation request error w).response ≡ some response
  unfolding exchange read_reply read_response
  exchange_answered operation request response error w narrow short fits arrived =
      let header = frame_header operation (length request % 2 ^ 32) in
      let reply = frame_header operation (length response) in
      let w' = (send_request p c operation request w).1 in
      let r = receive_frame p t reply response w' arrived in
      let sent = send_frame_works p t header request w (omega (arith, short)) in
      let same : header_at (header_bytes reply) ≡ reply =
        header_at-header_bytes operation (length response) narrow (omega (arith, fits)) in
      let first : exchange p c operation request error w ≡ read_reply p c operation error w' =
        ground (arith, sent) in
      let second : read_reply p c operation error w'
          ≡ read_response p c (length response) error (receive p header_size w').1 =
        ground (arith, r.head, same, fits) in
      let third : (read_response p c (length response) error (receive p header_size w').1).response
          ≡ some response =
        ground (arith, r.body) in
      ap (λ (x : Answer p c). x.response) (first ∙ second) ∙ third

module _ (n : Net) (e : Engine) (h : Host) (p : Pipe) (c : Handles p) (t : Steady p) (q : Pipe)
    (u : Steady q) where
  -- What both ends see of a request that is handled.
  pub record Agreed (fuel operation : ℕ) (peer : Peer h) (request response error : Bytes)
      (s s' : Service n e h) (w : p.World) (v : q.World) : Type 0 where
    pub served : Served n e h q
    pub is_served : serve_client n e h q fuel peer s v ≡ some served
    pub ok : served.ok ≡ true
    pub service : served.service ≡ s'
    pub returned : (call p c operation request error w).response ≡ some response

  -- Two ends of a new pipe that does not break: what the client sends comes in at the service, and
  -- what ServeClient sends comes in at the client.
  pub record Connected (fuel operation : ℕ) (peer : Peer h) (request : Bytes) (s : Service n e h)
      (w : p.World) (v : q.World) : Type 0 where
    pub waited : (c.wait w).0 ≡ true
    pub opened : (c.open_pipe (c.wait w).1).0 ≡ true
    pub nothing_sent : t.writes.sent (c.open_pipe (c.wait w).1).1 ≡ []
    pub nothing_answered : u.writes.sent v ≡ []
    pub there :
        u.incoming v
        ≡ t.writes.sent (send_request p c operation request (c.open_pipe (c.wait w).1).1).1
    pub back :
        (o : Served n e h q)
        → serve_client n e h q fuel peer s v ≡ some o
        → t.incoming (send_request p c operation request (c.open_pipe (c.wait w).1).1).1
          ≡ u.writes.sent o.pipe

  -- Over a pipe that does not break, a call of an authorized client is one call of Dispatch: the
  -- service's state is that after the request, and Call returns the response that Dispatch gave,
  -- however the two ends cut the bytes. (A request and a response within the limit of a frame.)
  pub call_served :
      (fuel operation : ℕ) (peer : Peer h) (request response error : Bytes) (s s' : Service n e h)
      (w : p.World) (v : q.World)
      → Connected fuel operation peer request s w v
      → authorize_client n e h q peer s.host ≡ none
      → operation < 2 ^ 16
      → length request ≤ max_frame_bytes
      → length response ≤ max_frame_bytes
      → dispatch n e h fuel operation request (client_session n e h q peer) s ≡ some (response, s')
      → Agreed fuel operation peer request response error s s' w v
  unfolding call
  call_served fuel operation peer request response error s s' w v link allowed narrow short fits
        answer =
      let w0 = (c.open_pipe (c.wait w).1).1 in
      let header = frame_header operation (length request) in
      let whole : length request % 2 ^ 32 ≡ length request = omega (arith, short) in
      let arrived : u.incoming v ≡ frame header request =
        link.there
        ∙ send_frame_sends p t (frame_header operation (length request % 2 ^ 32)) request w0 whole
        ∙ ap (λ (l : Bytes). l ++ frame (frame_header operation (length request % 2 ^ 32)) request)
            link.nothing_sent
        ∙ ap (λ (k : ℕ). frame (frame_header operation k) request) whole in
      let a =
        serve_client_answers n e h q u fuel operation peer request response s s' v allowed narrow
          short arrived answer (omega (arith, fits)) in
      let reply = frame (frame_header operation (length response)) response in
      let came : t.incoming (send_request p c operation request w0).1 ≡ reply =
        link.back a.served a.is_served
        ∙ a.sent
        ∙ ap (λ (l : Bytes). l ++ reply) link.nothing_answered in
      let same : call p c operation request error w ≡ exchange p c operation request error w0 =
        ground (arith, link.waited, link.opened) in
      record {
        served = a.served;
        is_served = a.is_served;
        ok = a.ok;
        service = a.service;
        returned =
            ap (λ (x : Answer p c). x.response) same
            ∙ exchange_answered p c t operation request response error w0 narrow short fits came;
      }
