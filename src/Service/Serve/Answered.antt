-- ===== src/Service/Serve/Answered.antt =====
-- ServeClient on a whole frame of an authorized client.
use netpilot.Base.{ℕ, ◌≤◌, ◌<◌, ◌^◌, ◌%◌, ◌≡◌, refl, ap, ◌∙◌, true, none, some, ◌++◌, arith, length}
use netpilot.Base.Text.{Bytes}
use netpilot.Protocol.Types.{max_frame_bytes}
use netpilot.Protocol.Frame.{
  header_at, header_bytes, header_size, frame_header, header_at-header_bytes,
}
use netpilot.Routes.Net.{Net}
use netpilot.Wfp.Engine.{Engine}
use netpilot.Service.Host.{Host}
use netpilot.Service.State.{Service}
use netpilot.Service.Requests.{dispatch}
use netpilot.Client.Pipe.{Pipe, receive}
use netpilot.Client.Pipe.Steady.{Steady}
use netpilot.Client.Pipe.Frames.{
  frame, send_frame, send_frame_works, send_frame_sends, receive_payload, receive_frame,
}
use netpilot.Service.Serve.{
  Peer, authorize_client, client_session, Served, answer_request, serve_request, serve_client,
}

module _ (n : Net) (e : Engine) (h : Host) (p : Pipe) (t : Steady p) where
  open t use {writes, incoming}

  -- What ServeClient does with the answer of Dispatch.
  pub record Answers (fuel operation : ℕ) (peer : Peer h) (s s' : Service n e h) (response : Bytes)
      (w : p.World) : Type 0 where
    pub served : Served n e h p
    pub is_served : serve_client n e h p fuel peer s w ≡ some served
    pub ok : served.ok ≡ true
    pub service : served.service ≡ s'
    pub sent :
        writes.sent served.pipe
        ≡ writes.sent w ++ frame (frame_header operation (length response)) response

  pub serve_client_answers :
      (fuel operation : ℕ) (peer : Peer h) (request response : Bytes) (s s' : Service n e h)
      (w : p.World)
      → authorize_client n e h p peer s.host ≡ none
      → operation < 2 ^ 16
      → length request ≤ max_frame_bytes
      → incoming w ≡ frame (frame_header operation (length request)) request
      → dispatch n e h fuel operation request (client_session n e h p peer) s ≡ some (response, s')
      → length response < 2 ^ 32
      → Answers fuel operation peer s s' response w
  unfolding serve_client serve_request answer_request
  serve_client_answers fuel operation peer request response s s' w allowed narrow short arrived
        answer fits =
      let header = frame_header operation (length request) in
      let reply = frame_header operation (length response) in
      let r = receive_frame p t header request w arrived in
      let w' = (receive p header_size w).1 in
      let w'' = (receive_payload p (length request) w').1 in
      let same : header_at (header_bytes header) ≡ header =
        header_at-header_bytes operation (length request) narrow (omega (arith, short)) in
      let whole : length response % 2 ^ 32 ≡ length response = omega (arith, fits) in
      let first : serve_client n e h p fuel peer s w ≡ serve_request n e h p fuel peer header s w' =
        ground (arith, allowed, r.head, same) in
      let second : serve_request n e h p fuel peer header s w'
          ≡ answer_request n e h p fuel peer header request s w'' =
        ground (arith, r.body, short) in
      let third : answer_request n e h p fuel peer header request s w''
          ≡ some (record {
            ok = (send_frame p reply response w'').0;
            service = s';
            pipe = (send_frame p reply response w'').1;
          }) =
        rw (answer, answer_request, whole) refl in
      record {
        served = _;
        is_served = first ∙ second ∙ third;
        ok = send_frame_works p t reply response w'' refl;
        service = refl;
        sent =
            send_frame_sends p t reply response w'' refl
            ∙ ap (λ (l : Bytes). l ++ frame reply response) r.sent;
      }
