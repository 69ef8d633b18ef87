-- ===== src/Service/Serve/Guarded.antt =====
-- What reaches Dispatch.
use netpilot.Base.{
  ℕ, ◌≡◌, refl, ap, ◌∙◌, ◌⊎◌, inl, inr, true, false, none, some, List, [], ◌∷◌, ◌++◌, arith,
  Bool-cases, Option-cases,
}
use netpilot.Base.Text.{Bytes, text}
use netpilot.Protocol.Types.{FrameHeader}
use netpilot.Protocol.Frame.{header_at, header_size, is_frame}
use netpilot.Diagnostics.{log_all}
use netpilot.Routes.Net.{Net}
use netpilot.Wfp.Engine.{Engine}
use netpilot.Service.Host.{Host}
use netpilot.Service.State.{Service}
use netpilot.Service.Requests.{dispatch, log_to}
use netpilot.Client.Pipe.{Pipe, receive}
use netpilot.Client.Pipe.Frames.{receive_payload}
use netpilot.Service.Serve.{
  Peer, authorize_client, client_session, Served, answer_request, reject, serve_request,
  serve_client,
}

module _ (n : Net) (e : Engine) (h : Host) (p : Pipe) where
  -- The client is authorized, the header that was read from the pipe is that of a frame, the payload
  -- is what was read after it, and the state is that after the request.
  pub record Dispatched (fuel : ℕ) (peer : Peer h) (s : Service n e h) (w : p.World)
      (o : Served n e h p) : Type 0 where
    pub allowed : authorize_client n e h p peer s.host ≡ none
    pub head : Bytes
    pub read : (receive p header_size w).0 ≡ some head
    pub header : FrameHeader
    pub decoded : header ≡ header_at head
    pub whole : is_frame header ≡ true
    pub payload : Bytes
    pub rest : (receive_payload p header.payload_size (receive p header_size w).1).0 ≡ some payload
    pub response : Bytes
    pub answer :
        dispatch n e h fuel header.operation payload (client_session n e h p peer) s
        ≡ some (response, o.service)

  -- The answer is false, and the state has at most one more line in its log.
  pub record TurnedAway (s : Service n e h) (o : Served n e h p) : Type 0 where
    pub refused : o.ok ≡ false
    pub logged : List Bytes
    pub one_line : (logged ≡ []) ⊎ ((line : Bytes) × (logged ≡ line ∷ []))
    pub service : o.service ≡ log_to n e h logged s

  rejected :
      (line : Bytes) (s : Service n e h) (w : p.World) (o : Served n e h p)
      → reject n e h p line s w ≡ some o
      → TurnedAway s o
  unfolding reject
  rejected line s w o out = record {
    refused = ground (arith, out);
    logged = line ∷ [];
    one_line = inr (line, refl);
    service = ground (arith, out);
  }

  log_to_none : (s : Service n e h) → s ≡ log_to n e h [] s
  unfolding log_to log_all
  log_to_none s = refl

  -- A request is handled only for an authorized client and if the bytes that it sent begin with the
  -- header of a frame that is not malformed; it is the operation of that header, on the payload that
  -- follows it, with the session of that client. In every other case ServeClient answers false, and changes nothing of
  -- the service but for one line of its log.
  pub serve_client_cases :
      (fuel : ℕ) (peer : Peer h) (s : Service n e h) (w : p.World) (o : Served n e h p)
      → serve_client n e h p fuel peer s w ≡ some o
      → Dispatched fuel peer s w o ⊎ TurnedAway s o
  unfolding serve_client serve_request answer_request
  serve_client_cases fuel peer s w o out =
      let w' = (receive p header_size w).1 in
      elim (Option-cases (authorize_client n e h p peer s.host)) [
        | inr (error, denied) ↦ inr (
            rejected (text "Rejected service client: " ++ error) s w o
              (ground (arith, denied, out)))
        | inl allowed ↦ elim (Option-cases (receive p header_size w).0) [
          | inl broken ↦ inr (
              rejected (text "Rejected malformed service frame") s w' o
                (ground (arith, allowed, broken, out)))
          | inr (bytes, read) ↦
              let header = header_at bytes in
              elim (Bool-cases (is_frame header)) [
                | inr malformed ↦ inr (
                    rejected (text "Rejected malformed service frame") s w' o
                      (ground (arith, allowed, read, malformed, out)))
                | inl whole ↦ elim (Option-cases (receive_payload p header.payload_size w').0) [
                  | inl cut ↦
                      let same : o.service ≡ s = ground (arith, allowed, read, whole, cut, out) in
                      inr (record {
                        refused = ground (arith, allowed, read, whole, cut, out);
                        logged = [];
                        one_line = inl refl;
                        service = same ∙ log_to_none s;
                      })
                  | inr (payload, got) ↦
                      elim (Option-cases (
                        dispatch n e h fuel header.operation payload (client_session n e h p peer)
                          s)) [
                            | inl stuck ↦
                                absurd (ground (arith, allowed, read, whole, got, stuck, out))
                            | inr ((response, s'), answer) ↦
                                let same : s' ≡ o.service =
                                  ground (arith, allowed, read, whole, got, answer, out) in
                                inl (record {
                                  allowed = allowed;
                                  head = bytes;
                                  read = read;
                                  header = header;
                                  decoded = refl;
                                  whole = whole;
                                  payload = payload;
                                  rest = got;
                                  response = response;
                                  answer =
                                      answer ∙ ap (λ (x : Service n e h). some (response, x)) same;
                                })
                          ]
                ]
              ]
        ]
      ]
