-- ===== src/Client/Pipe/Frames.antt =====
-- A frame on the pipe, as Call and ServeClient write and read it.
use netpilot.Base.{
  ℕ, zero, suc, ◌≤◌, ◌≡◌, refl, ap, sym, ◌∙◌, inl, inr, Bool, true, false, Option, some, [], ◌∷◌,
  ◌++◌, arith, append_assoc, append-nil, ◌⊎◌, take-length, length, take, drop, length-append,
  take-append, drop-append, ◌==◌, if◌then◌else◌, not,
}
use netpilot.Base.Text.{Bytes, is_empty}
use netpilot.Protocol.Types.{FrameHeader}
use netpilot.Protocol.Frame.{header_bytes, header_size, length-header_bytes}
use netpilot.Client.Pipe.{Pipe, receive, transmit}
use netpilot.Client.Pipe.Steady.{Steady, transmit_works, transmit_sends, Received, receive_works}

module _ (p : Pipe) where
  -- The header, and the payload unless it is empty.
  unfoldable pub send_frame : FrameHeader → Bytes → p.World → Bool × p.World
  send_frame header payload w =
      let (ok, w') = transmit p (header_bytes header) w in
      let (ok', w'') = transmit p (take header.payload_size payload) w' in
      if not ok then (false, w') else if is_empty payload then (true, w') else (ok', w'')

  unfoldable pub receive_payload : ℕ → p.World → Option Bytes × p.World
  receive_payload size w = if size == 0 then (some [], w) else receive p size w

abbrev pub frame : FrameHeader → Bytes → Bytes
frame header payload = header_bytes header ++ payload

pub take-frame :
    (header : FrameHeader) (payload : Bytes)
    → take header_size (frame header payload) ≡ header_bytes header
take-frame header payload =
    ap (λ (k : ℕ). take k (frame header payload)) (sym (length-header_bytes header))
    ∙ take-append (header_bytes header) payload

pub drop-frame :
    (header : FrameHeader) (payload : Bytes) → drop header_size (frame header payload) ≡ payload
drop-frame header payload =
    ap (λ (k : ℕ). drop k (frame header payload)) (sym (length-header_bytes header))
    ∙ drop-append (header_bytes header) payload

module _ (p : Pipe) (t : Steady p) where
  open t use {writes, incoming}

  is_empty-cases : (bytes : Bytes) → (bytes ≡ []) ⊎ (is_empty bytes ≡ false)
  is_empty-cases [] = inl refl
  is_empty-cases (b ∷ bytes) = inr refl

  -- All of the frame is sent.
  pub send_frame_works :
      (header : FrameHeader) (payload : Bytes) (w : p.World)
      → header.payload_size ≡ length payload
      → (send_frame p header payload w).0 ≡ true
  unfolding send_frame
  send_frame_works header payload w size =
      let w' = (transmit p (header_bytes header) w).1 in
      ground (
        arith,
        transmit_works p t (header_bytes header) w,
        transmit_works p t (take header.payload_size payload) w',
      )

  pub send_frame_sends :
      (header : FrameHeader) (payload : Bytes) (w : p.World)
      → header.payload_size ≡ length payload
      → writes.sent (send_frame p header payload w).1 ≡ writes.sent w ++ frame header payload
  unfolding send_frame
  send_frame_sends header payload w size =
      let head = header_bytes header in
      let w' = (transmit p head w).1 in
      let all : take header.payload_size payload ≡ payload =
        ap (λ (n : ℕ). take n payload) size ∙ take-length payload in
      let first : writes.sent w' ≡ writes.sent w ++ head = transmit_sends p t head w in
      let whole : writes.sent (transmit p (take header.payload_size payload) w').1
          ≡ writes.sent w ++ frame header payload =
        transmit_sends p t (take header.payload_size payload) w'
        ∙ ap (λ (s : Bytes). writes.sent w' ++ s) all
        ∙ ap (λ (s : Bytes). s ++ payload) first
        ∙ append_assoc (writes.sent w) head payload in
      elim (is_empty-cases payload) [
        | inl e ↦
            let alone : writes.sent w' ≡ writes.sent w ++ frame header payload =
              first
              ∙ ap (λ (s : Bytes). writes.sent w ++ s)
                  (sym (append-nil head) ∙ ap (λ (s : Bytes). head ++ s) (sym e)) in
            ground (arith, transmit_works p t head w, e, alone)
        | inr e ↦ ground (arith, transmit_works p t head w, e, whole)
      ]

  pub receive_payload_works :
      (size : ℕ) (w : p.World)
      → size ≤ length (incoming w)
      → Received p t (receive_payload p size w) size w
  unfolding receive_payload
  receive_payload_works zero w there = record { bytes = refl; left = refl; sent = refl }
  receive_payload_works (suc size) w there =
      let e : receive_payload p (suc size) w ≡ receive p (suc size) w = ground arith in
      rw e (receive_works p t (suc size) w there)

  -- A frame that is there is read: its header, and then its payload.
  pub record FrameRead (header : FrameHeader) (payload : Bytes) (w : p.World) : Type 0 where
    pub head : (receive p header_size w).0 ≡ some (header_bytes header)
    pub body : (receive_payload p (length payload) (receive p header_size w).1).0 ≡ some payload
    pub sent :
        writes.sent (receive_payload p (length payload) (receive p header_size w).1).1
        ≡ writes.sent w

  pub receive_frame :
      (header : FrameHeader) (payload : Bytes) (w : p.World)
      → incoming w ≡ frame header payload
      → FrameRead header payload w
  receive_frame header payload w h =
      let w' = (receive p header_size w).1 in
      let sizes = ap (λ (l : Bytes). length l) h ∙ length-append (header_bytes header) payload in
      let head_there : header_size ≤ length (incoming w) =
        omega (arith, sizes, length-header_bytes header) in
      let first = receive_works p t header_size w head_there in
      let rest : incoming w' ≡ payload =
        first.left ∙ ap (λ (l : Bytes). drop header_size l) h ∙ drop-frame header payload in
      let body_there : length payload ≤ length (incoming w') =
        omega (arith, ap (λ (l : Bytes). length l) rest) in
      let second = receive_payload_works (length payload) w' body_there in
      record {
        head =
            first.bytes
            ∙ ap (λ (l : Bytes). some (take header_size l)) h
            ∙ ap (λ (l : Bytes). some l) (take-frame header payload);
        body =
            second.bytes
            ∙ ap (λ (l : Bytes). some (take (length payload) l)) rest
            ∙ ap (λ (l : Bytes). some l) (take-length payload);
        sent = second.sent ∙ first.sent;
      }
