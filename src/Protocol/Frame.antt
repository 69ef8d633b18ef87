-- ===== src/Protocol/Frame.antt =====
-- FrameHeader in memory, and its checks at the two ends of the pipe.
use netpilot.Base.{
  ℕ, ◌<◌, ◌^◌, ◌≡◌, refl, Bool, not, ◌&&◌, ◌++◌, ◌==◌, ltb, arith, length, take, drop,
}
use netpilot.Base.Text.{Bytes}
use netpilot.Protocol.Types.{FrameHeader, protocol_magic, protocol_version, max_frame_bytes}
use netpilot.Protocol.Buffer.{le_bytes, of_le_bytes}
use netpilot.Protocol.Trip.{of_le_bytes-le_bytes}

-- `sizeof(FrameHeader)`, which is packed.
abbrev pub header_size : ℕ
header_size = 12

unfoldable pub header_bytes : FrameHeader → Bytes
unfolding le_bytes
header_bytes h =
    le_bytes 4 h.magic
    ++ (le_bytes 2 h.version ++ (le_bytes 2 h.operation ++ le_bytes 4 h.payload_size))

unfoldable pub header_at : Bytes → FrameHeader
unfolding of_le_bytes
header_at bytes = record {
  magic = of_le_bytes (take 4 bytes);
  version = of_le_bytes (take 2 (drop 4 bytes));
  operation = of_le_bytes (take 2 (drop 6 bytes));
  payload_size = of_le_bytes (take 4 (drop 8 bytes));
}

-- A frame that is not malformed.
abbrev pub is_frame : FrameHeader → Bool
is_frame h =
    h.magic == protocol_magic
    && (h.version == protocol_version && not (ltb max_frame_bytes h.payload_size))

abbrev pub frame_header : ℕ → ℕ → FrameHeader
frame_header operation size = record {
  magic = protocol_magic;
  version = protocol_version;
  operation = operation;
  payload_size = size;
}

pub length-header_bytes : (h : FrameHeader) → length (header_bytes h) ≡ header_size
unfolding header_bytes le_bytes
length-header_bytes h = refl

pub header_at-header_bytes :
    (operation size : ℕ)
    → operation < 2 ^ 16
    → size < 2 ^ 32
    → header_at (header_bytes (frame_header operation size)) ≡ frame_header operation size
unfolding header_at header_bytes
header_at-header_bytes operation size narrow small =
    let back = of_le_bytes-le_bytes in
    cc (
      back 4 protocol_magic (omega arith),
      back 2 operation (omega arith),
      back 4 size (omega arith),
    )
