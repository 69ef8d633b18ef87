-- ===== src/Runner/Base64.antt =====
-- Base64 of windows/runner/windows_app_inspector.cpp.
pub mod Decoded
use netpilot.Base.{ℕ, ◌+◌, ◌*◌, ◌/◌, ◌%◌, List, [], ◌∷◌, get_or}
use netpilot.Base.Text.{Bytes, text}

abbrev table : Bytes
table = text "ABCDEFGHIJKLMNOPQRSTUVWXYZabcdefghijklmnopqrstuvwxyz0123456789+/"

-- `table[i]`
unfoldable pub digit : ℕ → ℕ
digit i = get_or table i 0

-- `(value >> 18) & 0x3f`, and so on: the parts of a value below 2 ^ 24.
abbrev pub part : ℕ → ℕ → ℕ
part value unit = value / unit % 64

-- A turn of the loop takes three bytes, or those that are left.
unfoldable pub base64 : Bytes → Bytes
unfolding digit
base64 [] = []
base64 (a ∷ []) =
    let value = a * 65536 in digit (part value 262144) ∷ digit (part value 4096) ∷ 61 ∷ 61 ∷ []
base64 (a ∷ b ∷ []) =
    let value = a * 65536 + b * 256 in
    digit (part value 262144) ∷ digit (part value 4096) ∷ digit (part value 64) ∷ 61 ∷ []
base64 (a ∷ b ∷ c ∷ rest) =
    let value = a * 65536 + b * 256 + c in
    digit (part value 262144)
    ∷ digit (part value 4096)
    ∷ digit (part value 64)
    ∷ digit (part value 1)
    ∷ base64 rest
