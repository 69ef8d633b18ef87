-- ===== src/Wfp/AppId.antt =====
-- Hex and RuleContext of windows/native/service/wfp_policy.cpp, and AppIdHex of
-- windows/native/service/service_runtime.cpp.
use Prim.Native.Nat.{bit_xor}
use netpilot.Base.{
  ℕ, ◌+◌, ◌-◌, ◌*◌, ◌/◌, ◌%◌, ◌^◌, ◌<◌, ◌≡◌, refl, Bool, ◌&&◌, ◌||◌, Option, none, some, [], ◌∷◌,
  arith, ltb, leb, ◌==◌, if◌then◌else◌, All,
}
use netpilot.Base.Text.{Bytes, IsByte}

-- The value of a hexadecimal digit.
unfoldable pub hex_value : ℕ → Option ℕ
hex_value c =
    if leb 48 c && leb c 57
    then some (c - 48)
    else if leb 97 c && leb c 102
    then some (c - 87)
    else if leb 65 c && leb c 70
    then some (c - 55)
    else none

abbrev is_space : ℕ → Bool
is_space c = c == 32 || leb 9 c && leb c 13

-- `stream >> std::hex >> parsed` on two characters, where `none` is a failed stream: white space
-- is passed over, a sign is taken, and reading ends at the first other character; `0x` with no
-- digit after it fails. The result is the `uint8_t` of the value.
after_digit : ℕ → ℕ → ℕ → Option ℕ
unfolding hex_value
after_digit c v d =
    if c == 48 && (d == 120 || d == 88)
    then none
    else elim (hex_value d) [ none ↦ some v | some u ↦ some (16 * v + u) ]

unfoldable pub hex_pair : ℕ → ℕ → Option ℕ
unfolding hex_value after_digit
hex_pair c d =
    if is_space c || c == 43
    then hex_value d
    else if c == 45
    then elim (hex_value d) [ none ↦ none | some u ↦ some ((256 - u) % 256) ]
    else elim (hex_value c) [ none ↦ none | some v ↦ after_digit c v d ]

-- The loop over the pairs; an odd length or a failed pair gives the empty vector.
hex_loop : Bytes → Option Bytes
unfolding hex_pair
hex_loop [] = some []
hex_loop (c ∷ []) = none
hex_loop (c ∷ d ∷ rest) =
    let more = hex_loop rest in
    elim (hex_pair c d) [
      | none ↦ none
      | some b ↦ elim more [ none ↦ none | some bytes ↦ some (b ∷ bytes) ]
    ]

unfoldable pub hex : Bytes → Bytes
unfolding hex_loop
hex value = elim (hex_loop value) [ none ↦ [] | some bytes ↦ bytes ]

-- The low digits of `std::hex`, in lower case; `setw(2)` with the fill '0' makes two of them.
unfoldable pub hex_digit : ℕ → ℕ
hex_digit v = if ltb v 10 then 48 + v else 87 + v

unfoldable pub app_id_hex : Bytes → Bytes
unfolding hex_digit
app_id_hex [] = []
app_id_hex (b ∷ rest) = hex_digit (b / 16) ∷ hex_digit (b % 16) ∷ app_id_hex rest

hex_value-hex_digit : (v : ℕ) → v < 16 → hex_value (hex_digit v) ≡ some v
unfolding hex_value hex_digit
hex_value-hex_digit v h = ground arith

hex_pair-byte : (b : ℕ) → IsByte b → hex_pair (hex_digit (b / 16)) (hex_digit (b % 16)) ≡ some b
unfolding hex_pair hex_digit
hex_pair-byte b h = ground arith

hex_loop-app_id_hex : (blob : Bytes) → All IsByte blob → hex_loop (app_id_hex blob) ≡ some blob
unfolding hex_loop app_id_hex
hex_loop-app_id_hex [] h = refl
hex_loop-app_id_hex (b ∷ rest) h = ground (arith, hex_pair-byte b h.0, hex_loop-app_id_hex rest h.1)

-- The App ID text that the service derives from a blob, a list of bytes, is read back as that blob.
hex-app_id_hex : (blob : Bytes) → All IsByte blob → hex (app_id_hex blob) ≡ blob
unfolding hex
hex-app_id_hex blob h = ground (arith, hex_loop-app_id_hex blob h)

-- FNV-1a over 64 bits.
fnv_step : ℕ → ℕ → ℕ
fnv_step hash byte = bit_xor hash byte * 1099511628211 % 2 ^ 64

fnv_loop : ℕ → Bytes → ℕ
unfolding fnv_step
fnv_loop hash [] = hash
fnv_loop hash (byte ∷ rest) = fnv_loop (fnv_step hash byte) rest

unfoldable pub rule_context : Bytes → ℕ
unfolding fnv_loop
rule_context value = fnv_loop 1469598103934665603 value
