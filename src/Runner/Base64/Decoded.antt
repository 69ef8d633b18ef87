-- ===== src/Runner/Base64/Decoded.antt =====
-- A decoder of Base64, and that it reads back what the encoder wrote.
use netpilot.Base.{
  ℕ, zero, suc, ◌+◌, ◌-◌, ◌*◌, ◌/◌, ◌%◌, ◌<◌, ◌≡◌, refl, ap, Bool, true, false, not, ◌&&◌, [], ◌∷◌,
  arith, All, leb, ◌==◌, if◌then◌else◌,
}
use netpilot.Base.Text.{Bytes, IsByte}
use netpilot.Runner.Base64.{digit, part, base64}

-- The value of a digit, by the ranges of RFC 4648.
unfoldable pub digit_value : ℕ → ℕ
digit_value c =
    if leb 65 c && leb c 90
    then c - 65
    else if leb 97 c && leb c 122
    then c - 71
    else if leb 48 c && leb c 57
    then c + 4
    else if c == 43
    then 62
    else 63

-- Four digits at a time; `=` stands for the digits that the last group does not need.
unfoldable pub decode64 : Bytes → Bytes
unfolding digit_value
decode64 (c0 ∷ c1 ∷ c2 ∷ c3 ∷ rest) =
    let more = decode64 rest in
    let a = (digit_value c0 * 4 + digit_value c1 / 16) % 256 in
    let b = (digit_value c1 * 16 + digit_value c2 / 4) % 256 in
    let c = (digit_value c2 * 64 + digit_value c3) % 256 in
    if c2 == 61 then a ∷ [] else if c3 == 61 then a ∷ b ∷ [] else a ∷ b ∷ c ∷ more
decode64 _ = []

abbrev is_read_back : ℕ → Bool
is_read_back i = digit_value (digit i) == i && not (digit i == 61)

-- So many digits on from one.
digits_read_back : (count first : ℕ) → Bool
digits_read_back zero first = true
digits_read_back (suc count) first =
    let others = digits_read_back count (suc first) in is_read_back first && others

digits_read_back_at :
    (count k first : ℕ)
    → k < count
    → digits_read_back count first ≡ true
    → is_read_back (k + first) ≡ true
unfolding digits_read_back
digits_read_back_at zero k first inside h = absurd (omega arith)
digits_read_back_at (suc count) zero first inside h = ground (arith, h)
digits_read_back_at (suc count) (suc k) first inside h =
    let later : digits_read_back count (suc first) ≡ true = ground (arith, h) in
    let shifted : suc k + first ≡ k + suc first = omega arith in
    rw shifted (digits_read_back_at count k (suc first) (omega arith) later)

whole_table : digits_read_back 64 0 ≡ true
unfolding digits_read_back digit digit_value
whole_table = refl

digit_read_back : (i : ℕ) → i < 64 → is_read_back i ≡ true
digit_read_back i h =
    let same : i + 0 ≡ i = omega arith in
    ground (arith, digits_read_back_at 64 i 0 h whole_table, same)

digit_value-digit : (i : ℕ) → i < 64 → digit_value (digit i) ≡ i
digit_value-digit i h = ground (arith, digit_read_back i h)

digit_no_padding : (i : ℕ) → i < 64 → (digit i == 61) ≡ false
digit_no_padding i h = ground (arith, digit_read_back i h)

part_value : (value unit : ℕ) → digit_value (digit (part value unit)) ≡ part value unit
part_value value unit = digit_value-digit (part value unit) (omega arith)

part_padding : (value unit : ℕ) → (digit (part value unit) == 61) ≡ false
part_padding value unit = digit_no_padding (part value unit) (omega arith)

-- The bytes in three parts of a value.
first_byte :
    (value : ℕ) → (part value 262144 * 4 + part value 4096 / 16) % 256 ≡ value / 65536 % 256
first_byte value = omega arith

second_byte : (value : ℕ) → (part value 4096 * 16 + part value 64 / 4) % 256 ≡ value / 256 % 256
second_byte value = omega arith

third_byte : (value : ℕ) → (part value 64 * 64 + part value 1) % 256 ≡ value % 256
third_byte value = omega arith

-- Decoding what Base64 gives for any bytes gives the bytes.
pub decode64-base64 : (bytes : Bytes) → All IsByte bytes → decode64 (base64 bytes) ≡ bytes
unfolding decode64 base64
decode64-base64 [] h = refl
decode64-base64 (a ∷ []) h =
    let value = a * 65536 in
    let e : value / 65536 % 256 ≡ a = omega arith in
    rw (part_value value 262144, part_value value 4096, first_byte value, e) refl
decode64-base64 (a ∷ b ∷ []) h =
    let value = a * 65536 + b * 256 in
    let e : value / 65536 % 256 ≡ a = omega arith in
    let f : value / 256 % 256 ≡ b = omega arith in
    rw
      (
        part_padding value 64,
        part_value value 262144,
        part_value value 4096,
        part_value value 64,
        first_byte value,
        second_byte value,
        e,
        f,
      )
      refl
decode64-base64 (a ∷ b ∷ c ∷ rest) h =
    let value = a * 65536 + b * 256 + c in
    let e : value / 65536 % 256 ≡ a = omega arith in
    let f : value / 256 % 256 ≡ b = omega arith in
    let g : value % 256 ≡ c = omega arith in
    rw
      (
        part_padding value 64,
        part_padding value 1,
        part_value value 262144,
        part_value value 4096,
        part_value value 64,
        part_value value 1,
        first_byte value,
        second_byte value,
        third_byte value,
        e,
        f,
        g,
      )
      (ap (λ (l : Bytes). a ∷ b ∷ c ∷ l) (decode64-base64 rest h.1.1.1))
