-- ===== src/Std/Number.antt =====
-- std::to_string, std::stoi and std::stoull, in base 10.
use netpilot.Base.{
  ℕ, zero, suc, ◌+◌, ◌-◌, ◌*◌, ◌/◌, ◌%◌, ◌^◌, Bool, true, false, ◌&&◌, ◌||◌, Option, none, some, [],
  ◌∷◌, ◌++◌, ltb, leb, ◌==◌, if◌then◌else◌,
}
use netpilot.Base.Text.{Bytes}

digits_of : ℕ → ℕ → Bytes
digits_of zero n = []
digits_of (suc fuel) n =
    let high = digits_of fuel (n / 10) in
    if ltb n 10 then (48 + n) ∷ [] else high ++ (48 + n % 10) ∷ []

-- 20 digits are enough for 64 bits.
unfoldable pub to_string : ℕ → Bytes
unfolding digits_of
to_string n = digits_of 20 n

abbrev pub is_digit : ℕ → Bool
is_digit c = leb 48 c && leb c 57

-- `isspace` in the C locale.
abbrev is_space : ℕ → Bool
is_space c = c == 32 || leb 9 c && leb c 13

pub skip_space : Bytes → Bytes
skip_space [] = []
skip_space (c ∷ s) = let rest = skip_space s in if is_space c then rest else c ∷ s

-- The value of the digits at the front, after those read before.
pub read_digits : ℕ → Bytes → ℕ
read_digits n [] = n
read_digits n (c ∷ s) =
    let more = read_digits (10 * n + (c - 48)) s in if is_digit c then more else n

pub record Signed : Type 0 where
  pub negative : Bool
  pub magnitude : ℕ

-- No digit: `std::invalid_argument`.
pub read_magnitude : Bool → Bytes → Option Signed
unfolding read_digits
read_magnitude negative [] = none
read_magnitude negative (c ∷ s) =
    if is_digit c
    then some (record { negative = negative; magnitude = read_digits 0 (c ∷ s) })
    else none

pub read_sign : Bytes → Option Signed
unfolding read_magnitude
read_sign [] = none
read_sign (c ∷ s) =
    if c == 45
    then read_magnitude true s
    else if c == 43
    then read_magnitude false s
    else read_magnitude false (c ∷ s)

pub in_int_range : Signed → Option Signed
in_int_range v =
    if leb v.magnitude (if v.negative then 2 ^ 31 else 2 ^ 31 - 1) then some v else none

-- `none` is a thrown exception.
unfoldable pub stoi : Bytes → Option Signed
unfolding skip_space read_sign in_int_range
stoi s = elim (read_sign (skip_space s)) [ none ↦ none | some v ↦ in_int_range v ]

pub wrap_u64 : Signed → Option ℕ
wrap_u64 v =
    if ltb v.magnitude (2 ^ 64)
    then some ((if v.negative then 2 ^ 64 - v.magnitude else v.magnitude) % 2 ^ 64)
    else none

-- A minus sign is accepted, and the value is taken modulo 2 ^ 64.
unfoldable pub stoull : Bytes → Option ℕ
unfolding skip_space read_sign wrap_u64
stoull s = elim (read_sign (skip_space s)) [ none ↦ none | some v ↦ wrap_u64 v ]

-- `static_cast<UINT8>` of an int.
unfoldable pub to_u8 : Signed → ℕ
to_u8 v = if v.negative then (256 - v.magnitude % 256) % 256 else v.magnitude % 256
