-- ===== src/Protocol/Buffer.antt =====
-- windows/native/common/netpilot_protocol.cpp: BufferWriter and BufferReader.
-- A writer is the bytes that it holds, and each Write method is a function of them. A reader is
-- the bytes with an offset; a Read method is `none` where the source returns false, and the caller
-- then gives up the reader. Integers are copied in the host's byte order, which on Windows is
-- little-endian; `size_t` has 64 bits, so that an offset plus a size does not wrap.
use netpilot.Base.{
  ℕ, zero, suc, ◌+◌, ◌*◌, ◌/◌, ◌%◌, ◌^◌, Bool, not, ◌||◌, Option, none, some, List, [], ◌∷◌, ◌++◌,
  ltb, ◌==◌, if◌then◌else◌, length, take, drop, get_or,
}
use netpilot.Base.Text.{Bytes}
use netpilot.Protocol.Types.{max_frame_bytes}

abbrev pub Write : Type 0
Write = Bytes → Bytes

-- One write after the other.
infixr 20 ◌▸◌
abbrev pub ◌▸◌ : Write → Write → Write
◌▸◌ f g bytes = g (f bytes)

-- The `sizeof(value)` bytes of an unsigned value.
unfoldable pub le_bytes : ℕ → ℕ → Bytes
le_bytes zero value = []
le_bytes (suc n) value = (value % 256) ∷ le_bytes n (value / 256)

unfoldable pub of_le_bytes : Bytes → ℕ
of_le_bytes [] = 0
of_le_bytes (b ∷ bs) = b + 256 * of_le_bytes bs

unfoldable pub write_u8 : ℕ → Write
write_u8 value bytes = bytes ++ (value % 256) ∷ []

unfoldable pub write_u32 : ℕ → Write
unfolding le_bytes
write_u32 value bytes = bytes ++ le_bytes 4 value

unfoldable pub write_u64 : ℕ → Write
unfolding le_bytes
write_u64 value bytes = bytes ++ le_bytes 8 value

unfoldable pub write_string : Bytes → Write
unfolding write_u32
write_string value bytes = write_u32 (length value % 2 ^ 32) bytes ++ value

-- `WriteU8` of a flag.
abbrev pub write_flag : Bool → Write
write_flag b = write_u8 (if b then 1 else 0)

-- `for (const auto& item : items) write(item)`.
unfoldable pub write_each {ℓ} : {A : Type ℓ} → (A → Write) → List A → Write
write_each f [] bytes = bytes
write_each f (a ∷ rest) bytes = write_each f rest (f a bytes)

abbrev pub write_count {ℓ} : {A : Type ℓ} → List A → Write
write_count items = write_u32 (length items % 2 ^ 32)

pub record Reader : Type 0 where
  pub bytes : Bytes
  pub offset : ℕ

abbrev pub reader : Bytes → Reader
reader bytes = record { bytes = bytes; offset = 0 }

abbrev pub advance : Reader → ℕ → Reader
advance r n = record r { offset = r.offset + n }

abbrev pub Read {ℓ} : Type ℓ → Type ℓ
Read A = Reader → Option (A × Reader)

abbrev pub pure {ℓ} : {A : Type ℓ} → A → Read A
pure a r = some (a, r)

abbrev pub fail {ℓ} : {A : Type ℓ} → Read A
fail r = none

infixl 5 ◌>>=◌
abbrev pub ◌>>=◌ {ℓ κ} : {A : Type ℓ} {B : Type κ} → Read A → (A → Read B) → Read B
◌>>=◌ p f r = elim (p r) [ none ↦ none | some (a, r') ↦ f a r' ]

-- The bytes that a copy of `n` bytes from the offset reads.
abbrev pub window : ℕ → Reader → Bytes
window n r = take n (drop r.offset r.bytes)

unfoldable pub read_u8 : Read ℕ
read_u8 r =
    if ltb (length r.bytes) (r.offset + 1)
    then none
    else some (get_or r.bytes r.offset 0, advance r 1)

unfoldable pub read_u32 : Read ℕ
unfolding of_le_bytes
read_u32 r =
    if ltb (length r.bytes) (r.offset + 4)
    then none
    else some (of_le_bytes (window 4 r), advance r 4)

unfoldable pub read_u64 : Read ℕ
unfolding of_le_bytes
read_u64 r =
    if ltb (length r.bytes) (r.offset + 8)
    then none
    else some (of_le_bytes (window 8 r), advance r 8)

-- The rest of `ReadString`, after its size is read.
unfoldable pub read_string_body : ℕ → Read Bytes
read_string_body size r =
    if ltb max_frame_bytes size || ltb (length r.bytes) (r.offset + size)
    then none
    else some (window size r, advance r size)

unfoldable pub read_string : Read Bytes
unfolding read_u32 read_string_body
read_string = do size ← read_u32; read_string_body size

-- A flag that was read: `value != 0`.
abbrev pub read_flag : Read Bool
read_flag = do value ← read_u8; pure (not (value == 0))

-- `ReadU32(&count) && !(count > limit)`.
abbrev pub checked_count : ℕ → ℕ → Read ℕ
checked_count limit count = if ltb limit count then fail else pure count

unfoldable pub read_count : ℕ → Read ℕ
unfolding read_u32
read_count limit = do count ← read_u32; checked_count limit count

-- `for (i = 0; i < count; ++i) { read the item; push_back(item) }`.
unfoldable pub read_each {ℓ} : {A : Type ℓ} → Read A → ℕ → Read (List A)
read_each p zero = pure []
read_each p (suc n) = do a ← p; rest ← read_each p n; pure (a ∷ rest)

-- A count and as many items, in both directions.
abbrev pub write_list {ℓ} : {A : Type ℓ} → (A → Write) → List A → Write
write_list f items = write_count items ▸ write_each f items

abbrev pub read_list {ℓ} : {A : Type ℓ} → ℕ → Read A → Read (List A)
read_list limit p = read_count limit >>= read_each p

unfoldable pub done : Reader → Bool
done r = r.offset == length r.bytes

-- A decoder's last line, `return reader->done()`.
abbrev pub finish {ℓ} : {A : Type ℓ} → A → Reader → Option A
finish a r = if done r then some a else none

-- A decoder: its fields one after the other, then `finish`.
abbrev pub decode {ℓ} : {A : Type ℓ} → Read A → Reader → Option A
decode p r = elim (p r) [ none ↦ none | some (a, r') ↦ finish a r' ]
