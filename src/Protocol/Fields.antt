-- ===== src/Protocol/Fields.antt =====
-- Strings, flags, counts and lists of records: what is written reads back.
use netpilot.Base.{
  ℕ, ◌+◌, ◌%◌, ◌^◌, ◌≤◌, ◌<◌, ◌≡◌, refl, sym, subst, Bool, true, false, not, some, List, [], ◌∷◌,
  ◌++◌, arith, ◌==◌, le→ltb, length, All, append-nil, ==_iff,
}
use netpilot.Base.Text.{Bytes}
use netpilot.Protocol.Types.{max_frame_bytes}
use netpilot.Protocol.Buffer.{
  Write, ◌▸◌, write_u32, write_string, write_each, write_flag, write_count, reader, Read, pure,
  ◌>>=◌, read_u8, read_u32, read_string_body, read_string, read_flag, checked_count, read_count,
  read_each, done, decode,
}
use netpilot.Protocol.Trip.{
  Trip, then-Trip, last-Trip, skip-Trip, append-Trip, u8-Trip, u32-Trip, Rest-room, window-Rest,
  Rest-reader, Rest,
}

-- A string that ReadString accepts.
abbrev pub IsText : Bytes → Type 0
IsText s = length s ≤ max_frame_bytes

body-Trip : (s : Bytes) → IsText s → Trip (λ bytes. bytes ++ s) (read_string_body (length s)) s
unfolding read_string_body
body-Trip s h =
    append-Trip s (read_string_body (length s)) s λ r ys rest.
      rw (le→ltb _ _ h, le→ltb _ _ (Rest-room r s ys rest), window-Rest r s ys rest) refl

pub string-Trip : (s : Bytes) → IsText s → Trip (write_string s) read_string s
unfolding write_string read_string
string-Trip s h =
    let e : length s % 2 ^ 32 ≡ length s = omega arith in
    rw (e, write_string)
      (then-Trip (write_u32 (length s)) (λ bytes. bytes ++ s) read_u32 read_string_body (length s) s
        (u32-Trip (length s) (omega arith)) (body-Trip s h))

pub flag-Trip : (b : Bool) → Trip (write_flag b) read_flag b
flag-Trip true = last-Trip (write_flag true) read_u8 (λ v. not (v == 0)) 1 (u8-Trip 1 (omega arith))
flag-Trip false =
    last-Trip (write_flag false) read_u8 (λ v. not (v == 0)) 0 (u8-Trip 0 (omega arith))

count-Trip : (limit n : ℕ) → n ≤ limit → n < 2 ^ 32 → Trip (write_u32 n) (read_count limit) n
unfolding read_count
count-Trip limit n fits h =
    then-Trip (write_u32 n) (λ bytes. bytes) read_u32 (checked_count limit) n n (u32-Trip n h)
      (rw (le→ltb _ _ fits) (skip-Trip n))

module _ {ℓ} {A : Type ℓ} where
  each-Trip :
      (f : A → Write) (p : Read A) (items : List A)
      → All (λ a. Trip (f a) p a) items
      → Trip (write_each f items) (read_each p (length items)) items
  unfolding write_each read_each
  each-Trip f p [] h = skip-Trip []
  each-Trip f p (a ∷ rest) h =
      then-Trip (f a) (write_each f rest) p (λ x. read_each p (length rest) >>= λ xs. pure (x ∷ xs))
        a (a ∷ rest) h.0
        (last-Trip (write_each f rest) (read_each p (length rest)) (◌∷◌ a) rest
          (each-Trip f p rest h.1))

  -- A count and the items.
  pub list-Trip :
      (limit : ℕ) (f : A → Write) (p : Read A) (items : List A)
      → limit < 2 ^ 32
      → length items ≤ limit
      → All (λ a. Trip (f a) p a) items
      → Trip (write_count items ▸ write_each f items) (read_count limit >>= read_each p) items
  list-Trip limit f p items small fits h =
      let e : length items % 2 ^ 32 ≡ length items = omega arith in
      rw e (
        then-Trip (write_u32 (length items)) (write_each f items) (read_count limit) (read_each p)
          (length items) items (count-Trip limit (length items) fits (omega arith))
          (each-Trip f p items h))

  -- A whole message: the decoder takes it all, and so reaches its end.
  pub decode-Trip :
      (f : Write) (p : Read A) (a : A) → Trip f p a → decode p (reader (f [])) ≡ some a
  unfolding done
  decode-Trip f p a h =
      let whole : Rest (reader (f [])) (f [] ++ []) =
        subst (Rest (reader (f []))) (sym (append-nil (f []))) (Rest-reader (f [])) in
      let at_end : ((0 + length (f [])) == length (f [])) ≡ true = (==_iff _ _).1 (omega arith) in
      rw (h.reads (reader (f [])) [] whole, decode, at_end) refl

module _ {ℓ κ} {A : Type ℓ} {P : A → Type κ} where
  pub All-Trip :
      (f : A → Write) (p : Read A) (items : List A)
      → ((a : A) → P a → Trip (f a) p a)
      → All P items
      → All (λ a. Trip (f a) p a) items
  All-Trip f p [] k h = tt
  All-Trip f p (a ∷ rest) k h = (k a h.0, All-Trip f p rest k h.1)
