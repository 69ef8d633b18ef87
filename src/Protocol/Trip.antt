-- ===== src/Protocol/Trip.antt =====
-- What a write appends, the matching read takes off, whatever follows.
use netpilot.Base.{
  ℕ, zero, suc, ◌+◌, ◌/◌, ◌%◌, ◌^◌, ◌≤◌, ◌<◌, ◌≡◌, refl, sym, ap, ◌∙◌, subst, some, [], ◌∷◌, ◌++◌,
  append_assoc, append-nil, arith, le→ltb, length, take, drop, length-append, take-append,
  drop-append, drop-drop, get_or-drop,
}
use native.Mathlib.Nat.{pow-suc}
use netpilot.Base.Text.{Bytes}
use netpilot.Protocol.Buffer.{
  Write, ◌▸◌, le_bytes, of_le_bytes, write_u8, write_u32, write_u64, Reader, reader, advance, Read,
  pure, ◌>>=◌, window, read_u8, read_u32, read_u64,
}

-- The bytes from the offset on are `xs`, and the offset is within the buffer.
pub record Rest (r : Reader) (xs : Bytes) : Type 0 where
  pub left : drop r.offset r.bytes ≡ xs
  pub room : r.offset + length xs ≡ length r.bytes

pub Rest-reader : (xs : Bytes) → Rest (reader xs) xs
Rest-reader xs = record { left = refl; room = omega arith }

pub Rest-advance :
    (r : Reader) (xs ys : Bytes) → Rest r (xs ++ ys) → Rest (advance r (length xs)) ys
Rest-advance r xs ys h = record {
  left = drop-drop r.offset (length xs) r.bytes ∙ ap (drop (length xs)) h.left ∙ drop-append xs ys;
  room = omega (arith, h.room, length-append xs ys);
}

-- `p` reads `a` off `xs`.
abbrev pub Reads {ℓ} : {A : Type ℓ} → Read A → Bytes → A → Type ℓ
Reads p xs a = (r : Reader) (ys : Bytes) → Rest r (xs ++ ys) → p r ≡ some (a, advance r (length xs))

-- `f` appends the same bytes to any writer.
abbrev pub Appends : Write → Type 0
Appends f = (bytes : Bytes) → f bytes ≡ bytes ++ f []

pub record Trip {ℓ} {A : Type ℓ} (f : Write) (p : Read A) (a : A) : Type ℓ where
  pub appends : Appends f
  pub reads : Reads p (f []) a

module _ {ℓ κ} {A : Type ℓ} {B : Type κ} where
  pub then-Trip :
      (f g : Write) (p : Read A) (k : A → Read B) (a : A) (b : B)
      → Trip f p a
      → Trip g (k a) b
      → Trip (f ▸ g) (p >>= k) b
  then-Trip f g p k a b hf hg = record { appends = together; reads = read_both }
    where
      split : g (f []) ≡ f [] ++ g []
      split = hg.appends (f [])

      together : Appends (f ▸ g)
      together bytes =
          ap g (hf.appends bytes)
          ∙ hg.appends (bytes ++ f [])
          ∙ append_assoc bytes (f []) (g [])
          ∙ ap (◌++◌ bytes) (sym split)

      read_both : Reads (p >>= k) (g (f [])) b
      read_both r ys h =
          let h' : Rest r (f [] ++ (g [] ++ ys)) =
            subst (Rest r) (ap (λ (xs : Bytes). xs ++ ys) split ∙ append_assoc (f []) (g []) ys)
              h in
          let r' : Reader = advance r (length (f [])) in
          let second : k a r' ≡ some (b, advance r' (length (g []))) =
            hg.reads r' ys (Rest-advance r (f []) (g [] ++ ys) h') in
          let far : r'.offset + length (g []) ≡ r.offset + length (g (f [])) =
            omega (arith, ap length split, length-append (f []) (g [])) in
          rw (hf.reads r (g [] ++ ys) h', ◌>>=◌)
            (second ∙ ap (λ (n : ℕ). some (b, record r { offset = n })) far)

  -- The last field of a record: the value is made of what was read.
  pub last-Trip :
      (f : Write) (p : Read A) (k : A → B) (a : A)
      → Trip f p a
      → Trip f (p >>= λ x. pure (k x)) (k a)
  last-Trip f p k a h = record {
    appends = h.appends;
    reads = λ r ys rest. rw (h.reads r ys rest, ◌>>=◌);
  }

pub skip-Trip {ℓ} : {A : Type ℓ} (a : A) → Trip (λ bytes. bytes) (pure a) a
skip-Trip a = record {
  appends = λ bytes. sym (append-nil bytes);
  reads = λ r ys h. ap (λ (n : ℕ). some (a, record r { offset = n })) (omega arith);
}

-- The integers.

length-le_bytes : (n value : ℕ) → length (le_bytes n value) ≡ n
unfolding le_bytes
length-le_bytes zero value = refl
length-le_bytes (suc n) value = ap suc (length-le_bytes n (value / 256))

pub of_le_bytes-le_bytes : (n value : ℕ) → value < 256 ^ n → of_le_bytes (le_bytes n value) ≡ value
unfolding le_bytes of_le_bytes
of_le_bytes-le_bytes zero value h = omega arith
of_le_bytes-le_bytes (suc n) value h =
    omega (arith, of_le_bytes-le_bytes n (value / 256) (omega (arith, pow-suc 256 n)))

pub append-Trip {ℓ} :
    {A : Type ℓ} (xs : Bytes) (p : Read A) (a : A) → Reads p xs a → Trip (λ bytes. bytes ++ xs) p a
append-Trip xs p a h = record { appends = λ bytes. refl; reads = h }

-- The test of a Read method passes where the bytes are there.
pub Rest-room :
    (r : Reader) (xs ys : Bytes) → Rest r (xs ++ ys) → r.offset + length xs ≤ length r.bytes
Rest-room r xs ys h = omega (arith, h.room, length-append xs ys)

pub window-Rest : (r : Reader) (xs ys : Bytes) → Rest r (xs ++ ys) → window (length xs) r ≡ xs
window-Rest r xs ys h = ap (take (length xs)) h.left ∙ take-append xs ys

pub u8-Trip : (value : ℕ) → value < 256 → Trip (write_u8 value) read_u8 value
unfolding write_u8 read_u8
u8-Trip value h = append-Trip ((value % 256) ∷ []) read_u8 value λ r ys rest.
    rw
      (
        le→ltb _ _ (Rest-room r ((value % 256) ∷ []) ys rest),
        get_or-drop r.offset r.bytes 0,
        rest.left,
      )
      (ap (λ (v : ℕ). some (v, advance r 1)) (omega arith))

pub u32-Trip : (value : ℕ) → value < 2 ^ 32 → Trip (write_u32 value) read_u32 value
unfolding write_u32 read_u32
u32-Trip value h = append-Trip (le_bytes 4 value) read_u32 value λ r ys rest.
    rw
      (
        le→ltb _ _ (Rest-room r (le_bytes 4 value) ys rest),
        window-Rest r (le_bytes 4 value) ys rest,
        of_le_bytes-le_bytes 4 value (omega arith),
      )
      refl

pub u64-Trip : (value : ℕ) → value < 2 ^ 64 → Trip (write_u64 value) read_u64 value
unfolding write_u64 read_u64
u64-Trip value h = append-Trip (le_bytes 8 value) read_u64 value λ r ys rest.
    rw
      (
        le→ltb _ _ (Rest-room r (le_bytes 8 value) ys rest),
        window-Rest r (le_bytes 8 value) ys rest,
        of_le_bytes-le_bytes 8 value (omega arith),
      )
      refl
