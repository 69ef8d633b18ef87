-- ===== src/Client/Pipe/Steady.antt =====
-- WriteAll and ReadAll on a pipe that does not break: each call moves at least a byte.
use netpilot.Base.{
  ℕ, zero, suc, ◌+◌, ◌-◌, ◌≤◌, ◌≡◌, refl, ap, sym, ◌∙◌, true, false, Option, some, [], ◌∷◌, ◌++◌,
  arith, length, take, drop, length-drop, length-take_le, take-add, drop-drop,
}
use netpilot.Base.Text.{Bytes, is_empty}
use netpilot.Client.Pipe.{
  Pipe, Writes, prepend, write_all, write_all_sent, read_all, receive, transmit,
}

-- What ReadFile answers where there are bytes: at least one of them, and at most as many as asked for.
pub record Got (p : Pipe) (incoming : p.World → Bytes) (size : ℕ) (w : p.World) : Type 0 where
  pub more : ℕ
  pub fits : more ≤ size
  pub read : (p.read_file (suc size) w).0 ≡ some (take (suc more) (incoming w))
  pub left : incoming (p.read_file (suc size) w).1 ≡ drop (suc more) (incoming w)

pub record Steady (p : Pipe) : Type 0 where
  pub writes : Writes p
  pub incoming : p.World → Bytes
  pub moves :
      (b : ℕ) (bytes : Bytes) (w : p.World)
      → (k : ℕ) × ((p.write_file (b ∷ bytes) w).0 ≡ some (suc k))
  pub gets : (size : ℕ) (w : p.World) → 1 ≤ length (incoming w) → Got p incoming size w
  pub read_keeps : (size : ℕ) (w : p.World) → writes.sent (p.read_file size w).1 ≡ writes.sent w

module _ (p : Pipe) (t : Steady p) where
  open t use {writes, incoming}

  write_all_works :
      (fuel : ℕ) (bytes : Bytes) (w : p.World)
      → length bytes ≤ fuel
      → (write_all p fuel bytes w).0 ≡ some true
  unfolding write_all
  write_all_works fuel [] w enough = refl
  write_all_works zero (b ∷ bytes) w enough = absurd (omega arith)
  write_all_works (suc fuel) (b ∷ bytes) w enough =
      let (k, wrote) = t.moves b bytes w in
      let short : length (drop k bytes) ≤ fuel = omega (arith, length-drop k bytes) in
      ground
        (arith, wrote, write_all_works fuel (drop k bytes) (p.write_file (b ∷ bytes) w).1 short)

  -- All of the bytes are sent.
  pub transmit_works : (bytes : Bytes) (w : p.World) → (transmit p bytes w).0 ≡ true
  unfolding transmit
  transmit_works bytes w =
      let done = write_all_works (length bytes) bytes w (omega arith) in ground (arith, done)

  pub transmit_sends :
      (bytes : Bytes) (w : p.World) → writes.sent (transmit p bytes w).1 ≡ writes.sent w ++ bytes
  unfolding transmit
  transmit_sends bytes w =
      let done = write_all_works (length bytes) bytes w (omega arith) in
      ground (arith, done, write_all_sent p writes (length bytes) bytes w done)

  -- ReadAll of bytes that are there.
  record Read (out : Option (Option Bytes) × p.World) (size : ℕ) (w : p.World) : Type 0 where
    bytes : out.0 ≡ some (some (take size (incoming w)))
    left : incoming out.1 ≡ drop size (incoming w)
    sent : writes.sent out.1 ≡ writes.sent w

  read_all_step :
      (fuel size : ℕ) (w : p.World) (bytes : Bytes)
      → (p.read_file (suc size) w).0 ≡ some bytes
      → is_empty bytes ≡ false
      → read_all p (suc fuel) (suc size) w ≡ (
        prepend bytes (read_all p fuel (suc size - length bytes) (p.read_file (suc size) w).1).0,
        (read_all p fuel (suc size - length bytes) (p.read_file (suc size) w).1).1,
      )
  unfolding read_all
  read_all_step fuel size w bytes read some_bytes = ground (arith, read, some_bytes)

  some_bytes : (k : ℕ) (bytes : Bytes) → length bytes ≡ suc k → is_empty bytes ≡ false
  some_bytes k [] h = absurd (omega (arith, h))
  some_bytes k (b ∷ bytes) h = refl

  read_all_works :
      (fuel size : ℕ) (w : p.World)
      → size ≤ length (incoming w)
      → size ≤ fuel
      → Read (read_all p fuel size w) size w
  unfolding read_all prepend
  read_all_works fuel zero w there enough = record { bytes = refl; left = refl; sent = refl }
  read_all_works zero (suc size) w there enough = absurd (omega arith)
  read_all_works (suc fuel) (suc size) w there enough =
      let got = t.gets size w (omega (arith, there)) in
      let k = got.more in
      let all = incoming w in
      let w' = (p.read_file (suc size) w).1 in
      let front = take (suc k) all in
      let fit : length front ≡ suc k =
        length-take_le (suc k) all (omega (arith, there, got.fits)) in
      let split : suc size - length front ≡ size - k = omega (arith, fit) in
      let rest_there : length (incoming w') ≡ length all - suc k =
        ap (λ (l : Bytes). length l) got.left ∙ length-drop (suc k) all in
      let next =
        read_all_works fuel (size - k) w' (omega (arith, rest_there, there))
          (omega (arith, enough)) in
      let sum : suc k + (size - k) ≡ suc size = omega (arith, got.fits) in
      let step = read_all_step fuel size w front got.read (some_bytes k front fit) in
      let whole : front ++ take (size - k) (drop (suc k) all) ≡ take (suc size) all =
        sym (take-add (suc k) (size - k) all) ∙ ap (λ (n : ℕ). take n all) sum in
      let remainder : drop (size - k) (drop (suc k) all) ≡ drop (suc size) all =
        sym (drop-drop (suc k) (size - k) all) ∙ ap (λ (n : ℕ). drop n all) sum in
      rw (step, split)
        (record {
          bytes = rw (next.bytes, got.left) (ap (λ (l : Bytes). some (some l)) whole);
          left = rw (next.left, got.left) remainder;
          sent = next.sent ∙ t.read_keeps (suc size) w;
        })

  pub record Received (out : Option Bytes × p.World) (size : ℕ) (w : p.World) : Type 0 where
    pub bytes : out.0 ≡ some (take size (incoming w))
    pub left : incoming out.1 ≡ drop size (incoming w)
    pub sent : writes.sent out.1 ≡ writes.sent w

  pub receive_works :
      (size : ℕ) (w : p.World) → size ≤ length (incoming w) → Received (receive p size w) size w
  unfolding receive
  receive_works size w there =
      let r = read_all_works size size w there (omega arith) in
      record {
        bytes = ground (arith, r.bytes);
        left = ground (arith, r.bytes, r.left);
        sent = ground (arith, r.bytes, r.sent);
      }
