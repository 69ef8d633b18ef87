-- ===== src/Client/Pipe.antt =====
-- WriteAll and ReadAll of service_client.cpp, which service_runtime.cpp has too: the loops around
-- WriteFile and ReadFile.
pub mod Steady
pub mod Frames
use netpilot.Base.{
  ℕ, zero, suc, ◌-◌, ◌≤◌, ◌≡◌, ◌≢◌, sym, ap, ◌∙◌, inl, inr, Bool, true, false, Option, none, some,
  [], ◌∷◌, ◌++◌, append_assoc, append-nil, ◌==◌, arith, if◌then◌else◌, length, take, drop,
  length-drop, take-append-drop, Option-cases, Bool-cases,
}
use netpilot.Base.Text.{Bytes, is_empty}

-- WriteFile and ReadFile on the pipe: the number of bytes written, and at most so many bytes read,
-- or `none` for a failure.
pub record Pipe : Type 1 where
  pub World : Type 0
  pub write_file : Bytes → World → Option ℕ × World
  pub read_file : ℕ → World → Option Bytes × World

-- WriteFile writes a front of what it is given.
pub record Writes (p : Pipe) : Type 0 where
  pub sent : p.World → Bytes
  pub within :
      (bytes : Bytes) (w : p.World) (k : ℕ) → (p.write_file bytes w).0 ≡ some k → k ≤ length bytes
  pub front :
      (bytes : Bytes) (w : p.World) (k : ℕ)
      → (p.write_file bytes w).0 ≡ some k
      → sent (p.write_file bytes w).1 ≡ sent w ++ take k bytes

pub prepend : Bytes → Option (Option Bytes) → Option (Option Bytes)
prepend bytes none = none
prepend bytes (some none) = some none
prepend bytes (some (some rest)) = some (some (bytes ++ rest))

module _ (p : Pipe) where
  -- Each turn writes a byte or ends, so that as much fuel as there are bytes is enough.
  unfoldable pub write_all : ℕ → Bytes → p.World → Option Bool × p.World
  write_all fuel [] w = (some true, w)
  write_all zero (b ∷ bytes) w = (none, w)
  write_all (suc fuel) (b ∷ bytes) w =
      let (written, w') = p.write_file (b ∷ bytes) w in
      elim written [
        | none ↦ (some false, w')
        | some k ↦ if k == 0 then (some false, w') else write_all fuel (drop k (b ∷ bytes)) w'
      ]

  -- ReadAll: `some none` is false, and else the bytes that were read.
  unfoldable pub read_all : ℕ → ℕ → p.World → Option (Option Bytes) × p.World
  read_all fuel zero w = (some (some []), w)
  read_all zero (suc size) w = (none, w)
  read_all (suc fuel) (suc size) w =
      let (read, w') = p.read_file (suc size) w in
      elim read [
        | none ↦ (some none, w')
        | some bytes ↦
            let (rest, w'') = read_all fuel (suc size - length bytes) w' in
            if is_empty bytes then (some none, w') else (prepend bytes rest, w'')
      ]

  rest_fits :
      (t : Writes p) (fuel k : ℕ) (bytes : Bytes) (w : p.World)
      → length bytes ≤ suc fuel
      → (p.write_file bytes w).0 ≡ some k
      → (k == 0) ≡ false
      → length (drop k bytes) ≤ fuel
  rest_fits t fuel k bytes w enough wrote moved =
      let one : 1 ≤ k = ground (arith, moved) in
      omega (arith, length-drop k bytes, t.within bytes w k wrote, enough, one)

  -- WriteAll comes to an answer on as much fuel as there are bytes. (WriteFile is taken to write a
  -- front of what it is given.)
  write_all_total :
      (t : Writes p) (fuel : ℕ) (bytes : Bytes) (w : p.World)
      → length bytes ≤ fuel
      → (write_all fuel bytes w).0 ≢ none
  unfolding write_all
  write_all_total t fuel [] w enough = λ out. cc
  write_all_total t zero (b ∷ bytes) w enough = λ out. absurd (omega arith)
  write_all_total t (suc fuel) (b ∷ bytes) w enough = λ out.
      elim (Option-cases (p.write_file (b ∷ bytes) w).0) [
        | inl broken ↦ ground (arith, broken)
        | inr (k, wrote) ↦ elim (Bool-cases (k == 0)) [
          | inl stuck ↦ ground (arith, wrote, stuck)
          | inr moved ↦
              write_all_total t fuel (drop k (b ∷ bytes)) (p.write_file (b ∷ bytes) w).1
                (rest_fits t fuel k (b ∷ bytes) w enough wrote moved) (ground (arith, wrote, moved))
        ]
      ]

  -- If WriteAll answers true, exactly the bytes given were sent, in order, however WriteFile cut
  -- them. (WriteFile is taken to write a front of what it is given.)
  pub write_all_sent :
      (t : Writes p) (fuel : ℕ) (bytes : Bytes) (w : p.World)
      → (write_all fuel bytes w).0 ≡ some true
      → t.sent (write_all fuel bytes w).1 ≡ t.sent w ++ bytes
  unfolding write_all
  write_all_sent t fuel [] w h = sym (append-nil (t.sent w))
  write_all_sent t zero (b ∷ bytes) w h = absurd (cc h)
  write_all_sent t (suc fuel) (b ∷ bytes) w h =
      let all = b ∷ bytes in
      let w' = (p.write_file all w).1 in
      elim (Option-cases (p.write_file all w).0) [
        | inl broken ↦ absurd (ground (arith, broken))
        | inr (k, wrote) ↦ elim (Bool-cases (k == 0)) [
          | inl stuck ↦ absurd (ground (arith, wrote, stuck))
          | inr moved ↦
              let ran : (write_all fuel (drop k all) w').0 ≡ some true =
                ground (arith, wrote, moved) in
              let rest = write_all_sent t fuel (drop k all) w' ran in
              let whole : t.sent w' ++ drop k all ≡ t.sent w ++ all =
                ap (λ (s : Bytes). s ++ drop k all) (t.front all w k wrote)
                ∙ append_assoc (t.sent w) (take k all) (drop k all)
                ∙ ap (λ (s : Bytes). t.sent w ++ s) (take-append-drop k all) in
              ground (arith, wrote, moved, rest, whole)
        ]
      ]

  -- ReadAll and WriteAll with the fuel that is enough.
  unfoldable pub receive : ℕ → p.World → Option Bytes × p.World
  receive size w =
      let (answer, w') = read_all size size w in
      elim answer [ none ↦ (none, w') | some bytes ↦ (bytes, w') ]

  unfoldable pub transmit : Bytes → p.World → Bool × p.World
  transmit bytes w =
      let (answer, w') = write_all (length bytes) bytes w in
      elim answer [ none ↦ (false, w') | some ok ↦ (ok, w') ]
