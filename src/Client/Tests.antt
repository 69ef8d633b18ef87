-- ===== src/Client/Tests.antt =====
-- A pipe that takes two bytes at a time.
use netpilot.Base.{◌≡◌, refl, true, some, [], ◌∷◌, ◌++◌, length, take}
use netpilot.Base.Text.{Bytes}
use netpilot.Client.Pipe.{Pipe, write_all}

abbrev lab : Pipe
lab = record {
  World = Bytes;
  write_file = λ bytes w. (some (length (take 2 bytes)), w ++ take 2 bytes);
  read_file = λ size w. (some (take 1 w), w);
}

three_written : (write_all lab 3 (1 ∷ 2 ∷ 3 ∷ []) []).0 ≡ some true
unfolding write_all
three_written = refl
