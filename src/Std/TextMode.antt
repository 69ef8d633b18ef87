-- ===== src/Std/TextMode.antt =====
-- std::ofstream and std::ifstream without std::ios::binary, as Windows has them: a line feed is
-- written as a carriage return and a line feed, which are read as a line feed, and byte 26 ends what
-- is read.
use netpilot.Base.{◌≡◌, refl, Bool, false, ◌&&◌, [], ◌∷◌, ◌==◌, if◌then◌else◌, arith, any_of}
use netpilot.Base.Text.{Bytes}

unfoldable pub write_text : Bytes → Bytes
write_text [] = []
write_text (c ∷ s) = let rest = write_text s in if c == 10 then 13 ∷ 10 ∷ rest else c ∷ rest

abbrev at_line_feed : Bytes → Bool
at_line_feed [] = false
at_line_feed (c ∷ s) = c == 10

unfoldable pub read_text : Bytes → Bytes
read_text [] = []
read_text (c ∷ s) =
    let rest = read_text s in
    if c == 26 then [] else if c == 13 && at_line_feed s then rest else c ∷ rest

-- A line feed is never first in what was written.
at_line_feed-write_text : (s : Bytes) → at_line_feed (write_text s) ≡ false
unfolding write_text
at_line_feed-write_text [] = refl
at_line_feed-write_text (c ∷ s) = ground arith

-- A text without byte 26 is read as it was written.
pub read_text-write_text :
    (s : Bytes) → any_of (λ c. c == 26) s ≡ false → read_text (write_text s) ≡ s
unfolding read_text write_text
read_text-write_text [] h = refl
read_text-write_text (c ∷ s) h = ground (arith, at_line_feed-write_text s, read_text-write_text s)
