-- ===== src/Routes/Load.antt =====
-- RouteManager::Load: the entries that the regular expression finds in the state file.
pub mod Whole
pub mod Saved
mod Tests
use netpilot.Base.{
  ℕ, zero, suc, Option, none, some, List, [], ◌∷◌, ◌++◌, ◌==◌, if◌then◌else◌, length,
}
use netpilot.Base.Text.{Bytes, text}
use netpilot.Protocol.Types.{RouteSpec}
use netpilot.Std.TextMode.{read_text}
use netpilot.Routes.Inventory.{quoted}

infixl 5 ◌>>=◌
abbrev pub ◌>>=◌ : {A B : Type 0} → Option A → (A → Option B) → Option B
none >>= f = none
some a >>= f = f a

-- The rest after a literal part of the expression.
unfoldable pub after : Bytes → Bytes → Option Bytes
after [] s = some s
after (c ∷ part) [] = none
after (c ∷ part) (d ∷ s) = if c == d then after part s else none

-- `([^"]*)` before a quotation mark, which stands at the front of the rest: the star has to take
-- all that is before the first one.
unfoldable pub field : Bytes → Option (Bytes × Bytes)
field [] = none
field (c ∷ s) =
    let further = field s in
    if c == 34 then some ([], 34 ∷ s) else (do (a, rest) ← further; some (c ∷ a, rest))

-- A literal part and the group after it.
unfoldable pub group : Bytes → Bytes → Option (Bytes × Bytes)
unfolding after field
group part s = do s' ← after part s; field s'

-- The expression at the front of a text, by its five literal parts: its groups, and what follows
-- the match.
unfoldable pub match_parts :
    Bytes → Bytes → Bytes → Bytes → Bytes → Bytes → Option (RouteSpec × Bytes)
unfolding group
match_parts p1 p2 p3 p4 p5 s = do
  (destination, s1) ← group p1 s
  (gateway, s2) ← group p2 s1
  (luid, s3) ← group p3 s2
  (tag, s4) ← group p4 s3
  rest ← after p5 s4
  some (
    record { destination = destination; gateway = gateway; interface_luid = luid; tag = tag },
    rest,
  )

unfoldable pub match_entry : Bytes → Option (RouteSpec × Bytes)
unfolding match_parts quoted
match_entry =
    match_parts (quoted (text "{'destination':'")) (quoted (text "','gateway':'"))
      (quoted (text "','interfaceLuid':'")) (quoted (text "','tag':'")) (quoted (text "'}"))

-- sregex_iterator: a search from each place, and after a match from its end.
unfoldable pub all_entries : ℕ → Bytes → List RouteSpec
unfolding match_entry
all_entries zero s = []
all_entries (suc fuel) [] = []
all_entries (suc fuel) (c ∷ s) = elim (match_entry (c ∷ s)) [
  | none ↦ all_entries fuel s
  | some (route, rest) ↦ route ∷ all_entries fuel rest
]

-- The file's bytes, or `none` where it cannot be opened, and the inventory. The stream is in text mode. Each turn moves on
-- by a byte, so that the length is fuel enough.
unfoldable pub load : Option Bytes → List RouteSpec → List RouteSpec
unfolding all_entries read_text
load none managed = managed
load (some bytes) managed =
    let content = read_text bytes in managed ++ all_entries (length content) content
