-- ===== src/Std/OrderedSet.antt =====
-- std::set<std::string>: a list in strictly increasing order of the byte values.
pub mod Laws
use netpilot.Base.{
  ℕ, Bool, true, false, ◌||◌, ◌&&◌, List, [], ◌∷◌, ltb, ◌==◌, if◌then◌else◌, any_of,
}
use netpilot.Base.Text.{Bytes, str_eq}

-- `operator<` of std::string.
unfoldable pub str_lt : Bytes → Bytes → Bool
str_lt s [] = false
str_lt [] (y ∷ ys) = true
str_lt (x ∷ xs) (y ∷ ys) = ltb x y || x == y && str_lt xs ys

unfoldable pub set_insert : Bytes → List Bytes → List Bytes
set_insert a [] = a ∷ []
set_insert a (x ∷ xs) =
    if str_lt a x then a ∷ x ∷ xs else if str_eq a x then x ∷ xs else x ∷ set_insert a xs

-- `count` of a set.
unfoldable pub contains : Bytes → List Bytes → Bool
contains a xs = any_of (str_eq a) xs
