-- ===== src/Std/OrderedSet/Laws.antt =====
-- Insertion keeps a set strictly increasing, and adds exactly the one element.
use netpilot.Base.{◌≡◌, refl, true, false, ◌||◌, List, [], ◌∷◌, arith}
use netpilot.Base.Text.{Bytes, str_eq, str_eq_iff}
use netpilot.Std.OrderedSet.{str_lt, set_insert, contains}

-- Strictly increasing: each element is below the next one, so no two are equal.
abbrev pub IsIncreasing : List Bytes → Type 0
IsIncreasing [] = Unit {0}
IsIncreasing (x ∷ []) = Unit {0}
IsIncreasing (x ∷ y ∷ rest) = (str_lt x y ≡ true) × IsIncreasing (y ∷ rest)

pub str_lt_total : (s t : Bytes) → str_lt s t ≡ false → str_eq s t ≡ false → str_lt t s ≡ true
unfolding str_lt str_eq
str_lt_total [] [] h e = cc
str_lt_total [] (y ∷ ys) h e = cc
str_lt_total (x ∷ xs) [] h e = refl
str_lt_total (x ∷ xs) (y ∷ ys) h e = ground (arith, str_lt_total xs ys)

pub contains-set_insert :
    (d a : Bytes) (xs : List Bytes) → contains d (set_insert a xs) ≡ (str_eq d a || contains d xs)
unfolding contains set_insert
contains-set_insert d a [] = refl
contains-set_insert d a (x ∷ xs) =
    ground (arith, contains-set_insert d a xs, str_eq_iff a x, str_eq_iff d a, str_eq_iff d x)

pub set_insert-IsIncreasing :
    (a : Bytes) (xs : List Bytes) → IsIncreasing xs → IsIncreasing (set_insert a xs)
unfolding set_insert
set_insert-IsIncreasing a [] h = tt
set_insert-IsIncreasing a (x ∷ []) h = ground (arith, str_lt_total a x)
set_insert-IsIncreasing a (x ∷ y ∷ rest) h =
    ground (arith, str_lt_total a x, str_lt_total a y, set_insert-IsIncreasing a (y ∷ rest) h.1)
