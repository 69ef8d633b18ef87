-- ===== src/Std/Sort/Laws.antt =====
-- A sorted list is a rearrangement in which no element is less than the one before it; for strings
-- and without repetitions, it is a std::set.
use netpilot.Base.{
  ◌≡◌, refl, sym, ap, subst, ◌∙◌, inl, inr, Bool, true, false, ◌||◌, List, [], ◌∷◌, arith,
  Bool-cases,
}
use netpilot.Base.Text.{Bytes, str_eq, str_eq_iff}
use mathlib.Core.List.{Perm}
use mathlib.Core.List.Perm
use netpilot.Std.OrderedSet.{str_lt, contains}
use netpilot.Std.OrderedSet.Laws.{IsIncreasing, str_lt_total}
use netpilot.Std.Sort.{insert, sort, unique}

module _ {ℓ} {A : Type ℓ} (less : A → A → Bool) where
  abbrev pub IsOrdered : List A → Type 0
  IsOrdered [] = Unit {0}
  IsOrdered (x ∷ []) = Unit {0}
  IsOrdered (x ∷ y ∷ rest) = (less y x ≡ false) × IsOrdered (y ∷ rest)

  insert-perm : (a : A) (xs : List A) → Perm (insert less a xs) (a ∷ xs)
  unfolding insert
  insert-perm a [] = Perm.rfl
  insert-perm a (x ∷ xs) = elim (Bool-cases (less a x)) [
    | inl below ↦ rw (below, insert) Perm.rfl
    | inr above ↦
        rw (above, insert) (Perm.trans (Perm.cons x (insert-perm a xs)) (Perm.swap a x xs))
  ]

  pub sort-perm : (xs : List A) → Perm (sort less xs) xs
  unfolding sort
  sort-perm [] = Perm.rfl
  sort-perm (x ∷ xs) = Perm.trans (insert-perm x (sort less xs)) (Perm.cons x (sort-perm xs))

module _ {ℓ} {A : Type ℓ} (less : A → A → Bool)
    (asymmetric : (a b : A) → less a b ≡ true → less b a ≡ false) where
  insert-IsOrdered : (a : A) (xs : List A) → IsOrdered less xs → IsOrdered less (insert less a xs)
  unfolding insert
  insert-IsOrdered a [] h = tt
  insert-IsOrdered a (x ∷ []) h = elim (Bool-cases (less a x)) [
    | inl below ↦ rw (below, insert) (asymmetric a x below, tt)
    | inr above ↦ rw (above, insert) (above, tt)
  ]
  insert-IsOrdered a (x ∷ y ∷ rest) h = elim (Bool-cases (less a x)) [
    | inl below ↦ rw (below, insert) (asymmetric a x below, h)
    | inr above ↦ elim (Bool-cases (less a y)) [
      | inl under ↦ rw (above, under) (above, (asymmetric a y under, h.1))
      | inr over ↦
          let e : insert less a (y ∷ rest) ≡ y ∷ insert less a rest = rw over in
          rw (above, over) (h.0, subst (IsOrdered less) e (insert-IsOrdered a (y ∷ rest) h.1))
    ]
  ]

  pub sort-IsOrdered : (xs : List A) → IsOrdered less (sort less xs)
  unfolding sort
  sort-IsOrdered [] = tt
  sort-IsOrdered (x ∷ xs) = insert-IsOrdered x (sort less xs) (sort-IsOrdered xs)

pub str_lt_asymmetric : (s t : Bytes) → str_lt s t ≡ true → str_lt t s ≡ false
unfolding str_lt
str_lt_asymmetric [] [] h = cc
str_lt_asymmetric [] (y ∷ ys) h = refl
str_lt_asymmetric (x ∷ xs) [] h = cc
str_lt_asymmetric (x ∷ xs) (y ∷ ys) h = ground (arith, str_lt_asymmetric xs ys)

-- The first element stays the first.
abbrev First : Bytes → List Bytes → Type 0
First y l = (rest : List Bytes) × (l ≡ y ∷ rest)

unique-First : (y : Bytes) (ys : List Bytes) → First y (unique str_eq (y ∷ ys))
unfolding unique
unique-First y [] = ([], refl)
unique-First y (z ∷ zs) = elim (Bool-cases (str_eq y z)) [
  | inr other ↦ (unique str_eq (z ∷ zs), rw other)
  | inl same ↦
      let (rest, e) = unique-First z zs in
      (rest, rw same (e ∙ ap (λ (a : Bytes). a ∷ rest) (sym ((str_eq_iff y z).0 same))))
]

-- Sorted, and with no two neighbours alike: strictly increasing.
pub unique-IsIncreasing : (xs : List Bytes) → IsOrdered str_lt xs → IsIncreasing (unique str_eq xs)
unfolding unique
unique-IsIncreasing [] h = tt
unique-IsIncreasing (x ∷ []) h = tt
unique-IsIncreasing (x ∷ y ∷ rest) h = elim (Bool-cases (str_eq x y)) [
  | inl same ↦ rw same (unique-IsIncreasing (y ∷ rest) h.1)
  | inr other ↦
      let (further, e) = unique-First y rest in
      let above = unique-IsIncreasing (y ∷ rest) h.1 in
      let below : str_lt x y ≡ true =
        str_lt_total y x h.0 (ground (arith, other, str_eq_iff x y, str_eq_iff y x)) in
      rw (other, e) (below, subst IsIncreasing e above)
]

pub contains-unique : (d : Bytes) (xs : List Bytes) → contains d (unique str_eq xs) ≡ contains d xs
unfolding unique contains
contains-unique d [] = refl
contains-unique d (x ∷ []) = refl
contains-unique d (x ∷ y ∷ rest) =
    ground (arith, contains-unique d (y ∷ rest), str_eq_iff x y, str_eq_iff d x, str_eq_iff d y)

contains-insert :
    (d a : Bytes) (xs : List Bytes)
    → contains d (insert str_lt a xs) ≡ (str_eq d a || contains d xs)
unfolding insert contains
contains-insert d a [] = refl
contains-insert d a (x ∷ xs) = ground (arith, contains-insert d a xs)

pub contains-sort : (d : Bytes) (xs : List Bytes) → contains d (sort str_lt xs) ≡ contains d xs
unfolding sort contains
contains-sort d [] = refl
contains-sort d (x ∷ xs) = ground (arith, contains-insert d x (sort str_lt xs), contains-sort d xs)
