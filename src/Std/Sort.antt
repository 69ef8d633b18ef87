-- ===== src/Std/Sort.antt =====
-- std::sort by a comparison, and std::unique with erase. Elements that compare equal, which
-- std::sort may leave in any order, keep theirs.
pub mod Laws
use netpilot.Base.{Bool, List, [], ◌∷◌, if◌then◌else◌}

module _ {ℓ} {A : Type ℓ} (less : A → A → Bool) where
  unfoldable pub insert : A → List A → List A
  insert a [] = a ∷ []
  insert a (x ∷ xs) = let rest = insert a xs in if less a x then a ∷ x ∷ xs else x ∷ rest

  unfoldable pub sort : List A → List A
  unfolding insert
  sort [] = []
  sort (x ∷ xs) = insert x (sort xs)

module _ {ℓ} {A : Type ℓ} (eq : A → A → Bool) where
  unfoldable pub unique : List A → List A
  unique [] = []
  unique (x ∷ []) = x ∷ []
  unique (x ∷ y ∷ xs) = let rest = unique (y ∷ xs) in if eq x y then rest else x ∷ rest
