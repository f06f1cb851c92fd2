-- ===== src/Sorting.antt =====
-- `Array.prototype.sort`, which is stable: the only stable result for a consistent comparison is
-- that of an insertion sort. `gt x y` is the comparison's "greater than zero".
pub mod Laws
pub mod Holds
use efipix.Prelude.{Bool, true, false, List, [], ◌∷◌, if◌then◌else◌, ltb, ◌&&◌, ◌||◌, ◌==◌}
use efipix.Text.{Text}

module _ {ℓ} {A : Type ℓ} (gt : A → A → Bool) where
  pub insert : A → List A → List A
  insert x [] = x ∷ []
  insert x (y ∷ ys) = let rest = insert x ys in if gt x y then y ∷ rest else x ∷ y ∷ ys

  unfoldable pub sort : List A → List A
  unfolding insert
  sort [] = []
  sort (x ∷ xs) = insert x (sort xs)

-- the order of `sort()` with no comparison: by code units
unfoldable pub units_gt : Text → Text → Bool
units_gt [] t = false
units_gt (a ∷ s) [] = true
units_gt (a ∷ s) (b ∷ t) = ltb b a || (a == b && units_gt s t)
