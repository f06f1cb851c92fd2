-- ===== src/Sorting/Laws.antt =====
-- What sorting keeps: predicates of all elements, distinctness, and the elements themselves.
use mathlib.Core.List.{Perm}
use mathlib.Core.List.Perm
use efipix.Prelude.{Bool, List, [], ◌∷◌, ◌≢◌, sym, All, Bool-cases, inl, inr}
use efipix.Sorting.{insert, sort}

-- The elements differ from one another.
abbrev pub Distinct {ℓ} : {A : Type ℓ} → List A → Type ℓ
Distinct [] = Unit
Distinct (x ∷ xs) = All (λ y. y ≢ x) xs × Distinct xs

module _ {ℓ} {A : Type ℓ} (gt : A → A → Bool) where
  All-insert {κ} : (P : A → Type κ) (x : A) (xs : List A) → P x → All P xs → All P (insert gt x xs)
  unfolding insert
  All-insert P x [] hx h = (hx, tt)
  All-insert P x (y ∷ ys) hx (hy, h) = elim (Bool-cases (gt x y)) [
    | inl e ↦ rw e (hy, All-insert P x ys hx h)
    | inr e ↦ rw e (hx, (hy, h))
  ]

  pub All-sort {κ} : (P : A → Type κ) (xs : List A) → All P xs → All P (sort gt xs)
  unfolding sort
  All-sort P [] h = tt
  All-sort P (x ∷ xs) (hx, h) = All-insert P x (sort gt xs) hx (All-sort P xs h)

  Distinct-insert :
      (x : A) (xs : List A) → All (λ y. y ≢ x) xs → Distinct xs → Distinct (insert gt x xs)
  unfolding insert
  Distinct-insert x [] h d = (tt, tt)
  Distinct-insert x (y ∷ ys) (hy, h) (dy, d) = elim (Bool-cases (gt x y)) [
    | inl e ↦ rw e (All-insert (λ z. z ≢ y) x ys (λ e. hy (sym e)) dy, Distinct-insert x ys h d)
    | inr e ↦ rw e ((hy, h), (dy, d))
  ]

  pub Distinct-sort : (xs : List A) → Distinct xs → Distinct (sort gt xs)
  unfolding sort
  Distinct-sort [] d = tt
  Distinct-sort (x ∷ xs) (h, d) =
      Distinct-insert x (sort gt xs) (All-sort (λ y. y ≢ x) xs h) (Distinct-sort xs d)

  insert-perm : (x : A) (xs : List A) → Perm (insert gt x xs) (x ∷ xs)
  unfolding insert
  insert-perm x [] = Perm.refl (x ∷ [])
  insert-perm x (y ∷ ys) = elim (Bool-cases (gt x y)) [
    | inl e ↦ rw e (Perm.trans (Perm.cons y (insert-perm x ys)) (Perm.swap x y ys))
    | inr e ↦ rw e (Perm.refl (x ∷ y ∷ ys))
  ]

  -- Sorting loses and invents nothing.
  pub sort-perm : (xs : List A) → Perm (sort gt xs) xs
  unfolding sort
  sort-perm [] = Perm.refl []
  sort-perm (x ∷ xs) = Perm.trans (insert-perm x (sort gt xs)) (Perm.cons x (sort-perm xs))
