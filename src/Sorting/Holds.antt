-- ===== src/Sorting/Holds.antt =====
-- A predicate that holds of some element of a list holds of some element of the sorted list.
use efipix.Prelude.{Bool, List, [], ◌∷◌, map, ◌⊎◌, inl, inr, Bool-cases}
use efipix.Sorting.{insert, sort}

-- one of the elements satisfies the predicate
abbrev pub Some {ℓ} : {A : Type ℓ} → (A → Type 0) → List A → Type 0
Some P [] = ⊥
Some P (x ∷ xs) = P x ⊎ Some P xs

pub Some-map {ℓ κ} :
    {A : Type ℓ} {B : Type κ} (P : B → Type 0) (f : A → B) (xs : List A)
    → Some (λ x. P (f x)) xs
    → Some P (map f xs)
Some-map P f [] h = absurd h
Some-map P f (x ∷ xs) (inl h) = inl h
Some-map P f (x ∷ xs) (inr h) = inr (Some-map P f xs h)

pub Some-weaken {ℓ} :
    {A : Type ℓ} (P Q : A → Type 0) (xs : List A) → ((x : A) → P x → Q x) → Some P xs → Some Q xs
Some-weaken P Q [] f h = absurd h
Some-weaken P Q (x ∷ xs) f (inl h) = inl (f x h)
Some-weaken P Q (x ∷ xs) f (inr h) = inr (Some-weaken P Q xs f h)

module _ {ℓ} {A : Type ℓ} (gt : A → A → Bool) (P : A → Type 0) where
  Some-insert : (x : A) (xs : List A) → P x → Some P (insert gt x xs)
  unfolding insert
  Some-insert x [] h = inl h
  Some-insert x (y ∷ ys) h = elim (Bool-cases (gt x y)) [
    | inl e ↦ rw e (inr (Some-insert x ys h))
    | inr e ↦ rw e (inl h)
  ]

  insert-Some : (x : A) (xs : List A) → Some P xs → Some P (insert gt x xs)
  unfolding insert
  insert-Some x [] h = absurd h
  insert-Some x (y ∷ ys) (inl h) = elim (Bool-cases (gt x y)) [
    | inl e ↦ rw e (inl h)
    | inr e ↦ rw e (inr (inl h))
  ]
  insert-Some x (y ∷ ys) (inr h) = elim (Bool-cases (gt x y)) [
    | inl e ↦ rw e (inr (insert-Some x ys h))
    | inr e ↦ rw e (inr (inr h))
  ]

  pub Some-sort : (xs : List A) → Some P xs → Some P (sort gt xs)
  unfolding sort
  Some-sort [] h = absurd h
  Some-sort (x ∷ xs) (inl h) = Some-insert x (sort gt xs) h
  Some-sort (x ∷ xs) (inr h) = insert-Some x (sort gt xs) (Some-sort xs h)
