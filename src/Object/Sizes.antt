-- ===== src/Object/Sizes.antt =====
-- Writing a property: what it does to the number of properties, to a sum and to a predicate over
-- them.
use efipix.Prelude.{
  ℕ, ◌+◌, none, some, [], ◌∷◌, ◌++◌, ◌≡◌, refl, arith, length, All, All-append, Bool-cases,
  Option-cases, inl, inr, subst,
}
use efipix.Text.{Text, equal}
use efipix.Object.{Object, absent, own, find_own, get, is_index, comes_before, place, replace, set}

module _ {ℓ} {V : Type ℓ} (weight : V → ℕ) where
  abbrev pub total : Object V → ℕ
  total [] = 0
  total ((k, v) ∷ o) = weight v + total o

module _ {ℓ} {V : Type ℓ} (weight : V → ℕ) (k : Text) (v : V) where
  total-replace :
      (o : Object V) (w : V)
      → find_own k o ≡ some w
      → total weight (replace k v o) + weight w ≡ total weight o + weight v
  unfolding find_own replace
  total-replace [] w h = cc
  total-replace ((j, u) ∷ o) w h = ground (arith, total-replace o w)

  total-place : (o : Object V) → total weight (place k v o) ≡ total weight o + weight v
  unfolding place
  total-place [] = omega arith
  total-place ((j, u) ∷ o) = ground (arith, total-place o)

  total-concat : (o : Object V) → total weight (o ++ (k, v) ∷ []) ≡ total weight o + weight v
  total-concat [] = omega arith
  total-concat ((j, u) ∷ o) = omega (arith, total-concat o)

  pub total-set_own :
      (o : Object V) (w : V)
      → find_own k o ≡ some w
      → total weight (set k v o) + weight w ≡ total weight o + weight v
  unfolding set
  total-set_own o w h = rw (set, h) (total-replace o w h)

  pub total-set_new :
      (o : Object V) → find_own k o ≡ none → total weight (set k v o) ≡ total weight o + weight v
  unfolding set
  total-set_new o h = elim (Bool-cases (is_index k)) [
    | inl i ↦ rw (set, h, i) (total-place o)
    | inr i ↦ rw (set, h, i) (total-concat o)
  ]

length-total {ℓ} : {V : Type ℓ} (o : Object V) → length o ≡ total (λ _. 1) o
length-total [] = refl
length-total ((k, v) ∷ o) = omega (arith, length-total o)

module _ {ℓ} {V : Type ℓ} (k : Text) (v : V) (o : Object V) where
  pub length-set_own : (w : V) → find_own k o ≡ some w → length (set k v o) ≡ length o
  length-set_own w h =
      omega (arith, length-total (set k v o), length-total o, total-set_own (λ _. 1) k v o w h)

  pub length-set_new : find_own k o ≡ none → length (set k v o) ≡ length o + 1
  length-set_new h =
      omega (arith, length-total (set k v o), length-total o, total-set_new (λ _. 1) k v o h)

abbrev pub Values {ℓ κ} : {V : Type ℓ} → (V → Type κ) → Object V → Type κ
Values P o = All (λ p. P p.1) o

module _ {ℓ κ} {V : Type ℓ} (P : V → Type κ) (k : Text) (v : V) where
  Values-replace : (o : Object V) → P v → Values P o → Values P (replace k v o)
  unfolding replace
  Values-replace [] hv h = tt
  Values-replace ((j, u) ∷ o) hv (hu, h) = elim (Bool-cases (equal j k)) [
    | inl e ↦ rw e (hv, h)
    | inr e ↦ rw e (hu, Values-replace o hv h)
  ]

  Values-place : (o : Object V) → P v → Values P o → Values P (place k v o)
  unfolding place
  Values-place [] hv h = (hv, tt)
  Values-place ((j, u) ∷ o) hv (hu, h) = elim (Bool-cases (comes_before j k)) [
    | inl e ↦ rw (place, e) (hu, Values-place o hv h)
    | inr e ↦ rw (place, e) (hv, (hu, h))
  ]

  pub Values-set : (o : Object V) → P v → Values P o → Values P (set k v o)
  unfolding set
  Values-set o hv h = elim (Option-cases (find_own k o)) [
    | inr (w, e) ↦ rw (set, e) (Values-replace o hv h)
    | inl e ↦ elim (Bool-cases (is_index k)) [
      | inl i ↦ rw (set, e, i) (Values-place o hv h)
      | inr i ↦ rw (set, e, i) (All-append (λ p. P p.1) o ((k, v) ∷ []) h (hv, tt))
    ]
  ]

pub get-eq-own {ℓ} :
    {V : Type ℓ} (k : Text) (o : Object V) (v : V) → get k o ≡ own v → find_own k o ≡ some v
unfolding get
get-eq-own k o v h = ground arith

pub get-eq-absent {ℓ} :
    {V : Type ℓ} (k : Text) (o : Object V) → get k o ≡ absent → find_own k o ≡ none
unfolding get
get-eq-absent k o h = ground arith

same_value {ℓ} : {V : Type ℓ} {u v : V} → some u ≡ some v → u ≡ v
same_value e = cc

-- A predicate of all values holds of the value that is found.
pub find_Values :
    {V : Type 0} (P : V → Type 0) (k : Text) (o : Object V) (v : V)
    → Values P o
    → find_own k o ≡ some v
    → P v
unfolding find_own
find_Values P k [] v h e = absurd (no_value e)
  where
    no_value : none ≡ some v → ⊥
    no_value e = cc
find_Values P k ((j, u) ∷ o) v (hu, h) e = elim (Bool-cases (equal j k)) [
  | inl b ↦ subst P (same_value (rw (find_own, b) at e)) hu
  | inr b ↦ find_Values P k o v h (rw (find_own, b) at e)
]
