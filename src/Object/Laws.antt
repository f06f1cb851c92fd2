-- ===== src/Object/Laws.antt =====
-- Reading after writing an object.
use efipix.Prelude.{
  none, some, [], ◌∷◌, ◌++◌, ◌≡◌, refl, ◌⊎◌, arith, if◌then◌else◌, Bool-cases, Option-cases, inl,
  inr,
}
use efipix.Text.{Text, equal}
use efipix.Text.Laws.{equal_iff}
use efipix.Object.{
  Property, absent, inherited, own, Object, find_own, is_index, place, replace, set,
}

-- To split on what reading a property gives.
pub Property-cases {ℓ} :
    {V : Type ℓ} (p : Property V) → ((v : V) × (p ≡ own v)) ⊎ ((p ≡ inherited) ⊎ (p ≡ absent))
Property-cases (own v) = inl (v, refl)
Property-cases inherited = inr (inl refl)
Property-cases absent = inr (inr refl)

module _ {ℓ} {V : Type ℓ} (k : Text) (v : V) where
  find_own-replace :
      (j : Text) (o : Object V) (w : V)
      → find_own k o ≡ some w
      → find_own j (replace k v o) ≡ (if equal k j then some v else find_own j o)
  unfolding find_own replace
  find_own-replace j [] w h = cc
  find_own-replace j ((i, u) ∷ o) w h =
      ground (arith, find_own-replace j o w, equal_iff i k, equal_iff i j, equal_iff k j)

  find_own-place :
      (j : Text) (o : Object V)
      → find_own k o ≡ none
      → find_own j (place k v o) ≡ (if equal k j then some v else find_own j o)
  unfolding find_own place
  find_own-place j [] h = ground arith
  find_own-place j ((i, u) ∷ o) h =
      ground (arith, find_own-place j o, equal_iff i k, equal_iff i j, equal_iff k j)

  find_own-concat :
      (j : Text) (o : Object V)
      → find_own k o ≡ none
      → find_own j (o ++ (k, v) ∷ []) ≡ (if equal k j then some v else find_own j o)
  unfolding find_own
  find_own-concat j [] h = ground arith
  find_own-concat j ((i, u) ∷ o) h =
      ground (arith, find_own-concat j o, equal_iff i k, equal_iff i j, equal_iff k j)

  -- The written property has the new value, and all others keep theirs.
  pub find_own-set :
      (j : Text) (o : Object V)
      → find_own j (set k v o) ≡ (if equal k j then some v else find_own j o)
  unfolding set
  find_own-set j o = elim (Option-cases (find_own k o)) [
    | inr (w, e) ↦ rw (set, e) (find_own-replace j o w e)
    | inl e ↦ elim (Bool-cases (is_index k)) [
      | inl i ↦ rw (set, e, i) (find_own-place j o e)
      | inr i ↦ rw (set, e, i) (find_own-concat j o e)
    ]
  ]
