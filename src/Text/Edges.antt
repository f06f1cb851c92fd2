-- ===== src/Text/Edges.antt =====
-- The ends of a text: what `trim` leaves, and its first and last visible units.
use efipix.Prelude.{
  ℕ, ◌≤◌, true, false, [], ◌∷◌, ◌++◌, ◌≡◌, refl, inl, inr, arith, length, All, Bool-cases,
}
use efipix.Text.{Text, is_space, trim_start, trim_end, trim}

-- the last unit of `c ∷ s`
abbrev pub last_of : ℕ → Text → ℕ
last_of c [] = c
last_of c (d ∷ s) = last_of d s

-- The first and the last unit are no white space.
abbrev pub HasEdges : Text → Type 0
HasEdges [] = ⊥
HasEdges (c ∷ s) = (is_space c ≡ false) × (is_space (last_of c s) ≡ false)

pub trim_start-spaces :
    (w s : Text) → All (λ c. is_space c ≡ true) w → trim_start (w ++ s) ≡ trim_start s
unfolding trim_start
trim_start-spaces [] s h = refl
trim_start-spaces (c ∷ w) s (hc, h) = rw hc (trim_start-spaces w s h)

pub trim_start_visible : (c : ℕ) (s : Text) → is_space c ≡ false → trim_start (c ∷ s) ≡ c ∷ s
unfolding trim_start
trim_start_visible c s h = rw h

-- Trimming stops within a text that ends with a visible unit.
pub trim_start_inside :
    (c : ℕ) (s r : Text)
    → is_space (last_of c s) ≡ false
    → (z : ℕ) × (zs : Text) × (trim_start (c ∷ (s ++ r)) ≡ z ∷ (zs ++ r))
unfolding trim_start
trim_start_inside c [] r h = (c, [], rw h)
trim_start_inside c (d ∷ s) r h = elim (Bool-cases (is_space c)) [
  | inl e ↦ rw e (trim_start_inside d s r h)
  | inr e ↦ (c, d ∷ s, rw e)
]

length-trim_start : (s : Text) → length (trim_start s) ≤ length s
unfolding trim_start
length-trim_start [] = omega arith
length-trim_start (c ∷ s) = ground (arith, length-trim_start s)

length-trim_end : (s : Text) → length (trim_end s) ≤ length s
unfolding trim_end
length-trim_end [] = omega arith
length-trim_end (c ∷ s) = ground (arith, length-trim_end s)

trim_end-last : (c : ℕ) (s : Text) → trim_end (c ∷ s) ≡ c ∷ s → is_space (last_of c s) ≡ false
unfolding trim_end
trim_end-last c [] h = ground arith
trim_end-last c (d ∷ s) h = trim_end-last d s (ground arith)

trim_end_visible : (c : ℕ) (s : Text) → is_space (last_of c s) ≡ false → trim_end (c ∷ s) ≡ c ∷ s
unfolding trim_end
trim_end_visible c [] h = rw h
trim_end_visible c (d ∷ s) h = rw (trim_end_visible d s h)

pub trim-HasEdges : (s : Text) → HasEdges s → trim s ≡ s
unfolding trim
trim-HasEdges [] h = elim h [ ]
trim-HasEdges (c ∷ s) (h, l) = rw (trim_start_visible c s h, trim_end_visible c s l)
