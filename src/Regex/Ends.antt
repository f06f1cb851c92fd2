-- ===== src/Regex/Ends.antt =====
-- The matches of an expression with the flag `g` come to an end: an expression that reads at least
-- one unit leaves a shorter text behind each match.
use efipix.Prelude.{
  ℕ, zero, suc, ◌≤◌, ◌<◌, Bool, true, false, ◌&&◌, ◌||◌, Option, none, some, [], ◌∷◌, ◌≡◌, ◌⊎◌,
  refl, sym, ap, ◌∙◌, inl, inr, arith, length, length-append, Option-cases, subst, some-injective,
  some-ne-none, and-eq-true_iff,
}
use efipix.Text.{Text}
use efipix.Regex.{
  Regex, eps, bol, eol, line_bol, line_eol, edge, chr, seq, alt, star, lazy, group, At, Match, run,
  capture, exec_from, matches_from, match_all,
}
use efipix.Regex.Paths.{Reaches, run-Sound}
use efipix.Regex.Reads.{Reaches-Reads}
use efipix.Regex.Runs.{at}
use efipix.Regex.Found.{Only-all}

-- every path of the expression reads a unit
abbrev pub reads_one : Regex → Bool
reads_one eps = false
reads_one bol = false
reads_one eol = false
reads_one line_bol = false
reads_one line_eol = false
reads_one edge = false
reads_one (chr p) = true
reads_one (seq a b) = reads_one a || reads_one b
reads_one (alt a b) = reads_one a && reads_one b
reads_one (star a) = false
reads_one (lazy a) = false
reads_one (group i a) = reads_one a

Reaches-le : (r : Regex) (s t : At) → Reaches r s t → length t.rest ≤ length s.rest
Reaches-le r s t h =
    let reads = Reaches-Reads r (Only-all r) s t h in
    omega (arith, ap length reads.splits, length-append reads.text t.rest)

or-cases : (a b : Bool) → (a || b) ≡ true → (a ≡ true) ⊎ (b ≡ true)
or-cases true b e = inl refl
or-cases false b e = inr e

-- a path of such an expression leads to a shorter text
Reaches-lt :
    (r : Regex) (s t : At) → reads_one r ≡ true → Reaches r s t → length t.rest < length s.rest
unfolding capture
Reaches-lt (chr p) s t e (c, r, h, y, z) =
    subst (λ x. length x.rest < length s.rest) z
      (subst (λ l. length r < length l) (sym h) (omega arith))
Reaches-lt (seq a b) s t e (u, x, y) = elim (or-cases (reads_one a) (reads_one b) e) [
  | inl h ↦ omega (arith, Reaches-lt a s u h x, Reaches-le b u t y)
  | inr h ↦ omega (arith, Reaches-le a s u x, Reaches-lt b u t h y)
]
Reaches-lt (alt a b) s t e (inl x) =
    Reaches-lt a s t (((and-eq-true_iff (reads_one a) (reads_one b)).0 e)).0 x
Reaches-lt (alt a b) s t e (inr x) =
    Reaches-lt b s t (((and-eq-true_iff (reads_one a) (reads_one b)).0 e)).1 x
Reaches-lt (group i a) s t e (u, x, y) =
    subst (λ v. length v.rest < length s.rest) y (Reaches-lt a s u e x)
Reaches-lt eps s t e x = absurd (cc)
Reaches-lt bol s t e x = absurd (cc)
Reaches-lt eol s t e x = absurd (cc)
Reaches-lt line_bol s t e x = absurd (cc)
Reaches-lt line_eol s t e x = absurd (cc)
Reaches-lt edge s t e x = absurd (cc)
Reaches-lt (star a) s t e x = absurd (cc)
Reaches-lt (lazy a) s t e x = absurd (cc)

run-lt :
    (r : Regex) (s t : At)
    → reads_one r ≡ true
    → run r s some ≡ some t
    → length t.rest < length s.rest
run-lt r s t e h =
    let (u, path, k) = run-Sound r s some t h in
    subst (λ x. length x.rest < length s.rest) (some-injective _ _ k) (Reaches-lt r s u e path)

module _ (r : Regex) (e : reads_one r ≡ true) where
  exec_from-lt :
      (p : Option ℕ) (s : Text) (m : Match) → exec_from r p s ≡ some m → length m.after < length s
  unfolding exec_from
  exec_from-lt p [] m h = elim (Option-cases (run r (at p [] []) some)) [
    | inl f ↦ absurd (some-ne-none _ (sym h ∙ rw (exec_from, f) refl))
    | inr (t, f) ↦ absurd (none_less (run-lt r (at p [] []) t e f))
  ]
    where
      none_less : {n : ℕ} → n < 0 → ⊥
      none_less l = omega arith
  exec_from-lt p (c ∷ s) m h = elim (Option-cases (run r (at p (c ∷ s) []) some)) [
    | inr (t, f) ↦
        subst (λ x. length x.after < length (c ∷ s)) (some-injective _ _ (rw (exec_from, f) at h))
          (run-lt r (at p (c ∷ s) []) t e f)
    | inl f ↦ elim (Option-cases (exec_from r (some c) s)) [
      | inl g ↦ absurd (some-ne-none _ (sym h ∙ rw (exec_from, f, g) refl))
      | inr (m', g) ↦
          subst (λ x. length x.after < length (c ∷ s))
            (some-injective _ _ (rw (exec_from, f, g) at h))
            (omega (arith, exec_from-lt (some c) s m' g))
    ]
  ]

  matches_from-nil : (n : ℕ) (p : Option ℕ) → matches_from n r p [] ≡ []
  unfolding matches_from
  matches_from-nil zero p = refl
  matches_from-nil (suc n) p = elim (Option-cases (exec_from r p [])) [
    | inl f ↦ rw (matches_from, f) refl
    | inr (m, f) ↦ absurd (less_zero (exec_from-lt p [] m f))
  ]
    where
      less_zero : {n : ℕ} → n < 0 → ⊥
      less_zero l = omega arith

  -- Any two amounts of fuel that cover the text give the same matches.
  pub matches_from-enough :
      (n k : ℕ) (p : Option ℕ) (s : Text)
      → length s ≤ n
      → length s ≤ k
      → matches_from n r p s ≡ matches_from k r p s
  unfolding matches_from
  matches_from-enough n k p [] a b = matches_from-nil n p ∙ sym (matches_from-nil k p)
  matches_from-enough zero k p (c ∷ s) a b = absurd (omega arith)
  matches_from-enough (suc n) zero p (c ∷ s) a b = absurd (omega arith)
  matches_from-enough (suc n) (suc k) p (c ∷ s) a b = elim (Option-cases (exec_from r p (c ∷ s))) [
    | inl f ↦ rw (matches_from, f) refl
    | inr (m, f) ↦
        let l = exec_from-lt p (c ∷ s) m f in
        rw (matches_from, f)
          (ap (λ ms. m ∷ ms)
            (matches_from-enough n k m.last m.after (omega (arith, l)) (omega (arith, l))))
  ]

  pub match_all-enough : (n : ℕ) (s : Text) → length s ≤ n → matches_from n r none s ≡ match_all r s
  unfolding match_all
  match_all-enough n s a = matches_from-enough n (length s) none s a (omega arith)
