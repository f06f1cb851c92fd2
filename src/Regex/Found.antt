-- ===== src/Regex/Found.antt =====
-- What `exec` and `test` find, in terms of the paths of an expression.
use efipix.Prelude.{
  ℕ, true, false, Option, none, some, [], ◌∷◌, ◌++◌, ◌≡◌, ◌↔◌, ◌⊎◌, refl, sym, ap, ◌∙◌,
  Option-cases, inl, inr, some-injective, some-ne-none,
}
use efipix.Text.{Text}
use efipix.Regex.{
  Regex, eps, bol, eol, line_bol, line_eol, edge, chr, seq, alt, star, lazy, group, At, Cont, Match,
  run, between, exec_from, exec, test, is_some,
}
use efipix.Regex.Paths.{Reaches, run-Sound, run-Complete}
use efipix.Regex.Reads.{Only, Reaches-Reads}
use efipix.Regex.Runs.{at, between-append}

-- A run that succeeds took a path of the expression, to a place where the continuation succeeds with
-- the same result.
pub run-Reaches :
    (r : Regex) (s t : At) (k : Cont)
    → run r s k ≡ some t
    → (u : At) × Reaches r s u × (k u ≡ some t)
run-Reaches r s t k h = run-Sound r s k t h

-- A run that fails has tried every path: the continuation fails at each place that the expression
-- reaches.
pub run-eq-none : (r : Regex) (s u : At) (k : Cont) → Reaches r s u → run r s k ≡ none → k u ≡ none
run-eq-none r s u k h e = run-Complete r s u k h e

-- The expression has a path from some place of the text; `p` is the unit before the text.
abbrev pub Occurs : Regex → Option ℕ → Text → Type 0
Occurs r p [] = (u : At) × Reaches r (at p [] []) u
Occurs r p (c ∷ s) = ((u : At) × Reaches r (at p (c ∷ s) []) u) ⊎ Occurs r (some c) s

Occurs-exec : (r : Regex) (p : Option ℕ) (s : Text) → exec_from r p s ≡ none → Occurs r p s → ⊥
unfolding exec_from
Occurs-exec r p [] h (u, path) = elim (Option-cases (run r (at p [] []) some)) [
  | inl e ↦ some-ne-none _ (run-Complete r (at p [] []) u some path e)
  | inr (t, e) ↦ some-ne-none _ (rw (exec_from, e) at h)
]
Occurs-exec r p (c ∷ s) h o = elim (Option-cases (run r (at p (c ∷ s) []) some)) [
  | inr (t, e) ↦ some-ne-none _ (rw (exec_from, e) at h)
  | inl e ↦ elim (Option-cases (exec_from r (some c) s)) [
    | inr (m, e') ↦ some-ne-none _ (rw (exec_from, e, e') at h)
    | inl e' ↦ elim o [
      | inl (u, path) ↦ some-ne-none _ (run-Complete r (at p (c ∷ s) []) u some path e)
      | inr o' ↦ Occurs-exec r (some c) s e' o'
    ]
  ]
]

exec-Occurs :
    (r : Regex) (p : Option ℕ) (s : Text) (m : Match) → exec_from r p s ≡ some m → Occurs r p s
unfolding exec_from
exec-Occurs r p [] m h = elim (Option-cases (run r (at p [] []) some)) [
  | inl e ↦ absurd (some-ne-none m (sym h ∙ rw (exec_from, e) refl))
  | inr (t, e) ↦ let (u, path, e') = run-Sound r (at p [] []) some t e in (u, path)
]
exec-Occurs r p (c ∷ s) m h = elim (Option-cases (run r (at p (c ∷ s) []) some)) [
  | inr (t, e) ↦ let (u, path, e') = run-Sound r (at p (c ∷ s) []) some t e in inl (u, path)
  | inl e ↦ elim (Option-cases (exec_from r (some c) s)) [
    | inr (m', e') ↦ inr (exec-Occurs r (some c) s m' e')
    | inl e' ↦ absurd (some-ne-none m (sym h ∙ rw (exec_from, e, e') refl))
  ]
]

test_lem : (r : Regex) (s : Text) → test r s ≡ is_some (exec_from r none s)
unfolding test exec
test_lem r s = refl

-- `test` says whether the expression has a path from some place of the text.
pub test-Occurs : (r : Regex) (s : Text) → (test r s ≡ true) ↔ Occurs r none s
test-Occurs r s = elim (Option-cases (exec_from r none s)) [
  | inl e ↦
      rw (test_lem r s, e) ((λ h. absurd (false-ne-true h)), λ o. absurd (Occurs-exec r none s e o))
  | inr (m, e) ↦ rw (test_lem r s, e) ((λ h. exec-Occurs r none s m e), λ o. refl)
]
  where
    false-ne-true : false ≡ true → ⊥
    false-ne-true h = cc

-- every class of an expression lies within the class of all units
pub Only-all : (r : Regex) → Only (λ c. true) r
Only-all eps = tt
Only-all bol = tt
Only-all eol = tt
Only-all line_bol = tt
Only-all line_eol = tt
Only-all edge = tt
Only-all (chr q) = λ c h. refl
Only-all (seq a b) = (Only-all a, Only-all b)
Only-all (alt a b) = (Only-all a, Only-all b)
Only-all (star a) = Only-all a
Only-all (lazy a) = Only-all a
Only-all (group i a) = Only-all a

abbrev whole : Match → Text
whole m = m.before ++ (m.found ++ m.after)

run-between :
    (r : Regex) (s t : At) → run r s some ≡ some t → between s.rest t.rest ++ t.rest ≡ s.rest
run-between r s t h =
    let (u, path, e) = run-Sound r s some t h in
    let reads = Reaches-Reads r (Only-all r) s u path in
    let e' : s.rest ≡ reads.text ++ t.rest =
      reads.splits ∙ ap (λ x. reads.text ++ x.rest) (some-injective _ _ e) in
    rw (e', between-append reads.text t.rest) refl

pub exec_from-splits :
    (r : Regex) (p : Option ℕ) (s : Text) (m : Match)
    → exec_from r p s ≡ some m
    → m.before ++ (m.found ++ m.after) ≡ s
unfolding exec_from
exec_from-splits r p [] m h = elim (Option-cases (run r (at p [] []) some)) [
  | inl e ↦ absurd (some-ne-none _ (sym h ∙ rw (exec_from, e) refl))
  | inr (t, e) ↦ sym (ap whole (some-injective _ _ (rw (exec_from, e) at h)))
]
exec_from-splits r p (c ∷ s) m h = elim (Option-cases (run r (at p (c ∷ s) []) some)) [
  | inr (t, e) ↦
      sym (ap whole (some-injective _ _ (rw (exec_from, e) at h)))
      ∙ run-between r (at p (c ∷ s) []) t e
  | inl e ↦ elim (Option-cases (exec_from r (some c) s)) [
    | inl e' ↦ absurd (some-ne-none _ (sym h ∙ rw (exec_from, e, e') refl))
    | inr (m', e') ↦
        sym (ap whole (some-injective _ _ (rw (exec_from, e, e') at h)))
        ∙ ap (λ x. c ∷ x) (exec_from-splits r (some c) s m' e')
  ]
]

exec_lem : (r : Regex) (s : Text) → exec r s ≡ exec_from r none s
unfolding exec
exec_lem r s = refl

-- A match splits the text into what stands before it, what it takes, and what stands behind it.
pub exec-splits :
    (r : Regex) (s : Text) (m : Match) → exec r s ≡ some m → m.before ++ (m.found ++ m.after) ≡ s
exec-splits r s m h = exec_from-splits r none s m (sym (exec_lem r s) ∙ h)
