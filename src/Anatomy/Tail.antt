-- ===== src/Anatomy/Tail.antt =====
-- The end of an entry's expression, ` (~N tok)`: it matches the end of a printed line, and nothing
-- longer. So the lazy group before it stops exactly where the description ends.
use efipix.Prelude.{
  ℕ, Bool, true, false, not, Option, none, some, List, [], ◌∷◌, ◌++◌, ◌≡◌, ◌≢◌, refl, sym, ap, ◌∙◌,
  arith, ◌==◌, Option-cases, inl, inr, append-nil, ==_iff,
}
use efipix.Text.{Text, codes, is_space}
use efipix.Text.Edges.{last_of, trim_start-spaces, trim_start_visible, trim_start_inside}
use efipix.Text.{trim_start}
use mathlib.Core.Bool.{false≢true}
use efipix.Regex.{Regex, At, run, is_digit, lit, seq, star, plus, chr, space, group, at_eol}
use efipix.Regex.Paths.{Reaches, run-Sound}
use efipix.Regex.Reads.{Only, Reaches-Reads}
use efipix.Regex.Runs.{at, Are, Stops, run-star}
use efipix.Regex.Steps.{run-seq, run-eol, run-plus, run-group_plus, run-lit}
use efipix.Anatomy.{tail_re}

abbrev pub blank : Text
blank = codes " "

-- what follows the description, for the digits `n`
abbrev pub tail_of : Text → Text
tail_of n = blank ++ (codes "(~" ++ (n ++ (blank ++ codes "tok)")))

pub blank-Are : Are is_space blank
unfolding is_space
blank-Are = (refl, tt)

tilde-Stops : (r : Text) → Stops is_space (codes "(~" ++ r)
unfolding is_space
tilde-Stops r = refl

space-Stops : (r : Text) → Stops is_digit (blank ++ r)
unfolding is_digit
space-Stops r = refl

t-Stops : (r : Text) → Stops is_space (codes "tok)" ++ r)
unfolding is_space
t-Stops r = refl

pub run-tail :
    (n : Text) (q : Option ℕ) (c : List (ℕ × Text))
    → Are is_digit n
    → n ≢ []
    → run tail_re (at q (tail_of n) c) some ≡ some (at (some b')') [] ((3, n) ∷ c))
run-tail n q c digits ne = run-seq _ _ _ _ (
    run-star is_space _ c _ _ blank q blank-Are (tilde-Stops (n ++ (blank ++ codes "tok)"))) (
      run-seq _ _ _ _ (
        run-lit (codes "(~") _ _ c _
        ∙ run-seq _ _ _ _ (
            run-group_plus is_digit c 3 n _ _ _ ne digits (space-Stops (codes "tok)")) (
              run-seq _ _ _ _ (
                run-plus is_space _ blank _ _ _ (cc) blank-Are (t-Stops [])
                  (run-seq _ _ _ _ (run-lit (codes "tok)") [] _ _ _ ∙ run-eol _ _ _))))))))

abbrev is_not_paren : ℕ → Bool
is_not_paren c = not (c == b'(')

-- what follows the parenthesis
abbrev inner_re : Regex
inner_re =
    seq (chr (λ c. c == b'~'))
      (seq (group 3 (plus (chr is_digit))) (seq (plus space) (lit (codes "tok)"))))

digit_not_paren : (c : ℕ) → is_digit c ≡ true → is_not_paren c ≡ true
unfolding is_digit
digit_not_paren c h = ground arith

space_not_paren : (c : ℕ) → is_space c ≡ true → is_not_paren c ≡ true
unfolding is_space
space_not_paren c h = ground arith

eq_not_paren : (d c : ℕ) → d ≢ b'(' → (c == d) ≡ true → is_not_paren c ≡ true
eq_not_paren d c ne h = ground arith

inner-Only : Only is_not_paren inner_re
inner-Only = (
  λ c. eq_not_paren b'~' c (omega arith),
  (
    (digit_not_paren, digit_not_paren),
    (
      (space_not_paren, space_not_paren),
      (
        λ c. eq_not_paren b't' c (omega arith),
        (
          λ c. eq_not_paren b'o' c (omega arith),
          (λ c. eq_not_paren b'k' c (omega arith), λ c. eq_not_paren b')' c (omega arith)),
        ),
      ),
    ),
  ),
)

at_eol-rest : (s : At) (r : Text) → s.rest ≡ r → at_eol s ≡ true → r ≡ []
unfolding at_eol
at_eol-rest s [] e h = refl
at_eol-rest s (c ∷ r) e h = absurd (false≢true (rw e at h))

-- Text that the end matches: white space, a parenthesis, and no parenthesis behind it.
record IsTail (s : Text) : Type 0 where
  spaces : Text
  inner : Text
  splits : s ≡ spaces ++ b'(' ∷ inner
  spaces_are : Are is_space spaces
  inner_are : Are is_not_paren inner

written-IsTail : (s t : At) → Reaches tail_re s t → IsTail s.rest
written-IsTail s t
      (u, sp, (v, (w, (c, r, l, pc, e), tilde), (x, digits, (y, sp', (z, tok, (e', eq)))))) =
    let a = Reaches-Reads (star space) (λ c h. h) s u sp in
    let b = Reaches-Reads inner_re inner-Only w z (v, tilde, (x, digits, (y, sp', tok))) in
    record {
      spaces = a.text;
      inner = b.text;
      splits =
          a.splits
          ∙ ap (λ k. a.text ++ k)
              (l
                ∙ ap (λ d. d ∷ r) ((==_iff c b'(').0 pc)
                ∙ ap (λ k. b'(' ∷ k)
                    (ap (λ k. k.rest) e
                      ∙ b.splits
                      ∙ rw (at_eol-rest z z.rest refl e', append-nil)));
      spaces_are = a.are;
      inner_are = b.are;
    }

Are-append_right : (p : ℕ → Bool) (xs ys : Text) → Are p (xs ++ ys) → Are p ys
Are-append_right p [] ys h = h
Are-append_right p (x ∷ xs) ys (hx, h) = Are-append_right p xs ys h

-- In front of a printed end stands no text that ends with a visible unit.
not-IsTail :
    (y : ℕ) (w n : Text) → is_space (last_of y w) ≡ false → IsTail (y ∷ (w ++ tail_of n)) → ⊥
not-IsTail y w n vis h =
    let (z, zs, e) = trim_start_inside y w (tail_of n) vis in
    let e' : z ∷ (zs ++ tail_of n) ≡ b'(' ∷ h.inner =
      sym e
      ∙ ap trim_start h.splits
      ∙ trim_start-spaces h.spaces (b'(' ∷ h.inner) h.spaces_are
      ∙ trim_start_visible b'(' h.inner (unfold is_space in refl) in
    let inner : zs ++ tail_of n ≡ h.inner = cc in
    let none_of = Are-append_right is_not_paren zs (tail_of n) (rw inner h.inner_are) in
    false≢true none_of.1.0

pub run-tail_fails :
    (y : ℕ) (w n : Text) (q : Option ℕ) (c : List (ℕ × Text))
    → is_space (last_of y w) ≡ false
    → run tail_re (at q (y ∷ (w ++ tail_of n)) c) some ≡ none
run-tail_fails y w n q c vis =
    let s = at q (y ∷ (w ++ tail_of n)) c in
    elim (Option-cases (run tail_re s some)) [
      | inl e ↦ e
      | inr (t, e) ↦
          let (u, r, _) = run-Sound tail_re s some t e in
          absurd (not-IsTail y w n vis (written-IsTail s u r))
    ]
