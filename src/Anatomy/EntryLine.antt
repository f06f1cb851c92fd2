-- ===== src/Anatomy/EntryLine.antt =====
-- A printed entry line is matched by the expression of `parseAnatomy`, with the entry's fields as
-- its groups.
use efipix.Prelude.{
  ℕ, Bool, false, Option, none, some, List, [], ◌∷◌, ◌++◌, ◌≡◌, ◌≢◌, refl, ap, ◌∙◌, arith, ◌==◌,
  All, if◌then◌else◌,
}
use efipix.Text.{Text, codes, is_space, is_empty}
use efipix.Text.Edges.{last_of, HasEdges}
use efipix.Text.Decimal.{show, show-IsDigit, show-ne-nil, parse_int, parse_int-show, IsDigit}
use efipix.Regex.{
  Regex, At, Cont, Match, run, exec, is_digit, is_any, capture, chr, lazy, seq, opt, group,
  group_of, find_group, lit, plus,
}
use efipix.Regex.Runs.{
  at, last, Are, Stops, FailsIn, run-lazy, capture_lem, exec-eq-some, exec-eq-none,
}
use efipix.Regex.Steps.{
  run-seq, run-eps, run-chr, run-chr_fails, run-group, run-plus, run-group_plus, run-lit,
  run-alt_first, run-alt_second,
}
use efipix.Anatomy.{
  Entry, or_empty, entry_re, description_re, tail_re, entry_line, entry_of, is_not_tick, section_re,
}
use efipix.Anatomy.Tail.{blank, blank-Are, tail_of, run-tail, run-tail_fails}

-- What a line can hold: a name with no backtick, and a description on one line that neither
-- begins nor ends with white space.
pub record IsPrintable (e : Entry) : Type 0 where
  pub file_ne_nil : e.file ≢ []
  pub file_ticks : Are is_not_tick e.file
  pub file_lines : All (λ c. c ≢ b'\n') e.file
  pub description_any : Are is_any e.description
  pub description_edges : e.description ≢ [] → HasEdges e.description

IsDigit-Are : (w : Text) → All IsDigit w → Are is_digit w
unfolding is_digit
IsDigit-Are [] h = tt
IsDigit-Are (c ∷ w) (h, t) = (ground arith, IsDigit-Are w t)

show-Are : (n : ℕ) → Are is_digit (show n)
show-Are n = IsDigit-Are (show n) (show-IsDigit n)

-- the printed description
abbrev dash : Text → Text
dash [] = []
dash (x ∷ w) = codes " — " ++ (x ∷ w)

abbrev described : Text → List (ℕ × Text) → List (ℕ × Text)
described [] c = c
described (x ∷ w) c = (2, x ∷ w) ∷ c

dash-Stops : (r : Text) → Stops is_space (codes "—" ++ r)
unfolding is_space
dash-Stops r = refl

module _ (n : ℕ) (c : List (ℕ × Text)) where
  abbrev rest : Text
  rest = tail_of (show n)

  abbrev then_tail : Cont
  then_tail u = run tail_re u some

  -- with no description the optional group fails at the parenthesis
  run-undescribed :
      (q : Option ℕ)
      → run (opt description_re) (at q rest c) then_tail
        ≡ some (at (some b')') [] ((3, show n) ∷ c))
  run-undescribed q =
      run-alt_second _ _ _ _ (unfold run is_space in refl)
        (run-eps _ _ ∙ run-tail (show n) q c (show-Are n) (show-ne-nil n))

  abbrev then_capture : At → Cont
  then_capture s u = then_tail (capture 2 s u)

  run-FailsIn :
      (p : ℕ → Bool) (s t : At) (x : ℕ) (w : Text)
      → is_space (last_of x w) ≡ false
      → FailsIn p rest c (then_capture s) t (some x) w
  unfolding capture
  run-FailsIn p s t x [] vis = tt
  run-FailsIn p s t x (y ∷ w) vis = (run-tail_fails y w (show n) _ _ vis, run-FailsIn p s t y w vis)

  run-description :
      (x : ℕ) (w : Text) (q : Option ℕ)
      → Are is_any (x ∷ w)
      → is_space (last_of x w) ≡ false
      → run (group 2 (seq (chr is_any) (lazy (chr is_any)))) (at q (x ∷ (w ++ rest)) c) then_tail
        ≡ some (at (some b')') [] ((3, show n) ∷ (2, x ∷ w) ∷ c))
  run-description x w q (ax, aw) vis =
      let s = at q (x ∷ (w ++ rest)) c in
      run-group _ _ _ _ (
        run-seq _ _ _ _ (
          run-chr is_any c x (w ++ rest) q _ ax
          ∙ run-lazy is_any rest c (then_capture s) _ w (some x) aw (run-FailsIn is_any s s x w vis)
              (rw (capture_lem 2 (x ∷ w) rest q (last (some x) w) c)
                (run-tail (show n) _ ((2, x ∷ w) ∷ c) (show-Are n) (show-ne-nil n)))))

  run-described :
      (d : Text) (q : Option ℕ)
      → Are is_any d
      → (d ≢ [] → HasEdges d)
      → run (opt description_re) (at q (dash d ++ rest) c) then_tail
        ≡ some (at (some b')') [] ((3, show n) ∷ described d c))
  run-described [] q a h = run-undescribed q
  run-described (x ∷ w) q a h =
      let (first, vis) = h (cc) in
      run-alt_first _ _ _ _ (
        run-seq _ _ _ _ (
          run-plus is_space c blank _ q _ (cc) blank-Are (dash-Stops (blank ++ (x ∷ (w ++ rest)))) (
            run-seq _ _ _ _ (
              run-lit (codes "—") _ _ c _
              ∙ run-seq _ _ _ _ (
                  run-plus is_space c blank (x ∷ (w ++ rest)) _ _ (cc) blank-Are first
                    (run-description x w _ a vis))))))

-- the expression behind its `^`
abbrev body_re : Regex
body_re = seq (lit (codes "- `")) (
    seq (group 1 (plus (chr is_not_tick)))
      (seq (lit (codes "`")) (seq (opt description_re) tail_re)))

entry_line-dash :
    (e : Entry)
    → entry_line e
      ≡ codes "- `" ++ (e.file ++ (codes "`" ++ (dash e.description ++ tail_of (show e.tokens))))
unfolding entry_line
entry_line-dash e =
    ap (λ d. codes "- `" ++ (e.file ++ (codes "`" ++ (d ++ tail_of (show e.tokens)))))
      (dashed e.description)
  where
    dashed : (d : Text) → (if is_empty d then [] else codes " — " ++ d) ≡ dash d
    dashed [] = refl
    dashed (x ∷ w) = refl

run-body :
    (e : Entry)
    → IsPrintable e
    → run body_re (at none (entry_line e) []) some
      ≡ some (at (some b')') [] ((3, show e.tokens) ∷ described e.description ((1, e.file) ∷ [])))
run-body e p = rw (entry_line-dash e) (
    run-seq _ _ _ _ (
      run-lit (codes "- `") _ none [] _
      ∙ run-seq _ _ _ _ (
          run-group_plus is_not_tick [] 1 e.file _ _ _ p.file_ne_nil p.file_ticks refl (
            run-seq _ _ _ _ (
              run-lit (codes "`") _ _ _ _
              ∙ run-seq _ _ _ _ (
                  run-described e.tokens _ e.description _ p.description_any
                    p.description_edges))))))

-- the groups of a printed line
module _ (m : Match) (n : ℕ) (d f : Text)
    (h : m.groups ≡ (3, show n) ∷ described d ((1, f) ∷ [])) where
  group_file : or_empty (group_of 1 m) ≡ f
  unfolding group_of
  group_file = rw h (by d)
    where
      by : (d : Text) → or_empty (find_group 1 ((3, show n) ∷ described d ((1, f) ∷ []))) ≡ f
      by [] = refl
      by (x ∷ w) = refl

  group_description : or_empty (group_of 2 m) ≡ d
  unfolding group_of
  group_description = rw h (by d)
    where
      by : (d : Text) → or_empty (find_group 2 ((3, show n) ∷ described d ((1, f) ∷ []))) ≡ d
      by [] = refl
      by (x ∷ w) = refl

  group_tokens : parse_int (or_empty (group_of 3 m)) ≡ n
  unfolding group_of
  group_tokens = rw h (parse_int-show n)

entry_of-groups :
    (m : Match) (e : Entry)
    → m.groups ≡ (3, show e.tokens) ∷ described e.description ((1, e.file) ∷ [])
    → entry_of m ≡ e
entry_of-groups m e h = λ i. record {
  file = group_file m e.tokens e.description e.file h i;
  description = group_description m e.tokens e.description e.file h i;
  tokens = group_tokens m e.tokens e.description e.file h i;
}

entry_line-ne-nil : (e : Entry) → entry_line e ≢ []
entry_line-ne-nil e = rw (entry_line-dash e) (cc)

-- A printable entry's line is matched, and the match holds the entry.
pub exec-entry_line :
    (e : Entry)
    → IsPrintable e
    → (m : Match) × (exec entry_re (entry_line e) ≡ some m) × (entry_of m ≡ e)
exec-entry_line e p =
    let (m, found, groups) =
      exec-eq-some body_re (entry_line e) _ _ (entry_line-ne-nil e) (run-body e p) in
    (m, found, entry_of-groups m e groups)

-- Neither an entry's line nor one of the header is taken for a section's.
pub exec-section_re : (c : ℕ) (s : Text) → (c == b'#') ≡ false → exec section_re (c ∷ s) ≡ none
exec-section_re c s h =
    exec-eq-none _ (c ∷ s) (run-seq _ _ _ _ (run-seq _ _ _ _ (run-chr_fails _ [] c s none _ h)))

pub exec-section_re-entry_line : (e : Entry) → exec section_re (entry_line e) ≡ none
exec-section_re-entry_line e = rw (entry_line-dash e) (exec-section_re b'-' _ refl)
