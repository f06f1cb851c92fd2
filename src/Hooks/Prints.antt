-- ===== src/Hooks/Prints.antt =====
-- .wolf/hooks/pre-write.js changes no file: what the hook does is to print.
use efipix.Prelude.{
  ◌≤◌, Bool, true, false, Option, none, some, List, [], ◌∷◌, ◌++◌, append_assoc, append-nil, ◌≡◌,
  refl, sym, ap, arith, length, take, length-take, Option-cases, inl, inr, if◌then◌else◌,
}
use efipix.Text.{Text, is_empty}
use efipix.NodePath.{basename}
use efipix.Regex.{test}
use efipix.World.{World, Bug, Input, warn, or_default, input_path}
use efipix.Hooks.PreWrite.{
  pre_write, warn_rules, warn_patterns, whole_word, pattern_warning, rule_of, patterns_of,
  check_cerebrum, after_text, content_of, section_title, warn_bugs, bug_text, check_bug_log,
  relevant_bugs, on_content,
}

-- `out` was printed and nothing else was done
abbrev pub Printed : List Text → World → World → Type 0
Printed out w w' = w' ≡ record w { stderr = w.stderr ++ out }

abbrev pub OnlyPrints : World → World → Type 0
OnlyPrints w w' = (out : List Text) × Printed out w w'

prints_none : (w : World) → OnlyPrints w w
prints_none w = ([], ap (λ s. record w { stderr = s }) (sym (append-nil w.stderr)))

prints_then : (w v u : World) → OnlyPrints w v → OnlyPrints v u → OnlyPrints w u
prints_then w v u (out, e) (more, e') =
    (out ++ more, rw (e', e) (ap (λ s. record w { stderr = s }) (append_assoc w.stderr out more)))

prints_one : (t : Text) (w : World) → OnlyPrints w (warn t w)
prints_one t w = (t ∷ [], refl)

prints_if :
    (b : Bool) (w v u : World) → OnlyPrints w v → OnlyPrints w u → OnlyPrints w (if b then v else u)
prints_if true w v u p q = p
prints_if false w v u p q = q

warn_patterns-OnlyPrints :
    (content rule : Text) (ps : List Text) (w : World)
    → OnlyPrints w (warn_patterns content rule ps w)
warn_patterns-OnlyPrints content rule [] w = prints_none w
warn_patterns-OnlyPrints content rule (p ∷ ps) w =
    let v = if test (whole_word p) content then warn (pattern_warning rule) w else w in
    prints_then w v _
      (prints_if (test (whole_word p) content) w _ w (prints_one (pattern_warning rule) w)
        (prints_none w))
      (warn_patterns-OnlyPrints content rule ps v)

warn_rules-OnlyPrints :
    (content : Text) (ls : List Text) (w : World) → OnlyPrints w (warn_rules content ls w)
unfolding warn_rules
warn_rules-OnlyPrints content [] w = prints_none w
warn_rules-OnlyPrints content (l ∷ ls) w =
    let v =
      if is_empty (rule_of l)
      then w
      else warn_patterns content (rule_of l) (patterns_of (rule_of l)) w in
    prints_then w v _
      (prints_if (is_empty (rule_of l)) w w _ (prints_none w)
        (warn_patterns-OnlyPrints content (rule_of l) (patterns_of (rule_of l)) w))
      (warn_rules-OnlyPrints content ls v)

check_cerebrum-OnlyPrints : (content : Text) (w : World) → OnlyPrints w (check_cerebrum content w)
unfolding check_cerebrum
check_cerebrum-OnlyPrints content w =
    elim (Option-cases (after_text section_title (content_of w.cerebrum))) [
      | inl e ↦ simp (check_cerebrum, e) (prints_none w)
      | inr (section, e) ↦ simp (check_cerebrum, e) (warn_rules-OnlyPrints content _ w)
    ]

-- the printed texts of the bugs
warn_bugs-Printed :
    (bs : List Bug) (w : World)
    → (out : List Text) × Printed out w (warn_bugs bs w) × (length out ≡ length bs)
warn_bugs-Printed [] w = ([], ap (λ s. record w { stderr = s }) (sym (append-nil w.stderr)), refl)
warn_bugs-Printed (b ∷ bs) w =
    let v = warn (bug_text b) w in
    let (out, e, n) = warn_bugs-Printed bs v in
    (
      bug_text b ∷ out,
      rw e (ap (λ s. record w { stderr = s }) (append_assoc w.stderr (bug_text b ∷ []) out)),
      omega (arith, n),
    )

-- a heading and the first two bugs
report-Printed :
    (t : Text) (bs : List Bug) (w : World)
    → (out : List Text) × Printed out w (warn_bugs (take 2 bs) (warn t w)) × (length out ≤ 3)
report-Printed t bs w =
    let (out, e, n) = warn_bugs-Printed (take 2 bs) (warn t w) in
    (
      t ∷ out,
      rw e (ap (λ s. record w { stderr = s }) (append_assoc w.stderr (t ∷ []) out)),
      omega (arith, n, length-take 2 bs),
    )

three_if :
    (b : Bool) (w v : World)
    → ((out : List Text) × Printed out w v × (length out ≤ 3))
    → (out : List Text) × Printed out w (if b then w else v) × (length out ≤ 3)
three_if true w v p =
    ([], ap (λ s. record w { stderr = s }) (sym (append-nil w.stderr)), omega arith)
three_if false w v p = p

-- The check of the bug log changes nothing but stderr, and prints at most three texts: a heading and
-- two bugs.
pub check_bug_log-Printed :
    (path edit : Text) (w : World)
    → (out : List Text) × Printed out w (check_bug_log path edit w) × (length out ≤ 3)
unfolding check_bug_log
check_bug_log-Printed path edit w =
    three_if _ w _
      (report-Printed _ (relevant_bugs (basename path) edit (or_default [] w.buglog)) w)

check_bug_log-OnlyPrints : (path edit : Text) (w : World) → OnlyPrints w (check_bug_log path edit w)
check_bug_log-OnlyPrints path edit w =
    let (out, e, n) = check_bug_log-Printed path edit w in (out, e)

on_content-OnlyPrints : (i : Input) (w : World) → OnlyPrints w (on_content i w)
on_content-OnlyPrints i w = prints_if _ w w _ (prints_none w) (
    prints_if _ w _ _
      (prints_then w _ _ (check_cerebrum-OnlyPrints _ w)
        (check_bug_log-OnlyPrints (input_path i) _ (check_cerebrum _ w)))
      (check_cerebrum-OnlyPrints _ w))

-- Whatever its input, pre-write.js changes nothing but stderr, where it adds texts at the end.
pub pre_write-OnlyPrints : (i : Option Input) (w : World) → OnlyPrints w (pre_write i w)
unfolding pre_write
pre_write-OnlyPrints none w = prints_none w
pre_write-OnlyPrints (some i) w =
    prints_if w.wolf_dir w _ w (on_content-OnlyPrints i w) (prints_none w)
