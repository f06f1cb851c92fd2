-- ===== src/Edit/Bounds.antt =====
-- Bounds of the texts that .wolf/hooks/post-write.js keeps of an edit.
use efipix.Prelude.{
  ℕ, zero, suc, ◌+◌, ◌≤◌, Bool, true, false, Option, none, some, List, [], ◌∷◌, ◌++◌, map, ◌≡◌,
  arith, length, length-append, take, All, if◌then◌else◌, ◌&&◌, leb, ltb, subst, Option-cases, inl,
  inr,
}
use efipix.Text.{Text, codes, join, prefix, trim}
use efipix.Edit.Summary.{minus}
use efipix.Edit.Words.{
  trimmed_lines, extract_changed_lines, find_operator_change, string_re, tokenize_code,
}
use efipix.Edit.Detect.{
  Detection, or_else, first_some, detectors, detect_fix_pattern, differences, value_of,
  reference_of, logic_of, detect_error_handling, detect_null_safety, detect_guard,
  detect_small_change, detect_logic, detect_operator, detect_import, detect_return, detect_async,
  detect_type, detect_style, detect_refactor, removed_lines, lines,
}
use efipix.Regex.Build.{found_all}
use efipix.World.{or_default}

length-prefix : (n : ℕ) (s : Text) → length (prefix n s) ≤ n
length-prefix zero s = omega arith
length-prefix (suc n) [] = omega arith
length-prefix (suc n) (c ∷ s) = omega (arith, length-prefix n s)

-- at most two texts with a separator of two units between them
length-join_two :
    (n : ℕ) (f : Text → Text) (ls : List Text)
    → length (join (map (λ l. prefix n (f l)) (take 2 ls)) (codes "; ")) ≤ n + n + 2
unfolding join
length-join_two n f [] = omega arith
length-join_two n f (a ∷ []) = omega (arith, length-prefix n (f a))
length-join_two n f (a ∷ b ∷ ls) = omega (
  arith,
  length-append (prefix n (f a)) (codes "; " ++ prefix n (f b)),
  length-prefix n (f a),
  length-prefix n (f b),
)

length-extract_changed_lines : (old new : Text) → length (extract_changed_lines old new) ≤ 122
unfolding extract_changed_lines
length-extract_changed_lines old new =
    omega (arith, length-join_two 60 (λ l. l) (minus (trimmed_lines new) (trimmed_lines old)))

-- the context of what was detected, if it has one, is within the bound
abbrev IsShort : Option Detection → Type 0
IsShort none = Unit {0}
IsShort (some d) = length (or_default [] d.context) ≤ 122

empty-short : zero ≤ 122
empty-short = omega arith

if-IsShort :
    (b : Bool) (x y : Option Detection) → IsShort x → IsShort y → IsShort (if b then x else y)
if-IsShort true x y p q = p
if-IsShort false x y p q = q

or_else-IsShort : (x y : Option Detection) → IsShort x → IsShort y → IsShort (or_else x y)
or_else-IsShort (some d) y p q = p
or_else-IsShort none y p q = q

first_some-IsShort : (l : List (Option Detection)) → All IsShort l → IsShort (first_some l)
first_some-IsShort [] h = tt
first_some-IsShort (o ∷ l) (p, h) = or_else-IsShort o (first_some l) p (first_some-IsShort l h)

value_of-IsShort : (l : List (Text × Text)) → IsShort (value_of l)
value_of-IsShort [] = tt
value_of-IsShort ((x, y) ∷ l) = empty-short

reference_of-IsShort : (l : List (Text × Text)) → IsShort (reference_of l)
reference_of-IsShort [] = tt
reference_of-IsShort ((x, y) ∷ []) = if-IsShort (ltb 2 (length x)) _ none empty-short tt
reference_of-IsShort ((x, y) ∷ z ∷ l) = tt

logic_of-IsShort : (old : Text) (x y : Option Text) → IsShort (logic_of old x y)
logic_of-IsShort old none y = tt
logic_of-IsShort old (some x) none = tt
logic_of-IsShort old (some x) (some y) = ground (arith, empty-short)

module _ (old new ext : Text) where
  added : length (extract_changed_lines old new) ≤ 122
  added = length-extract_changed_lines old new

  small_change-IsShort : IsShort (detect_small_change old new)
  unfolding detect_small_change
  small_change-IsShort =
      let values = differences (found_all string_re (trim old)) (found_all string_re (trim new)) in
      let names = differences (tokenize_code (trim old)) (tokenize_code (trim new)) in
      if-IsShort (leb (lines old) 3 && leb (lines new) 3)
        (or_else (value_of values) (reference_of names)) none
        (or_else-IsShort (value_of values) (reference_of names) (value_of-IsShort values)
          (reference_of-IsShort names))
        tt

  logic-IsShort : IsShort (detect_logic old new)
  unfolding detect_logic
  logic-IsShort = logic_of-IsShort old _ _

  async-IsShort : IsShort (detect_async old new)
  unfolding detect_async
  async-IsShort = ground (arith, added)

  refactor-IsShort : IsShort (detect_refactor old new)
  unfolding detect_refactor
  refactor-IsShort =
      let short : length
            (join (map (λ l. prefix 50 (trim l)) (take 2 (removed_lines old new))) (codes "; "))
          ≤ 122 =
        omega (arith, length-join_two 50 trim (removed_lines old new)) in
      ground (arith, short)

  plain-IsShort :
      IsShort (detect_guard old new)
      × (IsShort (detect_return old new) × IsShort (detect_style old new ext))
  unfolding detect_guard detect_return detect_style
  plain-IsShort = (ground arith, (ground arith, ground arith))

  telling-IsShort :
      IsShort (detect_error_handling old new)
      × (IsShort (detect_null_safety old new) × IsShort (detect_type old new ext))
  unfolding detect_error_handling detect_null_safety detect_type
  telling-IsShort = (ground (arith, added), (ground (arith, added), ground (arith, added)))

  operator-IsShort : IsShort (detect_operator old new)
  unfolding detect_operator
  operator-IsShort = elim (Option-cases (find_operator_change old new)) [
    | inl e ↦ rw (detect_operator, e) tt
    | inr (p, e) ↦ rw (detect_operator, e) empty-short
  ]

  import-IsShort : IsShort (detect_import old new)
  unfolding detect_import
  import-IsShort = ground (arith, empty-short)

  detectors-IsShort : All IsShort (detectors old new ext)
  detectors-IsShort = (
    telling-IsShort.0,
    (
      telling-IsShort.1.0,
      (
        plain-IsShort.0,
        (
          small_change-IsShort,
          (
            logic-IsShort,
            (
              operator-IsShort,
              (
                import-IsShort,
                (
                  plain-IsShort.1.0,
                  (
                    async-IsShort,
                    (telling-IsShort.1.1, (plain-IsShort.1.1, (refactor-IsShort, tt))),
                  ),
                ),
              ),
            ),
          ),
        ),
      ),
    ),
  )

-- The context that is kept of a detected fix, of whatever category, has at most 122 units: two lines
-- of sixty and what separates them. A fix without a context has an empty one.
pub detect_fix_pattern-context :
    (old new ext : Text) (d : Detection)
    → detect_fix_pattern old new ext ≡ some d
    → length (or_default [] d.context) ≤ 122
unfolding detect_fix_pattern
detect_fix_pattern-context old new ext d e =
    subst IsShort e (first_some-IsShort (detectors old new ext) (detectors-IsShort old new ext))
