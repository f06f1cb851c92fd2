-- ===== src/Edit/Unchanged.antt =====
-- `detectFixPattern` of .wolf/hooks/post-write.js for an edit that changes nothing.
use efipix.Prelude.{
  Bool, true, false, ◌&&◌, Option, none, some, List, [], ◌∷◌, map, ◌≡◌, ◌≢◌, refl, sym, ◌∙◌, arith,
  All, Bool-cases, inl, inr, if◌then◌else◌,
}
use efipix.Text.{Text, codes, equal, trim}
use efipix.Text.Laws.{equal_iff, equal_refl}
use efipix.Sorting.Laws.{Distinct}
use efipix.Tokens.{one_of}
use efipix.Regex.Build.{group_in, found_all}
use efipix.Edit.Summary.{style_exts, gains, minus, if_re}
use efipix.Edit.Words.{
  operators, operator_from, extract_css_props, changed_props, put, find, put_all, css_pairs,
  import_re, string_re, tokenize_code,
}
use efipix.Edit.Detect.{
  Detection, returned, detect_fix_pattern, detectors, first_some, detect_error_handling,
  detect_null_safety, detect_guard, detect_small_change, detect_logic, detect_operator,
  detect_import, detect_return, detect_async, detect_type, detect_style, detect_refactor,
  differences, logic_of,
}

gains-same : (s x : Text) → gains s s x ≡ false
gains-same s x = ground arith

error_handling-same : (s : Text) → detect_error_handling s s ≡ none
unfolding detect_error_handling
error_handling-same s = rw (detect_error_handling, gains-same s (codes "catch")) refl

null_safety-same : (s : Text) → detect_null_safety s s ≡ none
unfolding detect_null_safety
null_safety-same s = ground arith

guard-same : (s : Text) → detect_guard s s ≡ none
unfolding detect_guard
guard-same s = ground arith

differences-same : (xs : List Text) → differences xs xs ≡ []
differences-same [] = refl
differences-same (x ∷ xs) = rw (equal_refl x) (differences-same xs)

if_none : (b : Bool) (o : Option Detection) → o ≡ none → (if b then o else none) ≡ none
if_none true o e = e
if_none false o e = refl

small_change-same : (s : Text) → detect_small_change s s ≡ none
unfolding detect_small_change
small_change-same s =
    rw
      (
        detect_small_change,
        differences-same (found_all string_re (trim s)),
        differences-same (tokenize_code (trim s)),
      )
      (if_none _ none refl)

logic_of-same : (s : Text) (o : Option Text) → logic_of s o o ≡ none
logic_of-same s none = refl
logic_of-same s (some x) = rw (equal_refl x) refl

logic-same : (s : Text) → detect_logic s s ≡ none
unfolding detect_logic
logic-same s = logic_of-same s (group_in 1 if_re s)

operator_from-same : (s : Text) (ops : List Text) → operator_from s s ops ≡ none
unfolding operator_from
operator_from-same s [] = refl
operator_from-same s (op ∷ ops) = ground (arith, operator_from-same s ops)

operator-same : (s : Text) → detect_operator s s ≡ none
unfolding detect_operator
operator-same s = rw (detect_operator, operator_from-same s operators) refl

return-same : (s : Text) → detect_return s s ≡ none
unfolding detect_return
return-same s = ground (arith, equal_refl (returned s))

async-same : (s : Text) → detect_async s s ≡ none
unfolding detect_async
async-same s = rw (detect_async, gains-same s (codes "await "), gains-same s (codes "async ")) refl

type-same : (s ext : Text) → detect_type s s ext ≡ none
unfolding detect_type
type-same s ext = ground (arith)

refactor-same : (s : Text) → detect_refactor s s ≡ none
unfolding detect_refactor
refactor-same s = ground arith

-- imports
one_of-cons : (y x : Text) (ys : List Text) → one_of ys x ≡ true → one_of (y ∷ ys) x ≡ true
unfolding one_of
one_of-cons y x ys h = ground arith

All-one_of :
    (y : Text) (ys xs : List Text)
    → All (λ x. one_of ys x ≡ true) xs
    → All (λ x. one_of (y ∷ ys) x ≡ true) xs
All-one_of y ys [] h = tt
All-one_of y ys (x ∷ xs) (hx, h) = (one_of-cons y x ys hx, All-one_of y ys xs h)

one_of-head : (x : Text) (xs : List Text) → one_of (x ∷ xs) x ≡ true
unfolding one_of
one_of-head x xs = rw (one_of, equal_refl x) refl

one_of_self : (xs : List Text) → All (λ x. one_of xs x ≡ true) xs
one_of_self [] = tt
one_of_self (x ∷ xs) = (one_of-head x xs, All-one_of x xs xs (one_of_self xs))

minus-nil : (ys xs : List Text) → All (λ x. one_of ys x ≡ true) xs → minus xs ys ≡ []
minus-nil ys [] h = refl
minus-nil ys (x ∷ xs) (hx, h) = rw hx (minus-nil ys xs h)

import-same : (s : Text) → detect_import s s ≡ none
unfolding detect_import
import-same s =
    rw (detect_import, minus-nil (found_all import_re s) (found_all import_re s) (one_of_self _))
      refl

-- style properties
abbrev Props : Type 0
Props = List (Text × Text)

abbrev names : Props → List Text
names m = map (λ p. p.0) m

Fresh-put :
    (k v j : Text) (m : Props)
    → k ≢ j
    → All (λ i. i ≢ j) (names m)
    → All (λ i. i ≢ j) (names (put k v m))
Fresh-put k v j [] ne h = (ne, tt)
Fresh-put k v j ((i, u) ∷ m) ne (hi, h) = elim (Bool-cases (equal i k)) [
  | inl e ↦ rw e (hi, h)
  | inr e ↦ rw e (hi, Fresh-put k v j m ne h)
]

Distinct-put : (k v : Text) (m : Props) → Distinct (names m) → Distinct (names (put k v m))
Distinct-put k v [] d = (tt, tt)
Distinct-put k v ((i, u) ∷ m) (di, d) = elim (Bool-cases (equal i k)) [
  | inl e ↦ rw e (di, d)
  | inr e ↦ rw e (
    Fresh-put k v i m (λ e'. true-ne-false (sym (equal_refl i) ∙ rw e' at e)) di,
    Distinct-put k v m d,
  )
]
  where
    true-ne-false : true ≡ false → ⊥
    true-ne-false e = cc

Distinct-put_all : (acc l : Props) → Distinct (names acc) → Distinct (names (put_all acc l))
Distinct-put_all acc [] d = d
Distinct-put_all acc ((k, v) ∷ l) d = Distinct-put_all (put k v acc) l (Distinct-put k v acc d)

abbrev Finds : Props → Props → Type 0
Finds m l = All (λ p. find p.0 m ≡ some p.1) l

Finds-cons :
    (i u : Text) (m l : Props) → All (λ k. k ≢ i) (names l) → Finds m l → Finds ((i, u) ∷ m) l
Finds-cons i u m [] h f = tt
Finds-cons i u m ((k, v) ∷ l) (ne, h) (e, f) = elim (Bool-cases (equal i k)) [
  | inl b ↦ absurd (ne (sym ((equal_iff i k).0 b)))
  | inr b ↦ (rw b e, Finds-cons i u m l h f)
]

Finds-self : (m : Props) → Distinct (names m) → Finds m m
Finds-self [] d = tt
Finds-self ((i, u) ∷ m) (di, d) = (rw (equal_refl i) refl, Finds-cons i u m m di (Finds-self m d))

changed_props-nil : (old m : Props) → Finds old m → changed_props old m ≡ []
changed_props-nil old [] f = refl
changed_props-nil old ((k, v) ∷ m) (e, f) =
    rw (changed_props, e, equal_refl v) (changed_props-nil old m f)

Distinct-props : (s : Text) → Distinct (names (extract_css_props s))
unfolding extract_css_props
Distinct-props s = Distinct-put_all [] (css_pairs s) tt

unmet : (b : Bool) (o : Option Detection) → (if b && false then o else none) ≡ none
unmet b o = ground arith

style-same : (s ext : Text) → detect_style s s ext ≡ none
unfolding detect_style
style-same s ext =
    rw
      (
        detect_style,
        changed_props-nil (extract_css_props s) (extract_css_props s)
            (Finds-self (extract_css_props s) (Distinct-props s)),
      )
      (unmet (one_of style_exts ext) _)

detectors_lem :
    (old new ext : Text) → detect_fix_pattern old new ext ≡ first_some (detectors old new ext)
unfolding detect_fix_pattern
detectors_lem old new ext = refl

-- An edit that changes nothing is no fix, whatever the text and the extension.
pub detect_fix_pattern-same : (s ext : Text) → detect_fix_pattern s s ext ≡ none
detect_fix_pattern-same s ext =
    detectors_lem s s ext
    ∙ rw
        (
          error_handling-same s,
          null_safety-same s,
          guard-same s,
          small_change-same s,
          logic-same s,
          operator-same s,
          import-same s,
          return-same s,
          async-same s,
          type-same s ext,
          style-same s ext,
          refactor-same s,
        )
        refl
