-- ===== src/Edit/Detect.antt =====
-- `detectFixPattern` of .wolf/hooks/post-write.js: the first pattern that an edit shows, in the order
-- of the source.
mod Kinds
pub use Kinds.{
  Category, error_handling, null_safety, guard_clause, wrong_value, wrong_reference, logic_fix,
  operator_fix, missing_import, return_value, async_fix, type_fix, style_fix, refactor, Detection,
  plain, telling, or_else, or_text, lines,
}
use efipix.Prelude.{
  ℕ, ◌+◌, ◌-◌, ◌*◌, not, ◌&&◌, ◌||◌, Option, none, some, List, [], ◌∷◌, ◌++◌, map, ◌==◌, ltb, leb,
  if◌then◌else◌, length, keep, take,
}
use efipix.Text.{Text, codes, equal, includes, trim, split, join, prefix, is_empty}
use efipix.Text.Decimal.{show}
use efipix.NodePath.{basename}
use efipix.Tokens.{one_of}
use efipix.Regex.{test, match_all, group_of}
use efipix.Regex.Build.{group_in, found_all, somes}
use efipix.Edit.Summary.{gains, if_re, style_exts, minus}
use efipix.Edit.Words.{
  extract_changed_lines, tokenize_code, operator_from, find_operator_change, extract_css_props,
  changed_props, or_nil, null_re, guard_re, named_re, string_re, module_re, import_re, return_re,
}

unfoldable pub detect_error_handling : Text → Text → Option Detection
detect_error_handling old new =
    if gains old new (codes "catch")
    then telling error_handling
        (codes "Missing error handling in "
          ++ basename (or_text (group_in 1 named_re new) (codes "unknown")))
        (codes "Code path had no error handling — exceptions would propagate uncaught")
        (codes "Added try/catch block") (extract_changed_lines old new)
    else none

-- The summary names `path.basename("")`, which is empty.
unfoldable pub detect_null_safety : Text → Text → Option Detection
detect_null_safety old new =
    if gains old new (codes "?.")
      || gains old new (codes "?? ")
      || (test null_re new && not (test null_re old))
    then telling null_safety (codes "Null/undefined access in " ++ basename (basename []))
        (codes "Property access on potentially null/undefined value")
        (codes "Added null safety (optional chaining or null check)")
        (extract_changed_lines old new)
    else none

unfoldable pub detect_guard : Text → Text → Option Detection
detect_guard old new =
    if test guard_re new && not (test guard_re old)
    then (let found : Text = elim (group_in 1 if_re new) [
      | none ↦ []
      | some c ↦ prefix 60 (trim c)
    ] in
        let condition = or_text (some found) (codes "condition") in
        plain guard_clause (codes "Missing guard clause")
          (codes "No early return/throw for edge case: " ++ condition)
          (codes "Added guard clause: if (" ++ (prefix 40 condition ++ codes ")")))
    else none

-- the pairs, place by place, that differ
abbrev pub differences : List Text → List Text → List (Text × Text)
differences [] ys = []
differences (x ∷ xs) [] = []
differences (x ∷ xs) (y ∷ ys) =
    let rest = differences xs ys in if equal x y then rest else (x, y) ∷ rest

abbrev pub value_of : List (Text × Text) → Option Detection
value_of [] = none
value_of ((x, y) ∷ l) =
    plain wrong_value (codes "Incorrect value in code") (codes "Had " ++ prefix 50 x)
      (codes "Changed to " ++ prefix 50 y)

abbrev pub reference_of : List (Text × Text) → Option Detection
reference_of ((x, y) ∷ []) =
    if ltb 2 (length x)
    then plain wrong_reference (codes "Wrong reference: " ++ (x ++ (codes " should be " ++ y)))
        (codes "Used \"" ++ (x ++ (codes "\" instead of \"" ++ (y ++ codes "\""))))
        (codes "Changed " ++ (x ++ (codes " → " ++ y)))
    else none
reference_of _ = none

unfoldable pub detect_small_change : Text → Text → Option Detection
detect_small_change old new =
    if leb (lines old) 3 && leb (lines new) 3
    then or_else
        (value_of (differences (found_all string_re (trim old)) (found_all string_re (trim new))))
        (reference_of (differences (tokenize_code (trim old)) (tokenize_code (trim new))))
    else none

abbrev pub logic_of : Text → Option Text → Option Text → Option Detection
logic_of old (some x) (some y) =
    if not (equal x y) && leb (lines old) 5
    then plain logic_fix (codes "Wrong condition in logic")
        (codes "Condition was: if (" ++ (prefix 50 x ++ codes ")"))
        (codes "Changed to: if (" ++ (prefix 50 y ++ codes ")"))
    else none
logic_of old _ _ = none

unfoldable pub detect_logic : Text → Text → Option Detection
detect_logic old new = logic_of old (group_in 1 if_re old) (group_in 1 if_re new)

unfoldable pub detect_operator : Text → Text → Option Detection
detect_operator old new = elim (find_operator_change old new) [
  | none ↦ none
  | some (x, y) ↦
      plain operator_fix (codes "Wrong operator: " ++ (x ++ (codes " should be " ++ y)))
        (codes "Used \"" ++ (x ++ (codes "\" instead of \"" ++ (y ++ codes "\""))))
        (codes "Changed operator " ++ (x ++ (codes " → " ++ y)))
]

unfoldable pub detect_import : Text → Text → Option Detection
detect_import old new =
    let added = minus (found_all import_re new) (found_all import_re old) in
    let modules = join (somes (map (group_in 1 module_re) added)) (codes ", ") in
    if ltb 0 (length added) && leb (lines new) (lines old + length added + 2)
    then plain missing_import (codes "Missing import: " ++ modules)
        (codes "Module(s) not imported: " ++ modules) (codes "Added import(s) for " ++ modules)
    else none

abbrev pub returned : Text → Text
returned s = trim (or_nil (group_in 1 return_re s))

unfoldable pub detect_return : Text → Text → Option Detection
detect_return old new =
    let x = returned old in
    let y = returned new in
    if not (is_empty x) && not (is_empty y) && not (equal x y) && leb (lines old) 5
    then plain return_value (codes "Wrong return value") (codes "Was returning: " ++ prefix 50 x)
        (codes "Now returns: " ++ prefix 50 y)
    else none

unfoldable pub detect_async : Text → Text → Option Detection
detect_async old new =
    if gains old new (codes "await ")
    then telling async_fix (codes "Missing await")
        (codes "Async call without await — returned Promise instead of value")
        (codes "Added await to async call") (extract_changed_lines old new)
    else if gains old new (codes "async ")
    then plain async_fix (codes "Function not marked async")
        (codes "Function uses await but wasn't declared async") (codes "Added async modifier")
    else none

unfoldable pub detect_type : Text → Text → Text → Option Detection
detect_type old new ext =
    if one_of (codes ".ts" ∷ codes ".tsx" ∷ []) ext
      && (gains old new (codes " as ") || (gains old new (codes ": ") && leb (lines old) 3))
    then telling type_fix (codes "Type error") (codes "Missing or incorrect type annotation")
        (codes "Added type assertion/annotation") (extract_changed_lines old new)
    else none

abbrev change_text : Text × Text × Text → Text
change_text (k, u, v) = k ++ (codes ": " ++ (u ++ (codes " → " ++ v)))

unfoldable pub detect_style : Text → Text → Text → Option Detection
detect_style old new ext =
    let changed = changed_props (extract_css_props old) (extract_css_props new) in
    let desc = join (map change_text changed) (codes "; ") in
    if one_of style_exts ext && (ltb 0 (length changed) && leb (length changed) 3)
    then plain style_fix (codes "CSS fix: " ++ join (map (λ p. p.0) changed) (codes ", ")) desc
        (codes "Changed " ++ desc)
    else none

abbrev pub distance : ℕ → ℕ → ℕ
distance a b = (a - b) + (b - a)

abbrev pub max_one : ℕ → ℕ
max_one n = if n == 0 then 1 else n

abbrev pub removed_lines : Text → Text → List Text
removed_lines old new =
    let kept = map trim (split new b'\n') in
    keep (λ l. not (is_empty (trim l)) && not (one_of kept (trim l))) (split old b'\n')

-- The ratio of the lengths' difference is compared to 0.3 in whole numbers.
unfoldable pub detect_refactor : Text → Text → Option Detection
detect_refactor old new =
    let removed = removed_lines old new in
    if ltb (3 * max_one (length old)) (10 * distance (length new) (length old))
      && (leb 3 (lines old) && (leb 3 (lines new) && leb 2 (length removed)))
    then telling refactor (codes "Significant refactor of " ++ basename [])
        (show (length removed) ++ codes " lines replaced/restructured")
        (codes "Rewrote "
          ++ (show (lines old)
              ++ (codes "→"
                  ++ (show (lines new)
                      ++ (codes " lines (" ++ (show (length removed) ++ codes " removed)"))))))
        (join (map (λ l. prefix 50 (trim l)) (take 2 removed)) (codes "; "))
    else none

abbrev pub detectors : Text → Text → Text → List (Option Detection)
detectors old new ext =
    detect_error_handling old new
    ∷ detect_null_safety old new
    ∷ detect_guard old new
    ∷ detect_small_change old new
    ∷ detect_logic old new
    ∷ detect_operator old new
    ∷ detect_import old new
    ∷ detect_return old new
    ∷ detect_async old new
    ∷ detect_type old new ext
    ∷ detect_style old new ext
    ∷ detect_refactor old new
    ∷ []

abbrev pub first_some : List (Option Detection) → Option Detection
first_some [] = none
first_some (o ∷ os) = or_else o (first_some os)

unfoldable pub detect_fix_pattern : Text → Text → Text → Option Detection
unfolding detect_error_handling detect_null_safety detect_guard detect_small_change detect_logic
    detect_operator detect_import detect_return detect_async detect_type detect_style
    detect_refactor extract_changed_lines tokenize_code operator_from extract_css_props includes
    trim split join show basename one_of test match_all found_all group_in group_of equal
detect_fix_pattern old new ext = first_some (detectors old new ext)
