-- ===== src/Edit/Summary.antt =====
-- `summarizeEdit` of .wolf/hooks/post-write.js.
mod Patterns
unfoldable pub use Patterns.{extract_calls}
pub use Patterns.{
  both, gains, import_re, call_re, quoted_re, number_re, prop_re, prop_names, if_re, function_re,
  method_re, style_exts, minus,
}
use efipix.Prelude.{
  ℕ, ◌+◌, ◌-◌, ◌*◌, not, ◌&&◌, ◌||◌, none, some, List, [], ◌∷◌, ◌++◌, ◌==◌, ltb, leb, if◌then◌else◌,
  length, keep,
}
use efipix.Text.{Text, codes, equal, includes, trim, split, join, to_lower, prefix, is_empty}
use efipix.Text.Decimal.{show}
use efipix.NodePath.{extname}
use efipix.Tokens.{one_of}
use efipix.Regex.{test, match_all}
use efipix.Regex.Build.{group_in, found_all, replace_first, unique_onto}

abbrev arrow : Text
arrow = codes " → "

abbrev quote : Text → Text
quote s = codes "\"" ++ (prefix 25 s ++ codes "\"")

-- a change of a number: both sides have one, and agree in the rest
number_change : Text → Text → Text
number_change o n = elim (group_in 1 number_re o) [
  | none ↦ codes "inline fix"
  | some a ↦ elim (group_in 1 number_re n) [
    | none ↦ codes "inline fix"
    | some b ↦
        if not (equal a b) && equal (replace_first o a []) (replace_first n b [])
        then a ++ (arrow ++ b)
        else codes "inline fix"
  ]
]

-- the branch for one line against one line
inline_change : Text → Text → Text
inline_change o n = elim (group_in 1 quoted_re o) [
  | none ↦ number_change o n
  | some a ↦ elim (group_in 1 quoted_re n) [
    | none ↦ number_change o n
    | some b ↦ if not (equal a b) then quote a ++ (arrow ++ quote b) else number_change o n
  ]
]

size_change : ℕ → ℕ → Text
size_change old new =
    if ltb (old + 5) new
    then codes "expanded (+" ++ (show (new - old) ++ codes " lines)")
    else if ltb (new + 5) old
    then codes "reduced (-" ++ (show (old - new) ++ codes " lines)")
    else show old ++ (codes "→" ++ (show new ++ codes " lines"))

abbrev modified : Text → Text
modified name = codes "modified " ++ (name ++ codes "()")

-- from the condition changes on
context_change : Text → Text → Text
context_change old new =
    let olds = length (found_all if_re old) in
    let news = length (found_all if_re new) in
    if ltb olds news
    then codes "added " ++ (show (news - olds) ++ codes " condition(s)")
    else elim (group_in 1 function_re new) [
      | some f ↦ modified f
      | none ↦ elim (group_in 1 method_re new) [
        | some f ↦ modified f
        | none ↦ size_change (length (split old b'\n')) (length (split new b'\n'))
      ]
    ]

style_change : Text → Text → Text → Text
style_change old new ext =
    let changed = minus (prop_names new) (prop_names old) in
    if one_of style_exts ext && (ltb 0 (length changed) && leb (length changed) 3)
    then codes "CSS: " ++ join changed (codes ", ")
    else context_change old new

call_change : Text → Text → Text → List Text → List Text → Text
call_change old new ext (r ∷ []) (a ∷ []) = r ++ (codes "() → " ++ (a ++ codes "()"))
call_change old new ext removed added = style_change old new ext

abbrev imports : Text → ℕ
imports s = length (keep (test import_re) (split s b'\n'))

abbrev distance : ℕ → ℕ → ℕ
distance a b = (a - b) + (b - a)

-- from the import changes on
line_change : Text → Text → Text → Text
line_change old new ext =
    let olds = length (split old b'\n') in
    let news = length (split new b'\n') in
    let more = imports new - imports old in
    if ltb 0 more && leb (distance news olds) (more + 1)
    then codes "added " ++ (show more ++ codes " import(s)")
    else if olds == 1 && news == 1
    then inline_change (trim old) (trim new)
    else let before = extract_calls old in
      let after = extract_calls new in
      call_change old new ext (minus before after) (minus after before)

unfoldable pub summarize_edit : Text → Text → Text → Text
unfolding line_change call_change style_change context_change size_change inline_change
    number_change extract_calls includes trim split join show extname to_lower one_of test match_all
    found_all group_in replace_first unique_onto equal
summarize_edit old new filename =
    if both new (codes "try") (codes "catch") && not (includes old (codes "catch"))
    then codes "added error handling"
    else if gains old new (codes "?.")
    then codes "added optional chaining"
    else if gains old new (codes "?? ")
    then codes "added nullish coalescing"
    else if is_empty (trim new) || ltb (5 * length (trim new)) (length (trim old))
    then codes "removed " ++ (show (length (split old b'\n')) ++ codes " lines")
    else line_change old new (to_lower (extname filename))
