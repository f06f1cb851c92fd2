-- ===== src/BugLog.antt =====
-- buglog.json: `autoDetectBugFix` of .wolf/hooks/post-write.js.
pub mod Laws
pub mod Ids
use efipix.Prelude.{
  ℕ, ◌+◌, ◌-◌, ◌*◌, Bool, ◌&&◌, Option, none, some, List, [], ◌∷◌, ◌++◌, ltb, if◌then◌else◌, length,
}
use efipix.Text.{Text, codes, equal, includes, is_empty}
use efipix.Text.Decimal.{show, pad_start}
use efipix.NodePath.{basename}
use efipix.Tokens.{one_of}
use efipix.Regex.Build.{replace_first}
use efipix.World.{Bug, Time}
use efipix.Edit.Detect.{
  Category, error_handling, null_safety, guard_clause, wrong_value, wrong_reference, logic_fix,
  operator_fix, missing_import, return_value, async_fix, type_fix, style_fix, refactor, Detection,
}

abbrev pub category_text : Category → Text
category_text error_handling = codes "error-handling"
category_text null_safety = codes "null-safety"
category_text guard_clause = codes "guard-clause"
category_text wrong_value = codes "wrong-value"
category_text wrong_reference = codes "wrong-reference"
category_text logic_fix = codes "logic-fix"
category_text operator_fix = codes "operator-fix"
category_text missing_import = codes "missing-import"
category_text return_value = codes "return-value"
category_text async_fix = codes "async-fix"
category_text type_fix = codes "type-fix"
category_text style_fix = codes "style-fix"
category_text refactor = codes "refactor"

abbrev pub auto_detected : Text
auto_detected = codes "auto-detected"

-- five minutes
abbrev pub window : ℕ
window = 5 * 60 * 1000

unfoldable pub is_recent_dupe : Time → Text → Detection → Bug → Bool
is_recent_dupe now name d b =
    equal (basename b.file) name
    && (one_of b.tags auto_detected
        && (one_of b.tags (category_text d.category) && ltb (now.ms - b.last_seen.ms) window))

-- `detection.context && !recentDupe.fix.includes(detection.context)`
abbrev more_context : Option Text → Text → Text
more_context none fix = fix
more_context (some x) fix =
    if is_empty x then fix else if includes fix x then fix else fix ++ (codes " | Also: " ++ x)

abbrev pub again : Time → Detection → Bug → Bug
again now d b = record b {
  occurrences = b.occurrences + 1;
  last_seen = now;
  fix = more_context d.context b.fix;
}

-- The log with its first recent duplicate counted once more, or `none` if it has none.
unfoldable pub count_again : Time → Text → Detection → List Bug → Option (List Bug)
count_again now name d [] = none
count_again now name d (b ∷ bs) =
    let rest = count_again now name d bs in
    if is_recent_dupe now name d b
    then some (again now d b ∷ bs)
    else elim rest [ none ↦ none | some bs' ↦ some (b ∷ bs') ]

abbrev or_text : Text → Text → Text
or_text [] d = d
or_text (c ∷ s) d = c ∷ s

unfoldable pub new_bug : Time → Text → Text → Detection → List Bug → Bug
new_bug now rel ext d bugs = record {
  id = codes "bug-" ++ pad_start (show (length bugs + 1)) 3;
  timestamp = now.iso;
  error_message = d.summary;
  file = rel;
  root_cause = d.root_cause;
  fix = d.fix;
  tags =
      auto_detected
      ∷ category_text d.category
      ∷ or_text (replace_first ext (codes ".") []) (codes "unknown")
      ∷ [];
  related_bugs = [];
  occurrences = 1;
  last_seen = now;
}

-- from the detection on; `rel` and `name` are the path's, relative and its last part
unfoldable pub log_fix : Time → Text → Text → Text → Detection → List Bug → List Bug
log_fix now rel name ext d bugs = elim (count_again now name d bugs) [
  | some bugs' ↦ bugs'
  | none ↦ bugs ++ new_bug now rel ext d bugs ∷ []
]
