-- ===== src/Tests/Parts.antt =====
-- The hypotheses of the theorems about the parts of the hooks, on concrete inputs.
use efipix.Prelude.{
  ◌+◌, ◌*◌, ◌<◌, ◌≤◌, none, some, List, [], ◌∷◌, ◌≡◌, refl, arith, length, if◌then◌else◌,
}
use efipix.Text.{Text, codes, equal, is_space}
use efipix.NodePath.{basename}
use efipix.Tokens.{
  estimate_tokens, code, prose, mixed, estimate_tokens_bounds, estimate_tokens_order,
}
use efipix.Regex.{is_any, is_digit, is_word}
use efipix.Sorting.{units_gt}
use efipix.Anatomy.{parse_anatomy, get_section, sorted_sections}
use efipix.Anatomy.RoundTrip.{IsAnatomy}
use efipix.Object.Sizes.{total}
use efipix.World.{Time, times}
use efipix.Edit.Detect.{Detection, async_fix, refactor}
use efipix.Edit.Unchanged.{detect_fix_pattern-same}
use efipix.Edit.Detect.{detect_fix_pattern}
use efipix.Edit.Bounds.{detect_fix_pattern-context}
use efipix.BugLog.{log_fix}
use efipix.BugLog.Ids.{Fix, log_all, Distinct, log_all-Distinct}
use efipix.BugLog.Laws.{occurrences, log_fix-occurrences, length-log_fix_again}
use efipix.Hooks.Tracks.{edits}
use efipix.Hooks.PostWrite.{upsert, update_sections, update_anatomy, no_anatomy, count_edit}
use efipix.Hooks.PreWrite.{pre_write, check_bug_log}
use efipix.Hooks.Prints.{Printed, OnlyPrints, pre_write-OnlyPrints, check_bug_log-Printed}
use efipix.Hooks.Upserts.{
  find_file, find_file-upsert, get_section-update_sections, parse_anatomy-update_anatomy,
}
use efipix.Hooks.KeepsWrites.{count_edit_bound}
use efipix.Tests.{sample, item, bare, item-IsPrintable, every-Are, no_newline-IsLine}
use efipix.Tests.Sessions.{env, noon, working, read_main}

-- anatomy.md
no_anatomy-sections : parse_anatomy no_anatomy ≡ []
unfolding parse_anatomy is_space is_digit is_any
no_anatomy-sections = refl

pub no_anatomy-IsAnatomy : IsAnatomy (parse_anatomy no_anatomy)
no_anatomy-IsAnatomy = rw no_anatomy-sections (record { sections = tt; distinct = tt })

parse_anatomy-update_anatomy_example :
    parse_anatomy (update_anatomy env (codes "src/") item none)
    ≡ sorted_sections units_gt (update_sections (codes "src/") item (parse_anatomy no_anatomy))
unfolding is_any is_space
parse_anatomy-update_anatomy_example =
    parse_anatomy-update_anatomy env (codes "src/") item none (every-Are is_any (codes "src/") refl)
      (refl, refl) item-IsPrintable no_anatomy-IsAnatomy
      (no_newline-IsLine (codes "2026-06-12T12:00:00.000Z") refl)

get_section-update_sections_example :
    get_section (codes "./") (update_sections (codes "src/") item sample) ≡ (
      if equal (codes "src/") (codes "./")
      then upsert item (get_section (codes "src/") sample)
      else get_section (codes "./") sample)
get_section-update_sections_example =
    get_section-update_sections (codes "src/") (codes "./") item sample

find_file-upsert_example : find_file (codes "a.md") (upsert item (bare ∷ item ∷ [])) ≡ (
    if equal (codes "a.md") (codes "a.md")
    then some item
    else find_file (codes "a.md") (bare ∷ item ∷ []))
find_file-upsert_example = find_file-upsert item (bare ∷ item ∷ []) (codes "a.md")

-- buglog.json
abbrev missing_await : Detection
missing_await = record {
  category = async_fix;
  summary = codes "Missing await";
  root_cause = codes "Async call without await";
  fix = codes "Added await to async call";
  context = none;
}

abbrev later : Time
later = record noon { ms = 1781265660000 }

main_name : basename (codes "src/main.ts") ≡ codes "main.ts"
unfolding basename
main_name = refl

length-log_fix_again_example :
    length (
      log_fix later
        (codes "src/main.ts")
        (codes "main.ts")
        (codes ".ts")
        missing_await
        (log_fix noon (codes "src/main.ts") (codes "main.ts") (codes ".ts") missing_await []))
    ≡ length (log_fix noon (codes "src/main.ts") (codes "main.ts") (codes ".ts") missing_await [])
length-log_fix_again_example =
    length-log_fix_again noon later (codes "src/main.ts") (codes "main.ts") (codes ".ts")
      missing_await [] (omega arith) main_name

log_fix-occurrences_example :
    (occurrences
        (log_fix noon (codes "src/main.ts") (codes "main.ts") (codes ".ts") missing_await [])
      ≡ 0 + 1)
    × (length (log_fix noon (codes "src/main.ts") (codes "main.ts") (codes ".ts") missing_await [])
        ≤ 0 + 1)
log_fix-occurrences_example =
    log_fix-occurrences noon (codes "src/main.ts") (codes "main.ts") (codes ".ts") missing_await []

-- two fixes of two files
abbrev two_fixes : List Fix
two_fixes =
    record {
      now = noon;
      rel = codes "src/main.ts";
      name = codes "main.ts";
      ext = codes ".ts";
      detection = missing_await;
    }
    ∷ record {
      now = later;
      rel = codes "src/other.ts";
      name = codes "other.ts";
      ext = codes ".ts";
      detection = missing_await;
    }
    ∷ []

log_all-Distinct_example : Distinct (log_all two_fixes [])
log_all-Distinct_example = log_all-Distinct two_fixes

-- what the hooks print and count
pre_write-OnlyPrints_example : OnlyPrints working (pre_write (some read_main) working)
pre_write-OnlyPrints_example = pre_write-OnlyPrints (some read_main) working

check_bug_log-Printed_example :
    (out : List Text) × Printed out working
      (check_bug_log (codes "/p/main.ts") (codes "await") working)
    × (length out ≤ 3)
check_bug_log-Printed_example = check_bug_log-Printed (codes "/p/main.ts") (codes "await") working

count_edit_bound_example :
    total edits (count_edit (codes "main.ts") ((codes "main.ts", times 2) ∷ []))
    ≤ total edits ((codes "main.ts", times 2) ∷ []) + 1
count_edit_bound_example = count_edit_bound (codes "main.ts") ((codes "main.ts", times 2) ∷ [])

estimate_tokens_bounds_example :
    (length (codes "package main") * 2 ≤ estimate_tokens (codes "package main") code * 7)
    × (estimate_tokens (codes "package main") code * 7 < length (codes "package main") * 2 + 7)
estimate_tokens_bounds_example = estimate_tokens_bounds (codes "package main") code

estimate_tokens_order_example :
    (estimate_tokens (codes "# Notes") prose ≤ estimate_tokens (codes "# Notes") mixed)
    × (estimate_tokens (codes "# Notes") mixed ≤ estimate_tokens (codes "# Notes") code)
estimate_tokens_order_example = estimate_tokens_order (codes "# Notes")

-- a rewrite of three lines
abbrev before_rewrite : Text
before_rewrite = codes "a1\nb2\nc3"

abbrev after_rewrite : Text
after_rewrite = codes "while x\nwhile y\nwhile z with more of the text"

abbrev rewritten : Detection
rewritten = record {
  category = refactor;
  summary = codes "Significant refactor of ";
  root_cause = codes "3 lines replaced/restructured";
  fix = codes "Rewrote 3→3 lines (3 removed)";
  context = some (codes "a1; b2");
}

rewrite_detected : detect_fix_pattern before_rewrite after_rewrite (codes ".go") ≡ some rewritten
unfolding detect_fix_pattern is_space is_word is_digit
rewrite_detected = refl

detect_fix_pattern-context_example : length (codes "a1; b2") ≤ 122
detect_fix_pattern-context_example =
    detect_fix_pattern-context before_rewrite after_rewrite (codes ".go") rewritten rewrite_detected

detect_fix_pattern-same_example :
    detect_fix_pattern
      (codes "if (a) { color: red; }")
      (codes "if (a) { color: red; }")
      (codes ".css")
    ≡ none
detect_fix_pattern-same_example =
    detect_fix_pattern-same (codes "if (a) { color: red; }") (codes ".css")
