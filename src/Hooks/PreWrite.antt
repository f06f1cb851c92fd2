-- ===== src/Hooks/PreWrite.antt =====
-- .wolf/hooks/pre-write.js: before a file is written. It only prints.
use efipix.Prelude.{
  ℕ, Bool, not, ◌&&◌, ◌||◌, Option, none, some, List, [], ◌∷◌, ◌++◌, map, ◌==◌, ltb, leb,
  if◌then◌else◌, length, keep, take, any, drop,
}
use efipix.Text.{
  Text, codes, equal, starts_with, includes, is_empty, trim, split, join, to_lower, prefix,
}
use efipix.Text.Decimal.{show}
use efipix.NodePath.{basename}
use efipix.Tokens.{one_of}
use efipix.Regex.{Regex, bol, edge, chr, group, test, is_word, is_digit, plus}
use efipix.Regex.Build.{
  without, ignoring_case, cat, str, either, in_set, word, spaces, spaces1, group_in, found_all,
  has_unit, unique,
}
use efipix.World.{World, Bug, Cerebrum, Input, warn, input_path, or_default}
use efipix.Hooks.Common.{warning_sign}

-- `s.split(sep)[1]`, or `none` where the separator does not occur; and `s.split(sep)[0]`
unfoldable pub before_text : Text → Text → Text
before_text sep [] = []
before_text sep (c ∷ s) =
    let rest = before_text sep s in if starts_with (c ∷ s) sep then [] else c ∷ rest

unfoldable pub after_text : Text → Text → Option Text
after_text sep [] = none
after_text sep (c ∷ s) =
    let rest = after_text sep s in
    if starts_with (c ∷ s) sep then some (drop (length sep) (c ∷ s)) else rest

abbrev pub section_title : Text
section_title = codes "## Do-Not-Repeat"

abbrev pub is_rule : Text → Bool
is_rule l = starts_with (trim l) (codes "[") || starts_with (trim l) (codes "-")

-- /^[-*]\s*/ and /^\[[\d-]+\]\s*/
abbrev bullet_re : Regex
bullet_re = cat (bol ∷ in_set "-*" ∷ spaces ∷ [])

abbrev date_re : Regex
date_re = cat (bol ∷ str "[" ∷ plus (chr (λ c. is_digit c || c == b'-')) ∷ str "]" ∷ spaces ∷ [])

abbrev pub rule_of : Text → Text
rule_of l = without date_re (without bullet_re (trim l))

abbrev pub quotes_re : ℕ → Regex
quotes_re q =
    cat (chr (λ c. c == q) ∷ group 1 (plus (chr (λ c. not (c == q)))) ∷ chr (λ c. c == q) ∷ [])

abbrev or_else : List Text → List Text → List Text
or_else [] ys = ys
or_else (x ∷ xs) ys = x ∷ xs

abbrev no_quotes : Text → Text
no_quotes s = keep (λ c. not (has_unit c (codes "\"'`"))) s

abbrev words_i : List Text → List Regex
words_i [] = []
words_i (w ∷ ws) = cat (ignoring_case w) ∷ words_i ws

-- /(?:never use|avoid|don't use|do not use)\s+(\w+)/i
abbrev never_re : Regex
never_re = cat (
    either
      (words_i (codes "never use" ∷ codes "avoid" ∷ codes "don't use" ∷ codes "do not use" ∷ []))
    ∷ spaces1
    ∷ group 1 word
    ∷ [])

abbrev one_or_none : Option Text → List Text
one_or_none none = []
one_or_none (some t) = t ∷ []

unfoldable pub patterns_of : Text → List Text
patterns_of rule =
    let quoted =
      or_else (found_all (quotes_re b'"') rule)
        (or_else (found_all (quotes_re b'\'') rule) (found_all (quotes_re b'`') rule)) in
    map no_quotes quoted ++ one_or_none (group_in 1 never_re rule)

-- new RegExp(`\\b${escaped}\\b`, "i")
abbrev pub whole_word : Text → Regex
whole_word p = cat (edge ∷ cat (ignoring_case p) ∷ edge ∷ [])

abbrev pub pattern_warning : Text → Text
pattern_warning rule =
    warning_sign
    ++ (codes " OpenWolf cerebrum warning: \""
        ++ (rule ++ codes "\" — check your code before proceeding.\n"))

abbrev pub warn_patterns : Text → Text → List Text → World → World
warn_patterns content rule [] w = w
warn_patterns content rule (p ∷ ps) w =
    warn_patterns content rule ps
      (if test (whole_word p) content then warn (pattern_warning rule) w else w)

unfoldable pub warn_rules : Text → List Text → World → World
warn_rules content [] w = w
warn_rules content (l ∷ ls) w =
    let rule = rule_of l in
    warn_rules content ls
      (if is_empty rule then w else warn_patterns content rule (patterns_of rule) w)

abbrev pub content_of : Option Cerebrum → Text
content_of none = []
content_of (some c) = c.content

-- `checkCerebrum`
unfoldable pub check_cerebrum : Text → World → World
check_cerebrum content w = elim (after_text section_title (content_of w.cerebrum)) [
  | none ↦ w
  | some section ↦
      warn_rules content
        (keep is_rule (split (before_text (codes "## ") (before_text section_title section)) b'\n'))
        w
]

abbrev stop_words : List Text
stop_words =
    split
      (codes
        "error function return const this that with from import export class interface type undefined null true false string number object array value file path name data response request result should must does have been will would could when then else each some every only")
      b' '

abbrev blank_out : Text → Text
blank_out [] = []
blank_out (c ∷ s) = (if is_word c then c else b' ') ∷ blank_out s

-- `tokenize`: the words of more than three units that are no stop words, in lower case
unfoldable pub tokenize : Text → List Text
tokenize text = unique (
    map to_lower (
      keep (λ t. ltb 3 (length t) && not (one_of stop_words (to_lower t)))
        (split (blank_out text) b' ')))

abbrev overlap : List Text → List Text → ℕ
overlap xs ys = length (keep (one_of ys) xs)

unfoldable pub is_relevant : Text → Bug → Bool
is_relevant edit b =
    any (λ t. includes edit (to_lower t)) b.tags
    || leb 3 (overlap (tokenize edit) (tokenize (b.error_message ++ (codes " " ++ b.root_cause))))

abbrev pub bug_text : Bug → Text
bug_text b =
    codes "   ["
    ++ (b.id
        ++ (codes "] \""
            ++ (prefix 70 b.error_message
                ++ (codes "\"\n   Cause: "
                    ++ (prefix 80 b.root_cause
                        ++ (codes "\n   Fix: " ++ (prefix 80 b.fix ++ codes "\n")))))))

abbrev pub warn_bugs : List Bug → World → World
warn_bugs [] w = w
warn_bugs (b ∷ bs) w = warn_bugs bs (warn (bug_text b) w)

unfoldable pub relevant_bugs : Text → Text → List Bug → List Bug
relevant_bugs name edit bugs =
    keep (is_relevant edit) (keep (λ b. equal (basename b.file) name) bugs)

-- `checkBugLog`
unfoldable pub check_bug_log : Text → Text → World → World
check_bug_log path edit w =
    let name = basename path in
    let bugs = relevant_bugs name edit (or_default [] w.buglog) in
    if length bugs == 0
    then w
    else warn_bugs (take 2 bugs) (
        warn
          (codes "📋 OpenWolf buglog: "
            ++ (show (length bugs)
                ++ (codes " past bug(s) found for "
                    ++ (name ++ codes " — review for context, do NOT apply blindly:\n"))))
          w)

abbrev pub on_content : Input → World → World
on_content i w =
    let content = or_default [] i.content in
    let old = or_default [] i.old_string in
    let new = or_default [] i.new_string in
    let all = join (content ∷ old ∷ new ∷ []) (codes "\n") in
    let edit = to_lower (old ++ (codes " " ++ (new ++ (codes " " ++ content)))) in
    let checked = check_cerebrum all w in
    if is_empty (trim all)
    then w
    else if not (is_empty (input_path i)) && (not (is_empty old) || not (is_empty content))
    then check_bug_log (input_path i) edit checked
    else checked

unfoldable pub pre_write : Option Input → World → World
pre_write none w = w
pre_write (some i) w = if w.wolf_dir then on_content i w else w
