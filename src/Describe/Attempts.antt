-- ===== src/Describe/Attempts.antt =====
-- The attempts of `extractDescription` in .wolf/hooks/shared.js up to the header comment: headings,
-- documentation comments, and their regular expressions.
use efipix.Prelude.{
  Bool, true, not, ◌&&◌, ◌||◌, Option, none, some, List, [], ◌∷◌, ltb, if◌then◌else◌, length, take,
  any,
}
use efipix.Text.{Text, codes, equal, starts_with, trim, split, to_lower, is_empty}
use efipix.Tokens.{one_of}
use efipix.Regex.{Regex, bol, eol, line_bol, line_eol, chr, star, lazy, group, opt, plus}
use efipix.Regex.Build.{
  cat, str, either, not_in, word, spaces, spaces1, anything, anything1, plus_lazy, group_in,
  without, replace_all, ignoring_case,
}

abbrev pub has_ext : Text → List Text → Bool
has_ext ext es = one_of es ext

abbrev pub trimmed : Option Text → Option Text
trimmed none = none
trimmed (some t) = some (trim t)

-- a text that satisfies the test
abbrev pub only : (Text → Bool) → Option Text → Option Text
only p none = none
only p (some t) = if p t then some t else none

-- /^#{1,2}\s+(.+)$/m
abbrev heading_re : Regex
heading_re = cat (line_bol ∷ str "#" ∷ opt (str "#") ∷ spaces1 ∷ group 1 anything1 ∷ line_eol ∷ [])

-- /<title[^>]*>([^<]+)<\/title>/i
abbrev title_re : Regex
title_re = cat (
    cat (ignoring_case (codes "<title"))
    ∷ star (not_in ">")
    ∷ str ">"
    ∷ group 1 (plus (not_in "<"))
    ∷ cat (ignoring_case (codes "</title>"))
    ∷ [])

-- /\/\*\*\s*\n?\s*\*?\s*(.+)/ and /\*\/$/
abbrev doc_re : Regex
doc_re =
    cat (
      str "/**"
      ∷ spaces
      ∷ opt (str "\n")
      ∷ spaces
      ∷ opt (str "*")
      ∷ spaces
      ∷ group 1 anything1
      ∷ [])

abbrev doc_end_re : Regex
doc_end_re = cat (str "*/" ∷ eol ∷ [])

abbrev is_doc : Text → Bool
is_doc l = not (is_empty l) && not (starts_with l (codes "@")) && ltb 5 (length l)

abbrev doc_line : Option Text → Option Text
doc_line none = none
doc_line (some t) = only is_doc (some (trim (without doc_end_re t)))

-- `.` with the flag `s`
abbrev any_unit : Regex
any_unit = chr (λ c. true)

-- /^(?:#[^\n]*\n)*\s*(?:"""(.+?)"""|'''(.+?)''')/s
abbrev docstring_re : Regex
docstring_re = cat (
    bol
    ∷ star (cat (str "#" ∷ star (not_in "\n") ∷ str "\n" ∷ []))
    ∷ spaces
    ∷ either (
        cat (str "\"\"\"" ∷ group 1 (plus_lazy any_unit) ∷ str "\"\"\"" ∷ [])
        ∷ cat (str "'''" ∷ group 2 (plus_lazy any_unit) ∷ str "'''" ∷ [])
        ∷ [])
    ∷ [])

abbrev pub or_else : Option Text → Option Text → Option Text
or_else (some t) o = some t
or_else none o = o

-- `s.split("\n")[0]`
abbrev first_line : Text → Text
first_line s = elim (split s b'\n') [ [] ↦ [] | l ∷ ls ↦ l ]

abbrev docstring : Option Text → Option Text
docstring none = none
docstring (some t) = only (λ l. ltb 3 (length l)) (some (trim (first_line t)))

-- /^\s*(?:\/\/\/|\/\/!)\s*(.+)/
abbrev rust_re : Regex
rust_re = cat (bol ∷ spaces ∷ either (str "///" ∷ str "//!" ∷ []) ∷ spaces ∷ group 1 anything1 ∷ [])

abbrev rust_doc : List Text → Option Text
rust_doc [] = none
rust_doc (l ∷ ls) =
    or_else (trimmed (only (λ t. ltb 5 (length t)) (group_in 1 rust_re l))) (rust_doc ls)

-- /\/\/\s*Package\s+\w+\s+(.*)/
abbrev package_re : Regex
package_re =
    cat (str "//" ∷ spaces ∷ str "Package" ∷ spaces1 ∷ word ∷ spaces1 ∷ group 1 anything ∷ [])

-- /<summary>\s*([\s\S]*?)\s*<\/summary>/, /\/\/\/\s*/g and /\s+/g
abbrev summary_re : Regex
summary_re =
    cat (str "<summary>" ∷ spaces ∷ group 1 (lazy any_unit) ∷ spaces ∷ str "</summary>" ∷ [])

abbrev pub slashes_re : Regex
slashes_re = cat (str "///" ∷ spaces ∷ [])

abbrev summary_text : Option Text → Option Text
summary_text none = none
summary_text (some t) =
    only (λ l. ltb 5 (length l))
      (some (trim (replace_all spaces1 (codes " ") (replace_all slashes_re [] t))))

-- /@moduledoc\s+"""\s*\n\s*(.*)/
abbrev moduledoc_re : Regex
moduledoc_re =
    cat (
      str "@moduledoc"
      ∷ spaces1
      ∷ str "\"\"\""
      ∷ spaces
      ∷ str "\n"
      ∷ spaces
      ∷ group 1 anything
      ∷ [])

abbrev begins_with : Text → List Text → Bool
begins_with t ps = any (starts_with t) ps

-- the lines that the header's loop skips
abbrev is_preamble : Text → Bool
is_preamble t =
    is_empty t
    || (equal t (codes "<?php")
        || begins_with t (
            codes "#!"
            ∷ codes "namespace"
            ∷ codes "use "
            ∷ codes "import "
            ∷ codes "from "
            ∷ codes "require"
            ∷ codes "module "
            ∷ []))

-- /^(?:\/\/|#|--)\s*(.+)/
abbrev comment_re : Regex
comment_re =
    cat (bol ∷ either (str "//" ∷ str "#" ∷ str "--" ∷ []) ∷ spaces ∷ group 1 anything1 ∷ [])

abbrev is_telling : Text → Bool
is_telling t =
    ltb 5 (length t)
    && not (
        begins_with (to_lower t) (
          codes "copyright"
          ∷ codes "license"
          ∷ codes "@"
          ∷ codes "strict"
          ∷ codes "generated"
          ∷ codes "eslint-"
          ∷ codes "nolint"
          ∷ []))

abbrev is_comment : Text → Bool
is_comment t = begins_with t (codes "//" ∷ codes "#" ∷ codes "/*" ∷ codes "*" ∷ codes "--" ∷ [])

-- the loop over the first lines, up to its `break`
unfoldable pub header_comment : List Text → Option Text
header_comment [] = none
header_comment (l ∷ ls) =
    let rest = header_comment ls in
    let t = trim l in
    if is_preamble t
    then rest
    else or_else (only is_telling (trimmed (group_in 1 comment_re t)))
        (if is_comment t then rest else none)

abbrev pub when : Bool → Option Text → Option Text
when b o = if b then o else none

abbrev pub first_text : List (Option Text) → Option Text
first_text [] = none
first_text (none ∷ os) = first_text os
first_text (some t ∷ os) = some t

-- The texts that the attempts give, before `cap`, in the order of the source.
unfoldable pub attempts : Text → Text → List (Option Text)
attempts ext content =
    let lines = split content b'\n' in
    when (has_ext ext (codes ".md" ∷ codes ".mdx" ∷ [])) (trimmed (group_in 1 heading_re content))
    ∷ when (has_ext ext (codes ".html" ∷ codes ".htm" ∷ [])) (trimmed (group_in 1 title_re content))
    ∷ doc_line (group_in 1 doc_re content)
    ∷ when (equal ext (codes ".py"))
        (docstring (or_else (group_in 1 docstring_re content) (group_in 2 docstring_re content)))
    ∷ when (equal ext (codes ".rs")) (rust_doc (take 20 lines))
    ∷ when (equal ext (codes ".go")) (trimmed (group_in 1 package_re content))
    ∷ when (equal ext (codes ".cs")) (summary_text (group_in 1 summary_re content))
    ∷ when (has_ext ext (codes ".ex" ∷ codes ".exs" ∷ []))
        (trimmed (group_in 1 moduledoc_re content))
    ∷ header_comment (take 15 lines)
    ∷ []
