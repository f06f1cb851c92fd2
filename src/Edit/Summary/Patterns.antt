-- ===== src/Edit/Summary/Patterns.antt =====
-- The patterns of `summarizeEdit` of .wolf/hooks/post-write.js, its list of style files, and
-- `extractCalls`.
use efipix.Prelude.{
  Bool, not, ◌&&◌, ◌||◌, none, some, List, [], ◌∷◌, ◌++◌, map, ◌==◌, ltb, length, keep,
}
use efipix.Text.{Text, codes, includes}
use efipix.Tokens.{one_of}
use efipix.Regex.{Regex, bol, edge, chr, star, group, exec, opt, plus, is_word, is_digit}
use efipix.Regex.Build.{
  cat, str, either, in_set, not_in, word, spaces, spaces1, group_in, found_all, somes, unique,
}

abbrev pub both : Text → Text → Text → Bool
both s a b = includes s a && includes s b

-- `newStr.includes(x) && !oldStr.includes(x)`
abbrev pub gains : Text → Text → Text → Bool
gains old new x = includes new x && not (includes old x)

-- /^\s*(import|require|use |from )/
abbrev pub import_re : Regex
import_re = cat (
    bol
    ∷ spaces
    ∷ group 1 (either (str "import" ∷ str "require" ∷ str "use " ∷ str "from " ∷ []))
    ∷ [])

-- /(\w+)\s*\(/
abbrev pub call_re : Regex
call_re = cat (group 1 word ∷ spaces ∷ str "(" ∷ [])

abbrev not_calls : List Text
not_calls =
    codes "if"
    ∷ codes "for"
    ∷ codes "while"
    ∷ codes "switch"
    ∷ codes "catch"
    ∷ codes "function"
    ∷ codes "return"
    ∷ codes "new"
    ∷ codes "typeof"
    ∷ codes "instanceof"
    ∷ codes "const"
    ∷ codes "let"
    ∷ codes "var"
    ∷ []

abbrev is_call : Text → Bool
is_call n = ltb 2 (length n) && not (one_of not_calls n)

unfoldable pub extract_calls : Text → List Text
extract_calls code =
    unique (keep is_call (somes (map (group_in 1 (group 1 word)) (found_all call_re code))))

-- /['"`]([^'"`]+)['"`]/
abbrev pub quoted_re : Regex
quoted_re = cat (in_set "'\"`" ∷ group 1 (plus (not_in "'\"`")) ∷ in_set "'\"`" ∷ [])

-- /\b(\d+\.?\d*)\b/
abbrev pub number_re : Regex
number_re = cat (
    edge
    ∷ group 1 (cat (plus (chr is_digit) ∷ opt (str ".") ∷ star (chr is_digit) ∷ []))
    ∷ edge
    ∷ [])

-- /[\w-]+\s*:/
abbrev pub prop_re : Regex
prop_re = cat (plus (chr (λ c. is_word c || c == b'-')) ∷ spaces ∷ str ":" ∷ [])

-- `p.replace(/\s*:/, "")`: what stands before the colon, less the white space
abbrev before_colon : Text → Text
before_colon p = elim (exec (cat (spaces ∷ str ":" ∷ [])) p) [
  | none ↦ p
  | some m ↦ m.before ++ m.after
]

abbrev pub prop_names : Text → List Text
prop_names s = map before_colon (found_all prop_re s)

-- /if\s*\(([^)]+)\)/
abbrev pub if_re : Regex
if_re = cat (str "if" ∷ spaces ∷ str "(" ∷ group 1 (plus (not_in ")")) ∷ str ")" ∷ [])

-- /(?:function|def|fn|func|async\s+function)\s+(\w+)/
abbrev pub function_re : Regex
function_re = cat (
    either (
      str "function"
      ∷ str "def"
      ∷ str "fn"
      ∷ str "func"
      ∷ cat (str "async" ∷ spaces1 ∷ str "function" ∷ [])
      ∷ [])
    ∷ spaces1
    ∷ group 1 word
    ∷ [])

-- /(?:public|private|protected)?\s*(?:async\s+)?(\w+)\s*\([^)]*\)\s*[:{]/
abbrev pub method_re : Regex
method_re = cat (
    opt (either (str "public" ∷ str "private" ∷ str "protected" ∷ []))
    ∷ spaces
    ∷ opt (cat (str "async" ∷ spaces1 ∷ []))
    ∷ group 1 word
    ∷ spaces
    ∷ str "("
    ∷ star (not_in ")")
    ∷ str ")"
    ∷ spaces
    ∷ in_set ":{"
    ∷ [])

abbrev pub style_exts : List Text
style_exts = codes ".css" ∷ codes ".scss" ∷ codes ".vue" ∷ codes ".tsx" ∷ codes ".jsx" ∷ []

-- The members of the first list that the second lacks.
abbrev pub minus : List Text → List Text → List Text
minus xs ys = keep (λ x. not (one_of ys x)) xs
