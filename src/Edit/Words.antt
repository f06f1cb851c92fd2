-- ===== src/Edit/Words.antt =====
-- The helpers of `detectFixPattern` in .wolf/hooks/post-write.js: changed lines, code tokens,
-- operators, CSS properties, and its expressions.
use efipix.Prelude.{
  ℕ, Bool, not, ◌&&◌, ◌||◌, Option, none, some, List, [], ◌∷◌, map, ◌==◌, if◌then◌else◌, keep, take,
}
use efipix.Text.{Text, codes, equal, includes, trim, split, join, prefix, is_empty}
use efipix.Regex.{Regex, chr, star, group, match_all, group_of, opt, plus, is_word}
use efipix.Regex.Build.{cat, str, either, in_set, not_in, word, spaces, spaces1, anything1}
use efipix.Edit.Summary.{gains, minus}

abbrev pub trimmed_lines : Text → List Text
trimmed_lines s = keep (λ l. not (is_empty l)) (map trim (split s b'\n'))

-- `extractChangedLines`
unfoldable pub extract_changed_lines : Text → Text → Text
extract_changed_lines old new =
    join (map (prefix 60) (take 2 (minus (trimmed_lines new) (trimmed_lines old)))) (codes "; ")

-- `tokenizeCode`: the runs of word units and dollar signs
abbrev is_token : ℕ → Bool
is_token c = is_word c || c == b'$'

abbrev blank_out : Text → Text
blank_out [] = []
blank_out (c ∷ s) = (if is_token c then c else b' ') ∷ blank_out s

unfoldable pub tokenize_code : Text → List Text
tokenize_code code = keep (λ t. not (is_empty t)) (split (blank_out code) b' ')

-- `findOperatorChange`
abbrev pub operators : List Text
operators =
    codes "==="
    ∷ codes "!=="
    ∷ codes "=="
    ∷ codes "!="
    ∷ codes ">="
    ∷ codes "<="
    ∷ codes ">>"
    ∷ codes "<<"
    ∷ codes "&&"
    ∷ codes "||"
    ∷ codes "??"
    ∷ []

abbrev pub first_of_list : (Text → Bool) → List Text → Option Text
first_of_list p [] = none
first_of_list p (x ∷ xs) = if p x then some x else first_of_list p xs

unfoldable pub operator_from : Text → Text → List Text → Option (Text × Text)
operator_from old new [] = none
operator_from old new (op ∷ ops) =
    let rest = operator_from old new ops in
    if includes old op && not (includes new op)
    then elim (first_of_list (λ x. not (equal x op) && gains old new x) operators) [
      | some x ↦ some (op, x)
      | none ↦ rest
    ]
    else rest

abbrev pub find_operator_change : Text → Text → Option (Text × Text)
find_operator_change old new = operator_from old new operators

-- /([\w-]+)\s*:\s*([^;}\n]+)/
abbrev pub css_re : Regex
css_re = cat (
    group 1 (plus (chr (λ c. is_word c || c == b'-')))
    ∷ spaces
    ∷ str ":"
    ∷ spaces
    ∷ group 2 (plus (not_in ";}\n"))
    ∷ [])

abbrev pub or_nil : Option Text → Text
or_nil none = []
or_nil (some t) = t

-- `props.set(k, v)`: a key that is there keeps its place
abbrev pub put : Text → Text → List (Text × Text) → List (Text × Text)
put k v [] = (k, v) ∷ []
put k v ((j, w) ∷ m) = if equal j k then (j, v) ∷ m else (j, w) ∷ put k v m

abbrev pub find : Text → List (Text × Text) → Option Text
find k [] = none
find k ((j, w) ∷ m) = if equal j k then some w else find k m

abbrev pub put_all : List (Text × Text) → List (Text × Text) → List (Text × Text)
put_all acc [] = acc
put_all acc ((k, v) ∷ l) = put_all (put k v acc) l

abbrev pub css_pairs : Text → List (Text × Text)
css_pairs code =
    map (λ m. (trim (or_nil (group_of 1 m)), trim (or_nil (group_of 2 m)))) (match_all css_re code)

-- `extractCSSProps`
unfoldable pub extract_css_props : Text → List (Text × Text)
extract_css_props code = put_all [] (css_pairs code)

-- the properties that both have with different values, as key, old value, new value
abbrev pub changed_props : List (Text × Text) → List (Text × Text) → List (Text × Text × Text)
changed_props old [] = []
changed_props old ((k, v) ∷ m) = elim (find k old) [
  | none ↦ changed_props old m
  | some u ↦ if equal u v then changed_props old m else (k, u, v) ∷ changed_props old m
]

-- /!==?\s*(null|undefined)/
abbrev pub null_re : Regex
null_re =
    cat (
      str "!=" ∷ opt (str "=") ∷ spaces ∷ group 1 (either (str "null" ∷ str "undefined" ∷ [])) ∷ [])

-- /if\s*\([^)]*\)\s*(return|throw|continue|break)/
abbrev pub guard_re : Regex
guard_re = cat (
    str "if"
    ∷ spaces
    ∷ str "("
    ∷ star (not_in ")")
    ∷ str ")"
    ∷ spaces
    ∷ group 1 (either (str "return" ∷ str "throw" ∷ str "continue" ∷ str "break" ∷ []))
    ∷ [])

-- /(?:function|def|async)\s+(\w+)/
abbrev pub named_re : Regex
named_re =
    cat (either (str "function" ∷ str "def" ∷ str "async" ∷ []) ∷ spaces1 ∷ group 1 word ∷ [])

-- /['"`]([^'"`]{2,})['"`]/
abbrev pub string_re : Regex
string_re =
    cat (
      in_set "'\"`"
      ∷ group 1 (cat (not_in "'\"`" ∷ plus (not_in "'\"`") ∷ []))
      ∷ in_set "'\"`"
      ∷ [])

-- /(?:import|require)\s*\(?['"]([^'"]+)['"]\)?/ and /['"]([^'"]+)['"]/
abbrev pub module_re : Regex
module_re = cat (in_set "'\"" ∷ group 1 (plus (not_in "'\"")) ∷ in_set "'\"" ∷ [])

abbrev pub import_re : Regex
import_re = cat (
    either (str "import" ∷ str "require" ∷ [])
    ∷ spaces
    ∷ opt (str "(")
    ∷ module_re
    ∷ opt (str ")")
    ∷ [])

-- /return\s+(.+)/
abbrev pub return_re : Regex
return_re = cat (str "return" ∷ spaces1 ∷ group 1 anything1 ∷ [])
