-- ===== src/Languages/Markup.antt =====
-- `extractDescription` in .wolf/hooks/shared.js, for style sheets, SQL, Protocol Buffers, GraphQL,
-- YAML and TOML.
use efipix.Prelude.{
  String, not, ◌&&◌, ◌||◌, Option, none, some, [], ◌∷◌, ◌++◌, map, ltb, if◌then◌else◌, take, ◌==◌,
}
use efipix.Text.{Text, codes, includes}
use efipix.Text.Decimal.{show}
use efipix.Regex.{Regex, line_bol, line_eol, chr, group, opt, plus, space, is_word}
use efipix.Regex.Build.{
  cat, str, in_set, not_in, word, spaces, spaces1, anything1, group_in, replace_all, ignoring_case,
}
use efipix.Describe.{cap}
use efipix.Describe.Attempts.{first_text, when, trimmed}
use efipix.Languages.Names.{named, names, count, commas, is_none, part, after_text}

-- /^[.#@][^\n{]+/gm and /--[\w-]+\s*:/g
abbrev pub rule_re : Regex
rule_re = cat (line_bol ∷ in_set ".#@" ∷ plus (not_in "\n{") ∷ [])

abbrev dashed : Regex
dashed = plus (chr (λ c. is_word c || c == b'-'))

abbrev pub var_re : Regex
var_re = cat (str "--" ∷ dashed ∷ spaces ∷ str ":" ∷ [])

unfoldable pub styles : Text → Text
unfolding cap
styles content =
    let rules = count rule_re content in
    let vars = count var_re content in
    let parts =
      part (ltb 0 rules) (show rules ++ codes " rules")
      ++ part (ltb 0 vars) (show vars ++ codes " vars") in
    cap (if is_none parts then codes "Stylesheet" else codes "Styles: " ++ commas parts)

-- (?:IF\s+NOT\s+EXISTS\s+)? with the flag `i`
abbrev no_case : String → Regex
no_case s = cat (ignoring_case (codes s))

abbrev if_not_exists : Regex
if_not_exists =
    opt (cat (no_case "IF" ∷ spaces1 ∷ no_case "NOT" ∷ spaces1 ∷ no_case "EXISTS" ∷ spaces1 ∷ []))

abbrev pub tick : Regex
tick = in_set "`\"'"

-- /CREATE\s+TABLE\s+(?:IF\s+NOT\s+EXISTS\s+)?[`"']?(\w+)/gi
abbrev pub create_re : Regex
create_re = cat (
    no_case "CREATE"
    ∷ spaces1
    ∷ no_case "TABLE"
    ∷ spaces1
    ∷ if_not_exists
    ∷ opt tick
    ∷ group 1 word
    ∷ [])

-- /(?:TABLE\s+(?:IF\s+NOT\s+EXISTS\s+)?)([`"']?\w+)/i
abbrev table_re : Regex
table_re =
    cat (no_case "TABLE" ∷ spaces1 ∷ if_not_exists ∷ group 1 (cat (opt tick ∷ word ∷ [])) ∷ [])

unfoldable pub sql : Text → Option Text
unfolding cap
sql content =
    let creates = map (replace_all tick []) (names create_re table_re content) in
    when (not (is_none creates)) (some (cap (codes "SQL: tables: " ++ commas (take 4 creates))))

unfoldable pub proto : Text → Text
unfolding cap
proto content =
    let msgs = names (named "message") (named "message") content in
    let services = names (named "service") (named "service") content in
    let parts =
      part (not (is_none msgs)) (codes "messages: " ++ commas (take 3 msgs))
      ++ part (not (is_none services)) (codes "services: " ++ commas services) in
    cap (if is_none parts then [] else codes "Proto: " ++ commas parts)

unfoldable pub graphql : Text → Text
unfolding cap
graphql content =
    let types = names (named "type") (named "type") content in
    cap (
      if is_none types
      then codes "GraphQL schema"
      else codes "GraphQL: types: " ++ commas (take 4 types))

-- /^name:\s*(.+)$/m, /kind:\s*(\w+)/ and /^\s{2}\w+:/gm
abbrev name_re : Regex
name_re = cat (line_bol ∷ str "name:" ∷ spaces ∷ group 1 anything1 ∷ line_eol ∷ [])

abbrev kind_re : Regex
kind_re = cat (str "kind:" ∷ spaces ∷ group 1 word ∷ [])

abbrev pub service_re : Regex
service_re = cat (line_bol ∷ space ∷ space ∷ word ∷ str ":" ∷ [])

-- The texts of the `return`s, in the order of the source.
unfoldable pub yaml : Text → Text → Option Text
unfolding cap
yaml file content = first_text (
    when (includes content (codes "runs-on:")) (
      some (
        cap (
          after_text (codes "GitHub Actions workflow") (codes "CI: ")
            (trimmed (group_in 1 name_re content)))))
    ∷ when (includes content (codes "apiVersion:") && includes content (codes "kind:")) (
        some (
          cap
            (after_text (codes "Kubernetes manifest") (codes "K8s ") (group_in 1 kind_re content))))
    ∷ when
        (includes content (codes "services:")
          && (includes file (codes "docker") || includes file (codes "compose")))
        (some (codes "Docker Compose: " ++ (show (count service_re content) ++ codes " services")))
    ∷ [])

-- /^description\s*=\s*"([^"]+)"/m
abbrev description_re : Regex
description_re = cat (
    line_bol
    ∷ str "description"
    ∷ spaces
    ∷ str "="
    ∷ spaces
    ∷ str "\""
    ∷ group 1 (plus (not_in "\""))
    ∷ str "\""
    ∷ [])

unfoldable pub toml : Text → Option Text
unfolding cap
toml content = elim (group_in 1 description_re content) [ none ↦ none | some t ↦ some (cap t) ]
