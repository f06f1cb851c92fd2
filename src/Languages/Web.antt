-- ===== src/Languages/Web.antt =====
-- `extractDescription` in .wolf/hooks/shared.js, for TypeScript and JavaScript: React components,
-- conventions of Next.js, routes, tRPC, Zod, and exports.
use efipix.Prelude.{
  String, not, ◌||◌, Option, none, some, List, [], ◌∷◌, ◌++◌, map, ltb, leb, if◌then◌else◌, length,
}
use efipix.Text.{Text, codes, includes, join}
use efipix.Text.Decimal.{show}
use efipix.Regex.{Regex, eol, group, opt, test}
use efipix.Regex.Build.{
  cat, str, either, in_set, word, spaces, spaces1, group_in, unique, ignoring_case, upper,
}
use efipix.Describe.{cap}
use efipix.Describe.Attempts.{first_text, has_ext, when}
use efipix.Languages.Names.{
  maybe, verbs, names, count, commas, is_none, shown, with_more, part, part_of,
}

-- /(?:export\s+(?:default\s+)?)?(?:function|const)\s+(\w+)/
abbrev component_re : Regex
component_re = cat (
    opt (cat (str "export" ∷ spaces1 ∷ maybe (str "default") ∷ []))
    ∷ either (str "function" ∷ str "const" ∷ [])
    ∷ spaces1
    ∷ group 1 word
    ∷ [])

-- /<(?:form|Form)/i, /<(?:table|Table|DataTable)/i and /<(?:dialog|Dialog|Modal|Drawer)/i
abbrev tag_re : List Regex → Regex
tag_re l = cat (str "<" ∷ either l ∷ [])

abbrev no_case : String → Regex
no_case s = cat (ignoring_case (codes s))

abbrev form_re : Regex
form_re = tag_re (no_case "form" ∷ no_case "Form" ∷ [])

abbrev table_re : Regex
table_re = tag_re (no_case "table" ∷ no_case "Table" ∷ no_case "DataTable" ∷ [])

abbrev modal_re : Regex
modal_re = tag_re (no_case "dialog" ∷ no_case "Dialog" ∷ no_case "Modal" ∷ no_case "Drawer" ∷ [])

unfoldable pub react : Text → Option Text
unfolding cap
react content =
    let renders =
      part (test form_re content) (codes "form")
      ++ (part (test table_re content) (codes "table")
          ++ part (test modal_re content) (codes "modal")) in
    let parts =
      part_of [] (group_in 1 component_re content)
      ++ part (not (is_none renders)) (codes "renders " ++ commas renders) in
    if is_none parts then none else some (cap (join parts (codes " — ")))

-- /export\s+(?:async\s+)?function\s+(GET|POST|PUT|PATCH|DELETE)/g
abbrev handler_re : Regex
handler_re = group 1 (either (str "GET" ∷ str "POST" ∷ str "PUT" ∷ str "PATCH" ∷ str "DELETE" ∷ []))

abbrev pub export_handler_re : Regex
export_handler_re =
    cat (str "export" ∷ spaces1 ∷ maybe (str "async") ∷ str "function" ∷ spaces1 ∷ handler_re ∷ [])

unfoldable pub next_route : Text → Text
next_route content =
    let methods = unique (names export_handler_re handler_re content) in
    if is_none methods
    then codes "Next.js API route"
    else codes "Next.js API route: " ++ commas methods

-- /\.(get|post|put|patch|delete)\s*\(\s*['"`]/g and /\.(get|post|put|patch|delete)/
abbrev verb_re : Regex
verb_re = cat (str "." ∷ verbs ∷ [])

abbrev pub endpoint_re : Regex
endpoint_re = cat (verb_re ∷ spaces ∷ str "(" ∷ spaces ∷ in_set "'\"`" ∷ [])

-- `s.toUpperCase()` of a text of ASCII
abbrev to_upper : Text → Text
to_upper s = map upper s

unfoldable pub routes : Text → Option Text
unfolding cap
routes content =
    let n = count endpoint_re content in
    let methods = unique (map to_upper (names endpoint_re verb_re content)) in
    when (ltb 0 n) (
      some (
        cap (
          codes "API routes: "
          ++ (commas methods ++ (codes " (" ++ (show n ++ codes " endpoints)"))))))

-- /\.(query|mutation|subscription)\s*\(/g
abbrev pub procedure_re : Regex
procedure_re = cat (
    str "."
    ∷ either (str "query" ∷ str "mutation" ∷ str "subscription" ∷ [])
    ∷ spaces
    ∷ str "("
    ∷ [])

unfoldable pub trpc : Text → Text
trpc content =
    let procs = count procedure_re content in
    if ltb 0 procs
    then codes "tRPC router: " ++ (show procs ++ codes " procedures")
    else codes "tRPC router"

-- /(?:export\s+)?(?:const|let)\s+(\w+)\s*=\s*z\./g and /(?:const|let)\s+(\w+)/
abbrev binding_re : Regex
binding_re = cat (either (str "const" ∷ str "let" ∷ []) ∷ spaces1 ∷ group 1 word ∷ [])

abbrev pub schema_re : Regex
schema_re = cat (maybe (str "export") ∷ binding_re ∷ spaces ∷ str "=" ∷ spaces ∷ str "z." ∷ [])

unfoldable pub zod : Text → Option Text
unfolding cap shown
zod content =
    let schemas = names schema_re binding_re content in
    when (not (is_none schemas)) (some (cap (codes "Zod schemas: " ++ shown 4 schemas)))

-- /export\s+(?:async\s+)?(?:function|class|const|interface|type|enum)\s+(\w+)/g and /(\w+)$/
abbrev pub export_re : Regex
export_re = cat (
    str "export"
    ∷ spaces1
    ∷ maybe (str "async")
    ∷ either (
        str "function" ∷ str "class" ∷ str "const" ∷ str "interface" ∷ str "type" ∷ str "enum" ∷ [])
    ∷ spaces1
    ∷ group 1 word
    ∷ [])

abbrev last_word_re : Regex
last_word_re = cat (group 1 word ∷ eol ∷ [])

unfoldable pub exports : Text → Option Text
unfolding cap
exports content =
    let found = names export_re last_word_re content in
    when (not (is_none found)) (
      some (
        if leb (length found) 5
        then codes "Exports " ++ commas found
        else cap (codes "Exports " ++ with_more 4 found)))

-- The texts of the `return`s, in the order of the source.
unfoldable pub web : Text → Text → Text → Option Text
unfolding react next_route routes trpc zod exports
web ext file content = first_text (
    when (has_ext ext (codes ".tsx" ∷ codes ".jsx" ∷ [])) (react content)
    ∷ when (has_ext file (codes "page.tsx" ∷ codes "page.js" ∷ []))
        (some (codes "Next.js page component"))
    ∷ when (has_ext file (codes "layout.tsx" ∷ codes "layout.js" ∷ []))
        (some (codes "Next.js layout"))
    ∷ when (has_ext file (codes "route.ts" ∷ codes "route.js" ∷ [])) (some (next_route content))
    ∷ routes content
    ∷ when
        (includes content (codes "createTRPCRouter") || includes content (codes "publicProcedure"))
        (some (trpc content))
    ∷ when (includes content (codes "z.object") || includes content (codes "z.string"))
        (zod content)
    ∷ exports content
    ∷ [])
