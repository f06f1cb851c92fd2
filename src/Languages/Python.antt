-- ===== src/Languages/Python.antt =====
-- `extractDescription` in .wolf/hooks/shared.js, for Python, Go and Rust.
use efipix.Prelude.{
  String, false, Bool, not, ◌&&◌, ◌||◌, Option, none, some, List, [], ◌∷◌, ◌++◌, ltb, if◌then◌else◌,
  take, keep, ◌==◌,
}
use efipix.Text.{Text, codes, includes}
use efipix.Text.Decimal.{show}
use efipix.World.{or_default}
use efipix.Regex.{Regex, line_bol}
use efipix.Regex.Build.{cat, str, either, word, spaces, spaces1, anything, group_in, upper}
use efipix.Describe.{cap}
use efipix.Describe.Attempts.{first_text, when}
use efipix.Languages.Names.{
  named, maybe, verbs, names, count, commas, is_none, shown, is_public, after_text, labelled,
}

-- /class\s+(\w+)\(.*models\.Model\)/ and the same with BaseModel
abbrev subclass_re : String → Regex
subclass_re s = cat (named "class" ∷ str "(" ∷ anything ∷ str s ∷ str ")" ∷ [])

-- /^\s+\w+\s*=\s*models\.\w+/gm
abbrev pub field_re : Regex
field_re = cat (line_bol ∷ spaces1 ∷ word ∷ spaces ∷ str "=" ∷ spaces ∷ str "models." ∷ word ∷ [])

-- /@(?:router|app)\.(get|post|put|patch|delete)\s*\(/g
abbrev pub route_re : Regex
route_re =
    cat (str "@" ∷ either (str "router" ∷ str "app" ∷ []) ∷ str "." ∷ verbs ∷ spaces ∷ str "(" ∷ [])

unfoldable pub django : Text → Text
unfolding cap
django content = cap (
    codes "Model: "
    ++ (or_default (codes "unknown") (group_in 1 (subclass_re "models.Model") content)
        ++ (codes ", " ++ (show (count field_re content) ++ codes " fields"))))

unfoldable pub python_routes : Text → Text
unfolding cap
python_routes content =
    let n = count route_re content in
    cap (if ltb 0 n then codes "API: " ++ (show n ++ codes " endpoints") else codes "API router")

abbrev pub functions : Text → List Text
functions content = keep is_public (names (named "def") (named "def") content)

unfoldable pub celery : Text → Text
unfolding cap
celery content =
    let tasks = functions content in
    cap (if is_none tasks then codes "Celery task" else codes "Celery tasks: " ++ commas tasks)

abbrev generic : Option Text → List Text → Option Text
generic none fs = when (not (is_none fs)) (some (cap (commas (take 4 fs))))
generic (some c) fs = when (not (is_none fs)) (some (cap (c ++ (codes ": " ++ shown 4 fs))))

-- The texts of the `return`s, in the order of the source.
unfoldable pub python : Text → Option Text
unfolding cap shown django python_routes celery
python content = first_text (
    when (includes content (codes "models.Model")) (some (django content))
    ∷ when (includes content (codes "@router.") || includes content (codes "@app."))
        (some (python_routes content))
    ∷ when (includes content (codes "BaseModel") && includes content (codes "Field(")) (
        some (
          after_text (codes "Pydantic model") (codes "Pydantic: ")
            (group_in 1 (subclass_re "BaseModel") content)))
    ∷ when (includes content (codes "@shared_task") || includes content (codes "@app.task"))
        (some (celery content))
    ∷ generic (group_in 1 (named "class") content) (functions content)
    ∷ [])

-- /func\s+(\w+)\s*\(\s*\w+\s+http\.ResponseWriter/g
abbrev pub handler_re : Regex
handler_re =
    cat (named "func" ∷ spaces ∷ str "(" ∷ spaces ∷ word ∷ spaces1 ∷ str "http.ResponseWriter" ∷ [])

-- /type\s+(\w+)\s+interface\s*\{/ and the same with `struct`
abbrev type_re : String → Regex
type_re s = cat (named "type" ∷ spaces1 ∷ str s ∷ spaces ∷ str "{" ∷ [])

-- `n && n[0] === n[0].toUpperCase()`, for a text of ASCII
abbrev is_exported : Text → Bool
is_exported [] = false
is_exported (c ∷ n) = c == upper c

unfoldable pub go : Text → Option Text
unfolding cap
go content =
    let handlers = names handler_re (named "func") content in
    let fs = keep is_exported (names (cat (line_bol ∷ named "func" ∷ [])) (named "func") content) in
    first_text (
      when (not (is_none handlers))
        (some (cap (codes "HTTP handlers: " ++ commas (take 5 handlers))))
      ∷ labelled (codes "Interface: ") (group_in 1 (type_re "interface") content)
      ∷ labelled (codes "Struct: ") (group_in 1 (type_re "struct") content)
      ∷ when (not (is_none fs)) (some (cap (commas (take 5 fs))))
      ∷ [])

-- /pub\s+w\s+(\w+)/ for a keyword `w`
abbrev pub public_re : String → Regex
public_re w = cat (str "pub" ∷ spaces1 ∷ named w ∷ [])

-- /pub\s+(?:async\s+)?fn\s+(\w+)/g
abbrev pub fn_re : Regex
fn_re = cat (str "pub" ∷ spaces1 ∷ maybe (str "async") ∷ named "fn" ∷ [])

abbrev struct : List Text → Option Text → Option Text
struct methods none = none
struct methods (some s) = some (
    cap (
      if is_none methods
      then codes "Struct: " ++ s
      else s ++ (codes ": " ++ commas (take 4 methods))))

unfoldable pub rust : Text → Option Text
unfolding cap
rust content =
    let fns = names fn_re (named "fn") content in
    first_text (
      struct fns (group_in 1 (public_re "struct") content)
      ∷ labelled (codes "Trait: ") (group_in 1 (public_re "trait") content)
      ∷ labelled (codes "Enum: ") (group_in 1 (public_re "enum") content)
      ∷ when (not (is_none fns)) (some (cap (commas (take 5 fns))))
      ∷ [])
