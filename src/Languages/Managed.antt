-- ===== src/Languages/Managed.antt =====
-- `extractDescription` in .wolf/hooks/shared.js, for Java, Kotlin and C#.
use efipix.Prelude.{
  not, ◌||◌, Option, some, List, [], ◌∷◌, ◌++◌, ltb, if◌then◌else◌, take, drop, keep, map, ◌==◌,
}
use efipix.Text.{Text, codes, equal, includes, is_space, is_empty}
use efipix.Text.Decimal.{show}
use efipix.World.{or_default}
use efipix.Regex.{Regex, eol, chr, group, opt, plus, test, is_word}
use efipix.Regex.Build.{
  cat, str, either, word, spaces, spaces1, group_in, found_all, replace_first, without, unique,
}
use efipix.Describe.{cap}
use efipix.Describe.Attempts.{first_text, when}
use efipix.Languages.Names.{named, maybe, names, count, commas, is_none, followed}

-- /(?:public\s+)?class\s+(\w+)/
abbrev pub public_class_re : Regex
public_class_re = cat (maybe (str "public") ∷ named "class" ∷ [])

-- /@(RestController|Controller|Service|Repository|Component|Entity|Configuration)/g
abbrev pub annotation_re : Regex
annotation_re = cat (
    str "@"
    ∷ either (
        str "RestController"
        ∷ str "Controller"
        ∷ str "Service"
        ∷ str "Repository"
        ∷ str "Component"
        ∷ str "Entity"
        ∷ str "Configuration"
        ∷ [])
    ∷ [])

-- /@(?:Get|Post|Put|Patch|Delete|Request)Mapping/g
abbrev pub mapping_re : Regex
mapping_re = cat (
    str "@"
    ∷ either (str "Get" ∷ str "Post" ∷ str "Put" ∷ str "Patch" ∷ str "Delete" ∷ str "Request" ∷ [])
    ∷ str "Mapping"
    ∷ [])

-- /public\s+(?:static\s+)?(?:\w+(?:<[\w,\s]+>)?)\s+(\w+)\s*\(/g and /(\w+)\s*\(/
abbrev argument : Regex
argument = chr (λ c. is_word c || c == b',' || is_space c)

abbrev pub called_re : Regex
called_re = cat (group 1 word ∷ spaces ∷ str "(" ∷ [])

abbrev pub method_re : Regex
method_re = cat (
    str "public"
    ∷ spaces1
    ∷ maybe (str "static")
    ∷ word
    ∷ opt (cat (str "<" ∷ plus argument ∷ str ">" ∷ []))
    ∷ spaces1
    ∷ called_re
    ∷ [])

abbrev head_or : Text → List Text → Text
head_or d [] = d
head_or d (x ∷ l) = x

-- `name ? "Class: " + name : ""`
abbrev class_text : Text → Text
class_text name = if is_empty name then [] else codes "Class: " ++ name

-- The texts of the `return`s, in the order of the source; the last one is always reached.
unfoldable pub java : Text → Text → Option Text
unfolding cap
java file content =
    let name =
      or_default (replace_first file (codes ".java") []) (group_in 1 public_class_re content) in
    let annotations = map (drop 1) (found_all annotation_re content) in
    let mappings = count mapping_re content in
    let methods = keep (λ n. not (equal n name)) (names method_re called_re content) in
    first_text (
      when (ltb 0 mappings) (
        some (
          cap (
            head_or (codes "Spring") annotations
            ++ (codes ": " ++ (name ++ (codes " (" ++ (show mappings ++ codes " endpoints)")))))))
      ∷ when (not (is_none annotations)) (some (head_or [] annotations ++ (codes ": " ++ name)))
      ∷ when (includes content (codes "@Entity")) (some (codes "Entity: " ++ name))
      ∷ when (not (is_none methods)) (some (cap (name ++ (codes ": " ++ commas (take 4 methods)))))
      ∷ some (class_text name)
      ∷ [])

-- /(?:data\s+)?class\s+(\w+)/, /data\s+class/ and /\.kts?$/
abbrev kotlin_class_re : Regex
kotlin_class_re = cat (maybe (str "data") ∷ named "class" ∷ [])

abbrev data_re : Regex
data_re = cat (str "data" ∷ spaces1 ∷ str "class" ∷ [])

abbrev kotlin_end_re : Regex
kotlin_end_re = cat (str ".kt" ∷ opt (str "s") ∷ eol ∷ [])

unfoldable pub kotlin : Text → Text → Option Text
unfolding cap
kotlin file content =
    let cls = group_in 1 kotlin_class_re content in
    let fns = names (named "fun") (named "fun") content in
    first_text (
      when (test data_re content)
        (some (codes "Data class: " ++ or_default (without kotlin_end_re file) cls))
      ∷ when (includes content (codes "routing {")) (some (codes "Ktor routing"))
      ∷ when (not (is_none fns)) (followed cls (codes ": " ++ commas (take 4 fns)))
      ∷ when (not (is_none fns)) (some (cap (commas (take 5 fns))))
      ∷ [])

-- /(?:public\s+)?(?:partial\s+)?class\s+(\w+)(?:\s*:\s*(\w+))?/
abbrev csharp_class_re : Regex
csharp_class_re = cat (
    maybe (str "public")
    ∷ maybe (str "partial")
    ∷ named "class"
    ∷ opt (cat (spaces ∷ str ":" ∷ spaces ∷ group 2 word ∷ []))
    ∷ [])

-- /\[Http(Get|Post|Put|Patch|Delete)\]/g and /Http(\w+)/
abbrev pub action_re : Regex
action_re = cat (
    str "[Http"
    ∷ either (str "Get" ∷ str "Post" ∷ str "Put" ∷ str "Patch" ∷ str "Delete" ∷ [])
    ∷ str "]"
    ∷ [])

abbrev http_re : Regex
http_re = cat (str "Http" ∷ group 1 word ∷ [])

-- /DbSet<(\w+)>/g and /<(\w+)>/
abbrev in_angles_re : Regex
in_angles_re = cat (str "<" ∷ group 1 word ∷ str ">" ∷ [])

abbrev pub db_set_re : Regex
db_set_re = cat (str "DbSet" ∷ in_angles_re ∷ [])

unfoldable pub csharp : Text → Text → Option Text
unfolding cap
csharp file content =
    let name =
      or_default (replace_first file (codes ".cs") []) (group_in 1 csharp_class_re content) in
    let parent = or_default [] (group_in 2 csharp_class_re content) in
    let actions = names action_re http_re content in
    let sets = names db_set_re in_angles_re content in
    first_text (
      when
        (equal parent (codes "Controller")
          || (equal parent (codes "ControllerBase") || includes content (codes "[ApiController]")))
        (some (
          cap (
            if is_none actions
            then codes "Controller: " ++ name
            else codes "API Controller: "
              ++ (name ++ (codes " (" ++ (commas (unique actions) ++ codes ")"))))))
      ∷ when (equal parent (codes "DbContext") || includes content (codes "DbSet<"))
          (some (cap (codes "DbContext: " ++ (if is_none sets then name else commas sets))))
      ∷ some (class_text name)
      ∷ [])
