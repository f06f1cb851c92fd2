-- ===== src/Languages.antt =====
-- `extractDescription` in .wolf/hooks/shared.js as a whole: the beginning, and behind it the
-- summaries of single languages and the last resort.
pub mod Names
pub mod Php
pub mod Web
pub mod Python
pub mod Managed
pub mod Ruby
pub mod Apps
pub mod Markup
pub mod Total
pub mod Capped
use efipix.Prelude.{
  Bool, not, ◌&&◌, Option, none, some, List, [], ◌∷◌, ◌++◌, leb, if◌then◌else◌, length, keep,
}
use efipix.Text.{Text, codes, equal, to_lower}
use efipix.NodePath.{basename, extname}
use efipix.World.{or_default}
use efipix.Regex.{Regex, group}
use efipix.Regex.Build.{cat, str, either, word, spaces1, group_in}
use efipix.Describe.{Start, returns, no_text, goes_on, cap, describe_start}
use efipix.Describe.Attempts.{first_text, has_ext, when}
use efipix.Languages.Names.{maybe, names, commas, is_none, with_more}
use efipix.Languages.Php.{php}
use efipix.Languages.Web.{web}
use efipix.Languages.Python.{python, go, rust}
use efipix.Languages.Managed.{java, kotlin, csharp, called_re}
use efipix.Languages.Ruby.{ruby, elixir, lua, zig}
use efipix.Languages.Apps.{swift, dart, vue, svelte, astro}
use efipix.Languages.Markup.{styles, sql, proto, graphql, yaml, toml}

-- /(?:function|class|const|interface|type|enum)\s+(\w+)/
abbrev declaration_re : Regex
declaration_re = cat (
    either
      (str "function" ∷ str "class" ∷ str "const" ∷ str "interface" ∷ str "type" ∷ str "enum" ∷ [])
    ∷ spaces1
    ∷ group 1 word
    ∷ [])

-- /(?:public\s+)?(?:async\s+)?(?:function\s+|(?:get|set)\s+)(\w+)\s*\(/g
abbrev pub method_re : Regex
method_re = cat (
    maybe (str "public")
    ∷ maybe (str "async")
    ∷ either (
        cat (str "function" ∷ spaces1 ∷ [])
        ∷ cat (either (str "get" ∷ str "set" ∷ []) ∷ spaces1 ∷ [])
        ∷ [])
    ∷ called_re
    ∷ [])

abbrev is_method_of : Text → Text → Bool
is_method_of name n =
    not (equal n name)
    && (not (equal n (codes "__construct")) && not (equal n (codes "constructor")))

abbrev declared : Text → List Text → Text
declared name methods =
    if is_none methods
    then codes "Declares " ++ name
    else if leb (length methods) 5
    then cap (name ++ (codes ": " ++ commas methods))
    else cap (name ++ (codes ": " ++ with_more 3 methods))

unfoldable pub last_resort : Text → Option Text
unfolding cap
last_resort content = elim (group_in 1 declaration_re content) [
  | none ↦ none
  | some name ↦ some (declared name (keep (is_method_of name) (names method_re called_re content)))
]

abbrev pub only_for : Text → List Text → Option Text → Option Text
only_for ext es o = when (has_ext ext es) o

-- What the blocks for the languages return, in the order of the source.
unfoldable pub summaries : Text → Text → Text → List (Option Text)
unfolding php web python go rust java kotlin csharp ruby elixir lua zig swift dart vue svelte astro
    styles sql proto graphql yaml toml last_resort
summaries ext file content =
    only_for ext (codes ".php" ∷ []) (php file content)
    ∷ only_for ext
        (codes ".ts" ∷ codes ".tsx" ∷ codes ".js" ∷ codes ".jsx" ∷ codes ".mjs" ∷ codes ".cjs" ∷ [])
        (web ext file content)
    ∷ only_for ext (codes ".py" ∷ []) (python content)
    ∷ only_for ext (codes ".go" ∷ []) (go content)
    ∷ only_for ext (codes ".rs" ∷ []) (rust content)
    ∷ only_for ext (codes ".java" ∷ []) (java file content)
    ∷ only_for ext (codes ".kt" ∷ codes ".kts" ∷ []) (kotlin file content)
    ∷ only_for ext (codes ".cs" ∷ []) (csharp file content)
    ∷ only_for ext (codes ".rb" ∷ []) (ruby file content)
    ∷ only_for ext (codes ".swift" ∷ []) (swift content)
    ∷ only_for ext (codes ".dart" ∷ []) (dart content)
    ∷ only_for ext (codes ".vue" ∷ []) (some (vue content))
    ∷ only_for ext (codes ".svelte" ∷ []) (some (svelte file))
    ∷ only_for ext (codes ".astro" ∷ []) (some (astro file))
    ∷ only_for ext (codes ".css" ∷ codes ".scss" ∷ codes ".less" ∷ []) (some (styles content))
    ∷ only_for ext (codes ".sql" ∷ []) (sql content)
    ∷ only_for ext (codes ".proto" ∷ []) (some (proto content))
    ∷ only_for ext (codes ".graphql" ∷ codes ".gql" ∷ []) (some (graphql content))
    ∷ only_for ext (codes ".yaml" ∷ codes ".yml" ∷ []) (yaml file content)
    ∷ only_for ext (codes ".toml" ∷ []) (toml content)
    ∷ only_for ext (codes ".ex" ∷ codes ".exs" ∷ []) (elixir content)
    ∷ only_for ext (codes ".lua" ∷ []) (lua content)
    ∷ only_for ext (codes ".zig" ∷ []) (zig content)
    ∷ last_resort content
    ∷ []

unfoldable pub of_language : Text → Text → Text
unfolding summaries
of_language file content =
    or_default []
      (first_text (summaries (to_lower (extname (basename file))) (basename file) content))

abbrev pub describe_from : Text → Option Text → Start → Option Text
describe_from file content (returns t) = some t
describe_from file content no_text = none
describe_from file content goes_on = some (of_language file (or_default [] content))

-- `extractDescription`: `content` is the beginning of the file, or `none` where it cannot be read;
-- the result is `none` where the function returns a property that every object inherits.
unfoldable pub describe : Text → Option Text → Option Text
unfolding describe_start of_language
describe file content = describe_from file content (describe_start file content)
