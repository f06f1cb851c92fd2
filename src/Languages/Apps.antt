-- ===== src/Languages/Apps.antt =====
-- `extractDescription` in .wolf/hooks/shared.js, for Swift, Dart, Vue, Svelte and Astro.
use efipix.Prelude.{◌||◌, Option, some, [], ◌∷◌, ◌++◌, if◌then◌else◌}
use efipix.Text.{Text, codes, includes}
use efipix.Regex.{Regex, group, plus}
use efipix.Regex.Build.{cat, str, either, not_in, spaces, spaces1, group_in, replace_first}
use efipix.Describe.{cap}
use efipix.Describe.Attempts.{first_text, when}
use efipix.Languages.Names.{
  named, maybe, quote, commas, is_none, part, part_of, labelled, after_text,
}
use efipix.Languages.Managed.{public_class_re}

-- /struct\s+(\w+)\s*:\s*View/ and /(?:public\s+)?struct\s+(\w+)/
abbrev view_re : Regex
view_re = cat (named "struct" ∷ spaces ∷ str ":" ∷ spaces ∷ str "View" ∷ [])

abbrev struct_re : Regex
struct_re = cat (maybe (str "public") ∷ named "struct" ∷ [])

-- The texts of the `return`s, in the order of the source.
unfoldable pub swift : Text → Option Text
swift content = first_text (
    when (includes content (codes ": View") || includes content (codes "some View")) (
      some
        (after_text (codes "SwiftUI view") (codes "SwiftUI view: ") (group_in 1 view_re content)))
    ∷ labelled (codes "Protocol: ") (group_in 1 (named "protocol") content)
    ∷ labelled (codes "Struct: ") (group_in 1 struct_re content)
    ∷ labelled (codes "Class: ") (group_in 1 public_class_re content)
    ∷ [])

-- /class\s+(\w+)\s+extends\s+(?:Stateful|Stateless)Widget/
abbrev widget_re : Regex
widget_re = cat (
    named "class"
    ∷ spaces1
    ∷ str "extends"
    ∷ spaces1
    ∷ either (str "Stateful" ∷ str "Stateless" ∷ [])
    ∷ str "Widget"
    ∷ [])

unfoldable pub widget : Text → Text
widget content =
    let kind =
      if includes content (codes "StatefulWidget") then codes "Stateful" else codes "Stateless" in
    after_text (codes "Flutter widget") (kind ++ codes " widget: ") (group_in 1 widget_re content)

unfoldable pub dart : Text → Option Text
unfolding widget
dart content = first_text (
    when (includes content (codes "StatefulWidget") || includes content (codes "StatelessWidget"))
      (some (widget content))
    ∷ labelled (codes "Class: ") (group_in 1 (named "class") content)
    ∷ [])

-- /name:\s*['"]([^'"]+)['"]/
abbrev name_re : Regex
name_re = cat (str "name:" ∷ spaces ∷ quote ∷ group 1 (plus (not_in "'\"")) ∷ quote ∷ [])

unfoldable pub vue : Text → Text
unfolding cap
vue content =
    let parts =
      part_of [] (group_in 1 name_re content)
      ++ part (includes content (codes "<script setup")) (codes "setup") in
    cap (if is_none parts then codes "Vue component" else codes "Vue: " ++ commas parts)

unfoldable pub svelte : Text → Text
svelte file = codes "Svelte: " ++ replace_first file (codes ".svelte") []

unfoldable pub astro : Text → Text
astro file = codes "Astro: " ++ replace_first file (codes ".astro") []
