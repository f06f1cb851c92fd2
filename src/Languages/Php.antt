-- ===== src/Languages/Php.antt =====
-- `extractDescription` in .wolf/hooks/shared.js, for PHP: Blade templates, controllers, models and
-- migrations of Laravel, and classes.
use efipix.Prelude.{
  ◌/◌, Bool, not, ◌&&◌, ◌||◌, Option, none, some, List, [], ◌∷◌, ◌++◌, ltb, if◌then◌else◌, keep,
}
use efipix.Text.{Text, codes, equal, ends_with, is_empty}
use efipix.Text.Decimal.{show}
use efipix.World.{or_default}
use efipix.Regex.{Regex, bol, chr, star, group, opt, plus, test, is_digit}
use efipix.Regex.Build.{cat, str, either, not_in, word, spaces, spaces1, group_in}
use efipix.Describe.{cap}
use efipix.Describe.Attempts.{first_text, when}
use efipix.Languages.Names.{named, quote, names, count, commas, is_none, shown, part, part_of}

-- /@extends\(\s*['"]([^'"]+)['"]\s*\)/
abbrev extends_re : Regex
extends_re = cat (
    str "@extends("
    ∷ spaces
    ∷ quote
    ∷ group 1 (plus (not_in "'\""))
    ∷ quote
    ∷ spaces
    ∷ str ")"
    ∷ [])

-- /@section\(\s*['"](\w+)['"]/g and /['"](\w+)['"]/
abbrev quoted_re : Regex
quoted_re = cat (quote ∷ group 1 word ∷ quote ∷ [])

abbrev pub section_re : Regex
section_re = cat (str "@section(" ∷ spaces ∷ quoted_re ∷ [])

unfoldable pub blade : Text → Text
unfolding cap
blade content =
    let sections = names section_re quoted_re content in
    let parts =
      part_of (codes "extends ") (group_in 1 extends_re content)
      ++ part (not (is_none sections)) (codes "sections: " ++ commas sections) in
    cap (if is_none parts then codes "Blade template" else codes "Blade: " ++ commas parts)

-- /class\s+(\w+)(?:\s+extends\s+(\w+))?/
abbrev class_re : Regex
class_re =
    cat (named "class" ∷ opt (cat (spaces1 ∷ str "extends" ∷ spaces1 ∷ group 2 word ∷ [])) ∷ [])

-- /public\s+function\s+(\w+)/g
abbrev pub public_re : Regex
public_re = cat (str "public" ∷ spaces1 ∷ named "function" ∷ [])

abbrev is_own : Text → Bool
is_own n = not (equal n (codes "__construct")) && not (equal n (codes "middleware"))

abbrev pub_methods : Text → List Text
pub_methods content = keep is_own (names public_re public_re content)

-- /\$table\s*=\s*['"]([^'"]+)['"]/
abbrev table_re : Regex
table_re =
    cat (
      str "$table" ∷ spaces ∷ str "=" ∷ spaces ∷ quote ∷ group 1 (plus (not_in "'\"")) ∷ quote ∷ [])

-- /\$fillable\s*=\s*\[([^\]]*)\]/s
abbrev fillable_re : Regex
fillable_re = cat (
    str "$fillable"
    ∷ spaces
    ∷ str "="
    ∷ spaces
    ∷ str "["
    ∷ group 1 (star (not_in "]"))
    ∷ str "]"
    ∷ [])

-- /\$this->(hasMany|hasOne|belongsTo|belongsToMany|morphMany|morphTo)\(/g
abbrev pub relation_re : Regex
relation_re = cat (
    str "$this->"
    ∷ either (
        str "hasMany"
        ∷ str "hasOne"
        ∷ str "belongsTo"
        ∷ str "belongsToMany"
        ∷ str "morphMany"
        ∷ str "morphTo"
        ∷ [])
    ∷ str "("
    ∷ [])

abbrev fields_part : Option Text → List Text
fields_part none = []
fields_part (some fill) = (show (count quote fill / 2) ++ codes " fields") ∷ []

unfoldable pub model : Text → Text → Text
unfolding cap
model class_name content =
    let rels = count relation_re content in
    let parts =
      part_of (codes "table: ") (group_in 1 table_re content)
      ++ (fields_part (group_in 1 fillable_re content)
          ++ part (ltb 0 rels) (show rels ++ codes " rels")) in
    cap (if is_none parts then codes "Model: " ++ class_name else codes "Model — " ++ commas parts)

-- /^\d{4}_\d{2}_\d{2}/
abbrev digit : Regex
digit = chr is_digit

abbrev dated_re : Regex
dated_re =
    cat
      (bol ∷ digit ∷ digit ∷ digit ∷ digit ∷ str "_" ∷ digit ∷ digit ∷ str "_" ∷ digit ∷ digit ∷ [])

-- /Schema::create\(\s*['"]([^'"]+)['"]/ and the same with `table`
abbrev schema_re : Regex → Regex
schema_re f =
    cat (str "Schema::" ∷ f ∷ str "(" ∷ spaces ∷ quote ∷ group 1 (plus (not_in "'\"")) ∷ quote ∷ [])

abbrev altered : Option Text → Text
altered none = codes "Database migration"
altered (some t) = codes "Migration: alter " ++ (t ++ codes " table")

abbrev created : Option Text → Option Text → Text
created none o = altered o
created (some t) o = codes "Migration: create " ++ (t ++ codes " table")

unfoldable pub migration : Text → Text
migration content =
    created (group_in 1 (schema_re (str "create")) content)
      (group_in 1 (schema_re (str "table")) content)

-- The texts of the `return`s, in the order of the source.
unfoldable pub php : Text → Text → Option Text
unfolding cap blade model migration shown
php file content =
    let class_name = or_default [] (group_in 1 class_re content) in
    let parent = or_default [] (group_in 2 class_re content) in
    let methods = pub_methods content in
    first_text (
      when (ends_with file (codes ".blade.php")) (some (blade content))
      ∷ when
          ((ends_with file (codes "Controller.php") || equal parent (codes "Controller"))
            && not (is_none methods))
          (some (cap (shown 5 methods)))
      ∷ when (equal parent (codes "Model") || equal parent (codes "Authenticatable"))
          (some (model class_name content))
      ∷ when (test dated_re file) (some (migration content))
      ∷ when (not (is_empty class_name) && not (is_none methods))
          (some (cap (class_name ++ (codes ": " ++ shown 4 methods))))
      ∷ [])
