-- ===== src/Describe.antt =====
-- The beginning of `extractDescription` in .wolf/hooks/shared.js: the known names, and the attempts up
-- to the header comment. What stands behind it is in Languages.
pub mod Attempts
pub mod Bounds
use efipix.Describe.Attempts.{attempts, first_text, header_comment}
use efipix.Prelude.{
  ℕ, ◌-◌, Bool, true, false, not, ◌&&◌, ◌||◌, Option, none, some, List, [], ◌∷◌, ◌++◌, ◌==◌, ltb,
  leb, if◌then◌else◌, length, take, any, ◌≡◌, refl,
}
use efipix.Text.{Text, codes, equal, starts_with, trim, split, to_lower, prefix, is_empty}
use efipix.NodePath.{basename, extname}
use efipix.Tokens.{one_of}
use efipix.Regex.{
  Regex, bol, eol, line_bol, line_eol, chr, seq, star, lazy, group, opt, plus, exec, group_of,
  is_any,
}
use efipix.Regex.Build.{
  cat, str, either, in_set, not_in, word, spaces, spaces1, anything, anything1, plus_lazy, group_in,
  without, replace_all, ignoring_case,
}
use efipix.Object.{Object, Property, get, own, inherited, absent}

abbrev pub max_desc : ℕ
max_desc = 150

abbrev pub known : Object Text
known =
    (codes "package.json", codes "Node.js package manifest")
    ∷ (codes "tsconfig.json", codes "TypeScript configuration")
    ∷ (codes ".gitignore", codes "Git ignore rules")
    ∷ (codes "README.md", codes "Project documentation")
    ∷ (codes "composer.json", codes "PHP package manifest")
    ∷ (codes "requirements.txt", codes "Python dependencies")
    ∷ (codes "schema.sql", codes "Database schema")
    ∷ (codes "Dockerfile", codes "Docker container definition")
    ∷ (codes "docker-compose.yml", codes "Docker Compose services")
    ∷ (codes "Cargo.toml", codes "Rust package manifest")
    ∷ (codes "go.mod", codes "Go module definition")
    ∷ (codes "Gemfile", codes "Ruby dependencies")
    ∷ (codes "pubspec.yaml", codes "Dart/Flutter package manifest")
    ∷ []

unfoldable pub cap : Text → Text
cap s = if leb (length s) max_desc then s else prefix (max_desc - 3) s ++ codes "..."

-- What the beginning comes to: a text is returned, an inherited property is, or the function goes on.
pub data Start : Type 0 where
  returns : Text → Start
  no_text goes_on : Start

abbrev pub capped : Option Text → Start
capped none = goes_on
capped (some t) = returns (cap t)

-- `content` is the beginning of the file, or `none` where it cannot be read.
abbrev pub of_content : Text → Option Text → Start
of_content ext none = returns []
of_content ext (some c) =
    if is_empty (trim c) then returns [] else capped (first_text (attempts ext c))

abbrev pub of_known : Property Text → Text → Option Text → Start
of_known (own d) ext content = returns d
of_known inherited ext content = no_text
of_known absent ext content = of_content ext content

unfoldable pub describe_start : Text → Option Text → Start
unfolding cap header_comment attempts get
describe_start file content =
    of_known (get (basename file) known) (to_lower (extname (basename file))) content

pub describe_start_lem :
    (file : Text) (content : Option Text)
    → describe_start file content
      ≡ of_known (get (basename file) known) (to_lower (extname (basename file))) content
unfolding describe_start
describe_start_lem file content = refl
