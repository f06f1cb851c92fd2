-- ===== src/Tests/Descriptions.antt =====
-- Runs of the beginning of `extractDescription` in .wolf/hooks/shared.js.
use efipix.Prelude.{some, none, ◌≡◌, ◌≤◌, refl, length}
use efipix.Text.{codes, is_space, trim, to_lower, starts_with, split}
use efipix.NodePath.{basename, extname}
use efipix.Regex.{is_any, is_word}
use efipix.Regex.Build.{group_in}
use efipix.Tokens.{one_of}
use efipix.Object.{is_inherited, find_own}
use efipix.Describe.{describe_start, returns, no_text, goes_on, max_desc}
use efipix.Languages.{describe}
use efipix.Languages.Capped.{describe_bound}
use efipix.Prelude.{◌⊎◌}

heading :
    describe_start (codes "docs/notes.md") (some (codes "intro\n## My notes \nmore"))
    ≡ returns (codes "My notes")
unfolding describe_start basename extname to_lower trim split group_in is_space is_any one_of
    is_inherited find_own starts_with
heading = refl

package_comment :
    describe_start
      (codes "main.go")
      (some (codes "// Package main starts the server.\npackage main\n"))
    ≡ returns (codes "starts the server.")
unfolding describe_start basename extname to_lower trim split group_in is_space is_any is_word
    one_of is_inherited find_own starts_with
package_comment = refl

no_comment : describe_start (codes "a.xyz") (some (codes "x = 1\n")) ≡ goes_on
unfolding describe_start basename extname to_lower trim split group_in is_space is_any one_of
    is_inherited find_own starts_with
no_comment = refl

manifest : describe_start (codes "/p/go.mod") none ≡ returns (codes "Go module definition")
unfolding describe_start basename find_own
manifest = refl

inherited_name : describe_start (codes "/p/constructor") none ≡ no_text
unfolding describe_start basename find_own is_inherited
inherited_name = refl

short_heading : describe (codes "a.md") (some (codes "# Notes")) ≡ some (codes "Notes")
unfolding describe basename extname to_lower trim split group_in is_space is_any one_of is_inherited
    find_own starts_with
short_heading = refl

describe_bound_example :
    (length (codes "Notes") ≤ max_desc)
    ⊎ (describe_start (codes "a.md") (some (codes "# Notes")) ≡ goes_on)
describe_bound_example =
    describe_bound (codes "a.md") (some (codes "# Notes")) (codes "Notes") short_heading
