-- ===== src/Tests/Summaries.antt =====
-- Runs of `extractDescription` in .wolf/hooks/shared.js on files of several languages.
use efipix.Prelude.{some, none, [], ◌∷◌, ◌≡◌, ◌↔◌, refl}
use efipix.Text.{Text, codes}
use efipix.Text.{is_space, trim, to_lower, starts_with, split, equal, includes, ends_with, join}
use efipix.Text.Decimal.{show}
use efipix.NodePath.{basename, extname}
use efipix.Regex.{is_any, is_word, is_digit, test}
use efipix.Regex.Build.{group_in, found_all, unique_onto}
use efipix.Tokens.{one_of}
use efipix.Object.{is_inherited, find_own}
use efipix.Languages.{describe}
use efipix.Languages.Names.{names, named}
use efipix.Languages.Total.{describe-none}
use efipix.Describe.{known}
use efipix.Object.{get, inherited}

exported :
    describe (codes "src/a.ts") (some (codes "export const a = 1;\nexport async function b() {}\n"))
    ≡ some (codes "Exports a, b")
unfolding describe basename extname to_lower trim split group_in is_space is_any is_word one_of
    is_inherited find_own starts_with equal includes join found_all test unique_onto
exported = refl

handlers :
    describe (codes "a.js") (some (codes "r.get('/a', f);\nr.post(\"/b\", g);\nr.get('/c', h);"))
    ≡ some (codes "API routes: GET, POST (3 endpoints)")
unfolding describe basename extname to_lower trim split group_in is_space is_any is_word one_of
    is_inherited find_own starts_with equal includes join found_all test unique_onto show
handlers = refl

migrated :
    describe
      (codes "2024_01_02_x.php")
      (some (codes "<?php\nclass A {}\nSchema::create('users', f);"))
    ≡ some (codes "Migration: create users table")
unfolding describe basename extname to_lower trim split group_in is_space is_any is_word one_of
    is_inherited find_own starts_with ends_with equal includes join found_all test unique_onto
    is_digit
migrated = refl

go_functions :
    describe (codes "a.go") (some (codes "func run() {}\nfunc Main() {}\n")) ≡ some (codes "Main")
unfolding describe basename extname to_lower trim split group_in is_space is_any is_word one_of
    is_inherited find_own starts_with equal includes join found_all test unique_onto
go_functions = refl

nameless : describe (codes "a/.cs") (some (codes "x")) ≡ some []
unfolding describe basename extname to_lower trim split group_in is_space is_any is_word one_of
    is_inherited find_own starts_with equal includes join found_all test unique_onto
nameless = refl

abbrev two_functions : Text
two_functions = codes "def a():\n  pass\ndef b():\n  pass\n"

both_found : names (named "def") (named "def") two_functions ≡ codes "a" ∷ codes "b" ∷ []
unfolding found_all group_in is_space is_word
both_found = refl

describe-none_example :
    (describe (codes "/p/constructor") none ≡ none)
    ↔ (get (basename (codes "/p/constructor")) known ≡ inherited)
describe-none_example = describe-none (codes "/p/constructor") none

-- a name of two lines gives a description of two lines
two_lines : describe (codes "a.vue") (some (codes "name: 'a\nb'")) ≡ some (codes "Vue: a\nb")
unfolding describe basename extname to_lower trim split group_in is_space is_any is_word one_of
    is_inherited find_own starts_with equal includes join found_all test unique_onto
two_lines = refl
