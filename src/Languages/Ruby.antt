-- ===== src/Languages/Ruby.antt =====
-- `extractDescription` in .wolf/hooks/shared.js, for Ruby, Elixir, Lua and Zig.
use efipix.Prelude.{
  ℕ, zero, suc, not, ◌||◌, Option, some, List, [], ◌∷◌, ◌++◌, if◌then◌else◌, take, keep, ◌==◌,
}
use efipix.Text.{Text, codes, equal, includes}
use efipix.World.{or_default}
use efipix.Regex.{Regex, bol, eol, chr, group, opt, plus, test, is_word, is_digit}
use efipix.Regex.Build.{cat, str, either, in_set, word, spaces, spaces1, group_in}
use efipix.Describe.{cap}
use efipix.Describe.Attempts.{first_text, when}
use efipix.Languages.Names.{named, names, commas, is_none, is_public, after_text, followed}

-- /class\s+(\w+)(?:\s*<\s*(\w+(?:::\w+)?))?/
abbrev class_re : Regex
class_re = cat (
    named "class"
    ∷ opt (
        cat (
          spaces
          ∷ str "<"
          ∷ spaces
          ∷ group 2 (cat (word ∷ opt (cat (str "::" ∷ word ∷ [])) ∷ []))
          ∷ []))
    ∷ [])

-- /def\s+(index|show|new|create|edit|update|destroy|\w+)/g
abbrev pub action_re : Regex
action_re = cat (
    str "def"
    ∷ spaces1
    ∷ group 1 (
        either (
          str "index"
          ∷ str "show"
          ∷ str "new"
          ∷ str "create"
          ∷ str "edit"
          ∷ str "update"
          ∷ str "destroy"
          ∷ word
          ∷ []))
    ∷ [])

-- /^\d{14}_/
abbrev times_re : ℕ → Regex → List Regex → List Regex
times_re zero r l = l
times_re (suc n) r l = r ∷ times_re n r l

abbrev stamped_re : Regex
stamped_re = cat (bol ∷ times_re 14 (chr is_digit) (str "_" ∷ []))

-- /create_table\s+:(\w+)/
abbrev table_re : Regex
table_re = cat (str "create_table" ∷ spaces1 ∷ str ":" ∷ group 1 word ∷ [])

-- The texts of the `return`s, in the order of the source.
unfoldable pub ruby : Text → Text → Option Text
unfolding cap
ruby file content =
    let cls = group_in 1 class_re content in
    let class_name = or_default [] cls in
    let parent = or_default [] (group_in 2 class_re content) in
    let actions = keep is_public (names action_re (named "def") content) in
    let methods = keep is_public (names (named "def") (named "def") content) in
    first_text (
      when (includes parent (codes "Controller")) (
        some
          (cap (codes "Controller: " ++ (if is_none actions then class_name else commas actions))))
      ∷ when (equal parent (codes "ApplicationRecord") || equal parent (codes "ActiveRecord::Base"))
          (some (codes "Model: " ++ class_name))
      ∷ when (test stamped_re file) (
          some (
            after_text (codes "Database migration") (codes "Migration: create ")
              (group_in 1 table_re content)))
      ∷ when (not (is_none methods)) (followed cls (codes ": " ++ commas (take 4 methods)))
      ∷ [])

-- /defmodule\s+([\w.]+)/
abbrev dotted : Regex
dotted = plus (chr (λ c. is_word c || c == b'.'))

abbrev module_re : Regex
module_re = cat (str "defmodule" ∷ spaces1 ∷ group 1 dotted ∷ [])

unfoldable pub elixir : Text → Option Text
unfolding cap
elixir content =
    let m = group_in 1 module_re content in
    let fns = names (named "def") (named "def") content in
    first_text (
      when (includes content (codes "Phoenix.LiveView"))
        (some (cap (after_text (codes "Phoenix LiveView") (codes "LiveView: ") m)))
      ∷ when (includes content (codes "Controller"))
          (some (cap (after_text (codes "Phoenix controller") (codes "Phoenix controller: ") m)))
      ∷ when (not (is_none fns)) (followed m (codes ": " ++ commas (take 4 fns)))
      ∷ m
      ∷ [])

-- /function\s+(?:\w+[.:])?(\w+)/g and /(\w+)\s*$/
abbrev pub function_re : Regex
function_re =
    cat (str "function" ∷ spaces1 ∷ opt (cat (word ∷ in_set ".:" ∷ [])) ∷ group 1 word ∷ [])

abbrev last_word_re : Regex
last_word_re = cat (group 1 word ∷ spaces ∷ eol ∷ [])

abbrev first_names : ℕ → List Text → Option Text
first_names k l = when (not (is_none l)) (some (cap (commas (take k l))))

unfoldable pub lua : Text → Option Text
unfolding cap
lua content = first_names 5 (names function_re last_word_re content)

-- /pub\s+fn\s+(\w+)/g
unfoldable pub zig : Text → Option Text
unfolding cap
zig content =
    first_names 5 (names (cat (str "pub" ∷ spaces1 ∷ named "fn" ∷ [])) (named "fn") content)
