-- ===== src/Globals.antt =====
-- The regular expressions with the flag `g` of the hooks, and the fuel that the search for all their
-- matches takes.
use efipix.Prelude.{
  ℕ, ◌≤◌, Bool, true, ◌&&◌, none, List, [], ◌∷◌, ◌≡◌, refl, All, length, and-eq-true_iff,
}
use efipix.Text.{Text}
use efipix.Regex.{Regex, line_bol, matches_from, match_all}
use efipix.Regex.Build.{cat, str, spaces1}
use efipix.Regex.Ends.{reads_one, match_all-enough}
use efipix.Languages.Php
use efipix.Languages.Web
use efipix.Languages.Python
use efipix.Languages.Managed
use efipix.Languages.Ruby
use efipix.Languages.Markup
use efipix.Languages
use efipix.Edit.Words
use efipix.Edit.Summary
use efipix.Describe.Attempts
use efipix.Hooks.PreWrite
use efipix.Languages.Names.{quote, named}

-- the expressions; those that differ from another one by a keyword alone are left out
abbrev globals : List Regex
globals =
    quote
    ∷ named "def"
    ∷ cat (line_bol ∷ named "func" ∷ [])
    ∷ cat (str "pub" ∷ spaces1 ∷ named "fn" ∷ [])
    ∷ spaces1
    ∷ Php.section_re
    ∷ Php.public_re
    ∷ Php.relation_re
    ∷ Web.export_handler_re
    ∷ Web.endpoint_re
    ∷ Web.procedure_re
    ∷ Web.schema_re
    ∷ Web.export_re
    ∷ Python.field_re
    ∷ Python.route_re
    ∷ Python.handler_re
    ∷ Python.fn_re
    ∷ Managed.annotation_re
    ∷ Managed.mapping_re
    ∷ Managed.method_re
    ∷ Managed.action_re
    ∷ Managed.db_set_re
    ∷ Ruby.action_re
    ∷ Ruby.function_re
    ∷ Markup.rule_re
    ∷ Markup.var_re
    ∷ Markup.create_re
    ∷ Markup.tick
    ∷ Markup.service_re
    ∷ Languages.method_re
    ∷ Words.css_re
    ∷ Words.string_re
    ∷ Words.import_re
    ∷ Summary.call_re
    ∷ Summary.prop_re
    ∷ Summary.if_re
    ∷ Attempts.slashes_re
    ∷ PreWrite.quotes_re b'"'
    ∷ PreWrite.quotes_re b'\''
    ∷ PreWrite.quotes_re b'`'
    ∷ []

abbrev all_read : List Regex → Bool
all_read [] = true
all_read (r ∷ l) = reads_one r && all_read l

all_read-end :
    (n : ℕ) (s : Text)
    → length s ≤ n
    → (l : List Regex) → all_read l ≡ true
    → All (λ r. matches_from n r none s ≡ match_all r s) l
all_read-end n s h [] e = tt
all_read-end n s h (r ∷ l) e =
    let (a, b) = ((and-eq-true_iff (reads_one r) (all_read l)).0 e) in
    (match_all-enough r a n s h, all_read-end n s h l b)

-- For each of the expressions, a text has no more matches than units: the fuel that match_all takes is
-- enough, and more of it finds no other match.
globals-end :
    (n : ℕ) (s : Text) → length s ≤ n → All (λ r. matches_from n r none s ≡ match_all r s) globals
globals-end n s h = all_read-end n s h globals refl
