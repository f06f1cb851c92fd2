-- ===== src/Languages/Total.antt =====
-- For which files `extractDescription` in .wolf/hooks/shared.js returns a text.
use efipix.Prelude.{Option, none, some, ◌≡◌, ◌↔◌, refl, inl, inr, Bool-cases, some-ne-none}
use efipix.Text.{Text, trim, is_empty, to_lower}
use efipix.NodePath.{basename, extname}
use efipix.Object.{get, own, inherited, absent, Property}
use efipix.Describe.{capped, of_content, of_known, known, describe_start, describe_start_lem}
use efipix.Describe.Attempts.{first_text, attempts}
use efipix.Languages.{describe, describe_from}

describe_lem :
    (file : Text) (content : Option Text)
    → describe file content ≡ describe_from file content (describe_start file content)
unfolding describe
describe_lem file content = refl

capped-some :
    (file : Text) (content o : Option Text) → describe_from file content (capped o) ≡ none → ⊥
capped-some file content none e = some-ne-none _ e
capped-some file content (some t) e = some-ne-none _ e

of_content-some :
    (file ext : Text) (content : Option Text)
    → describe_from file content (of_content ext content) ≡ none
    → ⊥
of_content-some file ext none e = some-ne-none _ e
of_content-some file ext (some c) e = elim (Bool-cases (is_empty (trim c))) [
  | inl b ↦ some-ne-none _ (rw b at e)
  | inr b ↦ capped-some file (some c) (first_text (attempts ext c)) (rw b at e)
]

of_known-none :
    (file ext : Text) (content : Option Text) (p : Property Text)
    → (describe_from file content (of_known p ext content) ≡ none) ↔ (p ≡ inherited)
of_known-none file ext content (own d) = ((λ e. absurd (some-ne-none _ e)), λ e. absurd (cc))
of_known-none file ext content inherited = ((λ e. refl), λ e. refl)
of_known-none file ext content absent =
    ((λ e. absurd (of_content-some file ext content e)), λ e. absurd (cc))

-- The function returns a text for every file and every content, readable or not, but for the files whose
-- name is no key of its table of known names and is that of a property that the table inherits: there,
-- and only there, it returns the property.
pub describe-none :
    (file : Text) (content : Option Text)
    → (describe file content ≡ none) ↔ (get (basename file) known ≡ inherited)
describe-none file content =
    rw (describe_lem file content, describe_start_lem file content)
      (of_known-none file (to_lower (extname (basename file))) content (get (basename file) known))
