-- ===== src/Languages/Capped.antt =====
-- The length of the descriptions of `extractDescription` in .wolf/hooks/shared.js.
use efipix.Prelude.{
  ◌≤◌, Option, some, ◌≡◌, ◌⊎◌, inl, inr, refl, sym, length, subst, some-injective, some-ne-none,
}
use efipix.Text.{Text}
use efipix.Describe.{Start, returns, no_text, goes_on, describe_start, max_desc}
use efipix.Describe.Bounds.{describe_start_bound}
use efipix.Languages.{describe}

Start-cases : (s : Start) → ((t : Text) × (s ≡ returns t)) ⊎ ((s ≡ no_text) ⊎ (s ≡ goes_on))
Start-cases (returns t) = inl (t, refl)
Start-cases no_text = inr (inl refl)
Start-cases goes_on = inr (inr refl)

-- A description has at most 150 units, unless neither the table of known names, nor an empty or
-- unreadable file, nor a heading or a documentation comment gave it: the summaries of the languages,
-- to which the function then goes on, are not all cut.
pub describe_bound :
    (file : Text) (content : Option Text) (d : Text)
    → describe file content ≡ some d
    → (length d ≤ max_desc) ⊎ (describe_start file content ≡ goes_on)
unfolding describe
describe_bound file content d e = elim (Start-cases (describe_start file content)) [
  | inl (t, s) ↦ inl (
      subst (λ x. length x ≤ max_desc) (some-injective _ _ (rw (describe, s) at e))
        (describe_start_bound file content t s))
  | inr (inl s) ↦ absurd (some-ne-none _ (sym (rw (describe, s) at e)))
  | inr (inr s) ↦ inr s
]
