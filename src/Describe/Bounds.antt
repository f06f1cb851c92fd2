-- ===== src/Describe/Bounds.antt =====
-- The length of the descriptions that .wolf/hooks/shared.js makes.
use efipix.Prelude.{
  ℕ, ◌≤◌, true, Option, none, some, ◌≡◌, refl, sym, ◌∙◌, arith, leb, length, length-append,
  length-take, Bool-cases, inl, inr, subst,
}
use efipix.Text.{Text, codes, trim, is_empty, to_lower, prefix}
use efipix.NodePath.{basename, extname}
use efipix.Object.{get}
use efipix.Object.Laws.{Property-cases}
use efipix.Object.Sizes.{Values, find_Values, get-eq-own}
use efipix.Describe.{
  max_desc, known, cap, capped, returns, no_text, describe_start, describe_start_lem, of_content,
  of_known,
}
use efipix.Describe.Attempts.{first_text, attempts}

leb→le : (a b : ℕ) → leb a b ≡ true → a ≤ b
leb→le a b h = ground arith

length-cap : (s : Text) → length (cap s) ≤ max_desc
unfolding cap
length-cap s = elim (Bool-cases (leb (length s) max_desc)) [
  | inl e ↦ rw (cap, e) (leb→le (length s) max_desc e)
  | inr e ↦
      rw (cap, e) (omega (arith, length-append (prefix 147 s) (codes "..."), length-take 147 s))
]

-- within the bound
abbrev Fits : Text → Type 0
Fits d = leb (length d) max_desc ≡ true

known-Fits : Values Fits known
known-Fits = (
  refl,
  (
    refl,
    (refl, (refl, (refl, (refl, (refl, (refl, (refl, (refl, (refl, (refl, (refl, tt))))))))))),
  ),
)

same : {s t : Text} → returns s ≡ returns t → s ≡ t
same e = cc

capped-returns : (o : Option Text) (d : Text) → capped o ≡ returns d → length d ≤ max_desc
capped-returns none d e = cc
capped-returns (some t) d e = subst (λ s. length s ≤ max_desc) (same e) (length-cap t)

of_content-returns :
    (ext d : Text) (o : Option Text) → of_content ext o ≡ returns d → length d ≤ max_desc
of_content-returns ext d none e = subst (λ s. length s ≤ max_desc) (same e) (omega arith)
of_content-returns ext d (some c) e = elim (Bool-cases (is_empty (trim c))) [
  | inl b ↦ subst (λ s. length s ≤ max_desc) (same (rw b at e)) (omega arith)
  | inr b ↦ capped-returns (first_text (attempts ext c)) d (rw b at e)
]

of_known-returns :
    (k ext d : Text) (o : Option Text)
    → of_known (get k known) ext o ≡ returns d
    → length d ≤ max_desc
of_known-returns k ext d o e = elim (Property-cases (get k known)) [
  | inl (t, g) ↦
      subst (λ s. length s ≤ max_desc) (same (rw g at e))
        (leb→le (length t) max_desc
          (find_Values Fits k known t known-Fits (get-eq-own k known t g)))
  | inr (inl g) ↦ absurd (not_text (rw g at e))
  | inr (inr g) ↦ of_content-returns ext d o (rw g at e)
]
  where
    not_text : {t : Text} → no_text ≡ returns t → ⊥
    not_text e = cc

pub describe_start_bound :
    (file : Text) (content : Option Text) (d : Text)
    → describe_start file content ≡ returns d
    → length d ≤ max_desc
describe_start_bound file content d e =
    of_known-returns (basename file) (to_lower (extname (basename file))) d content
      (sym (describe_start_lem file content) ∙ e)
