-- ===== src/Text/Lines.antt =====
-- Text and its lines: `split` undoes `join`.
use efipix.Prelude.{List, [], ◌∷◌, ◌++◌, ◌≡◌, ◌≢◌, refl, ap, ◌∙◌, arith, All, All-append}
use efipix.Text.{Text, codes, split, join}

-- one line
abbrev pub IsLine : Text → Type 0
IsLine = All (λ c. c ≢ b'\n')

pub IsLine-append : (s t : Text) → IsLine s → IsLine t → IsLine (s ++ t)
IsLine-append s t = All-append (λ c. c ≢ b'\n') s t

split_line : (l : Text) → IsLine l → split l b'\n' ≡ l ∷ []
unfolding split
split_line [] h = refl
split_line (c ∷ l) (hc, h) = ground (arith, split_line l h)

split_line-append : (l s : Text) → IsLine l → split (l ++ (b'\n' ∷ s)) b'\n' ≡ l ∷ split s b'\n'
unfolding split
split_line-append [] s h = refl
split_line-append (c ∷ l) s (hc, h) = ground (arith, split_line-append l s h)

-- The lines of a text that was joined from lines are those lines.
pub split-join :
    (ls : List Text) → ls ≢ [] → All IsLine ls → split (join ls (codes "\n")) b'\n' ≡ ls
unfolding join
split-join [] ne h = absurd (ne refl)
split-join (l ∷ []) ne (hl, h) = split_line l hl
split-join (l ∷ l' ∷ ls) ne (hl, h) =
    split_line-append l (join (l' ∷ ls) (codes "\n")) hl
    ∙ ap (λ t. l ∷ t) (split-join (l' ∷ ls) (cc) h)
