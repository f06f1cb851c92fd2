-- ===== src/Regex/Build.antt =====
-- Notation for expressions, and the uses of matches that the hooks make.
use efipix.Prelude.{
  ◌&&◌, ◌-◌, leb, ℕ, Bool, false, not, ◌||◌, String, Option, none, some, List, [], ◌∷◌, ◌++◌, map,
  ◌==◌, if◌then◌else◌, length, drop,
}
use efipix.Text.{Text, codes, starts_with}
use efipix.Tokens.{one_of}
use efipix.Regex.{
  Match, Regex, eps, chr, seq, alt, star, lazy, exec, match_all, group_of, lit, plus, space,
  is_word, is_any,
}

abbrev pub cat : List Regex → Regex
cat [] = eps
cat (r ∷ []) = r
cat (r ∷ s ∷ rs) = seq r (cat (s ∷ rs))

abbrev pub str : String → Regex
str s = lit (codes s)

abbrev pub either : List Regex → Regex
either [] = eps
either (r ∷ []) = r
either (r ∷ s ∷ rs) = alt r (either (s ∷ rs))

abbrev pub has_unit : ℕ → Text → Bool
has_unit c [] = false
has_unit c (d ∷ s) = c == d || has_unit c s

-- `[…]` and `[^…]`
abbrev pub in_set : String → Regex
in_set s = chr (λ c. has_unit c (codes s))

abbrev pub not_in : String → Regex
not_in s = chr (λ c. not (has_unit c (codes s)))

-- `\w+`, `\s*`, `\s+`, `.+`, `.*`
abbrev pub word : Regex
word = plus (chr is_word)

abbrev pub spaces : Regex
spaces = star space

abbrev pub spaces1 : Regex
spaces1 = plus space

abbrev pub anything1 : Regex
anything1 = plus (chr is_any)

abbrev pub anything : Regex
anything = star (chr is_any)

-- a lazy `r+?`
abbrev pub plus_lazy : Regex → Regex
plus_lazy r = seq r (lazy r)

-- `s.match(r)?.[i]`
unfoldable pub group_in : ℕ → Regex → Text → Option Text
unfolding exec group_of
group_in i r s = elim (exec r s) [ none ↦ none | some m ↦ group_of i m ]

-- `s.match(r) || []`, for an expression with the flag `g`
unfoldable pub found_all : Regex → Text → List Text
unfolding match_all
found_all r s = map (λ m. m.found) (match_all r s)

-- the values that are not undefined, which `filter(Boolean)` keeps of texts that match `\w+`
abbrev pub somes : List (Option Text) → List Text
somes [] = []
somes (none ∷ l) = somes l
somes (some t ∷ l) = t ∷ somes l

-- `s.replace(a, b)` for texts: the first occurrence
unfoldable pub replace_first : Text → Text → Text → Text
unfolding starts_with
replace_first [] a b = if starts_with [] a then b else []
replace_first (c ∷ s) a b =
    let rest = replace_first s a b in
    if starts_with (c ∷ s) a then b ++ drop (length a) (c ∷ s) else c ∷ rest

-- `new Set(xs)` as a list, in the order of first occurrence
unfoldable pub unique_onto : List Text → List Text → List Text
unique_onto seen [] = []
unique_onto seen (x ∷ xs) =
    let fresh = x ∷ unique_onto (x ∷ seen) xs in
    let rest = unique_onto seen xs in if one_of seen x then rest else fresh

abbrev pub unique : List Text → List Text
unique xs = unique_onto [] xs

-- `s.replace(r, "")` for an expression with no flag `g`
abbrev pub without : Regex → Text → Text
without r s = elim (exec r s) [ none ↦ s | some m ↦ m.before ++ m.after ]

abbrev spliced : Text → List Match → Text → Text
spliced t [] s = s
spliced t (m ∷ ms) s = m.before ++ (t ++ spliced t ms m.after)

-- `s.replace(r, t)` for an expression with the flag `g`, where `t` has no `$`
unfoldable pub replace_all : Regex → Text → Text → Text
unfolding match_all
replace_all r t s = spliced t (match_all r s) s

-- The flag `i`, for letters of ASCII: no other unit has a letter of ASCII as its upper case.
abbrev pub upper : ℕ → ℕ
upper c = if leb b'a' c && leb c b'z' then c - 32 else c

abbrev same_letter : ℕ → ℕ → Bool
same_letter a b = upper a == upper b

abbrev pub ignoring_case : Text → List Regex
ignoring_case [] = []
ignoring_case (c ∷ s) = chr (same_letter c) ∷ ignoring_case s
