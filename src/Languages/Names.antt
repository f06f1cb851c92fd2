-- ===== src/Languages/Names.antt =====
-- What the summaries of single languages in `extractDescription` (.wolf/hooks/shared.js) share: the
-- names that an expression finds, and the way that they are listed.
use efipix.Prelude.{
  ℕ, ◌-◌, String, Bool, true, false, not, Option, none, some, List, [], ◌∷◌, ◌++◌, map, leb,
  if◌then◌else◌, length, take,
}
use efipix.Text.{Text, codes, join, starts_with}
use efipix.Text.Decimal.{show}
use efipix.Describe.{cap}
use efipix.Regex.{Regex, group, opt}
use efipix.Regex.Build.{cat, str, either, in_set, word, spaces1, group_in, found_all, somes}

-- /w\s+(\w+)/ for a keyword `w`
abbrev pub named : String → Regex
named w = cat (str w ∷ spaces1 ∷ group 1 word ∷ [])

-- /(?:w\s+)?/
abbrev pub maybe : Regex → Regex
maybe r = opt (cat (r ∷ spaces1 ∷ []))

abbrev pub quote : Regex
quote = in_set "'\""

-- /\.(get|post|put|patch|delete)/ without the point
abbrev pub verbs : Regex
verbs = group 1 (either (str "get" ∷ str "post" ∷ str "put" ∷ str "patch" ∷ str "delete" ∷ []))

-- `(s.match(r) || []).map((m) => m.match(q)?.[1]).filter(Boolean)`: the group is never empty
abbrev pub names : Regex → Regex → Text → List Text
names r q s = somes (map (group_in 1 q) (found_all r s))

-- `(s.match(r) || []).length`
abbrev pub count : Regex → Text → ℕ
count r s = length (found_all r s)

abbrev pub commas : List Text → Text
commas l = join l (codes ", ")

abbrev pub is_none : List Text → Bool
is_none [] = true
is_none (x ∷ l) = false

-- the first `k` names, and how many there are behind them
abbrev pub with_more : ℕ → List Text → Text
with_more k l = commas (take k l) ++ (codes " + " ++ (show (length l - k) ++ codes " more"))

unfoldable pub shown : ℕ → List Text → Text
shown k l = if leb (length l) k then commas (take k l) else with_more k l

-- a part of a summary, where there is something to say
abbrev pub part : Bool → Text → List Text
part b t = if b then t ∷ [] else []

abbrev pub part_of : Text → Option Text → List Text
part_of t none = []
part_of t (some x) = (t ++ x) ∷ []

-- `n && !n.startsWith("_")`
abbrev pub is_public : Text → Bool
is_public n = not (starts_with n (codes "_"))

-- `m ? p + m[1] : t`
abbrev pub after_text : Text → Text → Option Text → Text
after_text t p none = t
after_text t p (some x) = p ++ x

-- the text of a `return` under `if (m)`, with the match behind a label
abbrev pub labelled : Text → Option Text → Option Text
labelled p none = none
labelled p (some x) = some (p ++ x)

-- the match in front of a text, under `if (m)`
abbrev pub followed : Option Text → Text → Option Text
followed none t = none
followed (some x) t = some (cap (x ++ t))
