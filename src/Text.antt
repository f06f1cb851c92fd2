-- ===== src/Text.antt =====
-- JavaScript strings as lists of UTF-16 code units, and the string methods that the hooks of
-- .wolf/hooks call: split, join, trim, startsWith, endsWith, includes, slice, padStart.
pub mod Decimal
pub mod Edges
pub mod Laws
pub mod Lines
use Prim.Native.Char.{code}
use efipix.Prelude.{
  ℕ, ◌+◌, ◌-◌, ◌/◌, ◌%◌, String, Bool, true, false, ◌&&◌, ◌||◌, List, [], ◌∷◌, ◌++◌, ◌==◌, leb, ltb,
  if◌then◌else◌, length, take, drop,
}

abbrev pub Text : Type 0
Text = List ℕ

-- A code point beyond the basic plane is a surrogate pair.
abbrev units : ℕ → Text → Text
units c rest =
    if ltb c 65536
    then c ∷ rest
    else (55296 + (c - 65536) / 1024) ∷ (56320 + (c - 65536) % 1024) ∷ rest

-- A string literal.
abbrev pub codes : String → Text
codes String.[] = []
codes (String.◌∷◌ c s) = units (code c) (codes s)

-- `a === b`
unfoldable pub equal : Text → Text → Bool
equal [] [] = true
equal [] (b ∷ ys) = false
equal (a ∷ xs) [] = false
equal (a ∷ xs) (b ∷ ys) = a == b && equal xs ys

-- `s.startsWith(p)`
unfoldable pub starts_with : Text → Text → Bool
starts_with s [] = true
starts_with [] (b ∷ ys) = false
starts_with (a ∷ xs) (b ∷ ys) = a == b && starts_with xs ys

-- `s.includes(p)`
unfoldable pub includes : Text → Text → Bool
unfolding starts_with
includes [] p = starts_with [] p
includes (a ∷ xs) p = starts_with (a ∷ xs) p || includes xs p

-- `s.endsWith(p)`
unfoldable pub ends_with : Text → Text → Bool
unfolding equal
ends_with s p = leb (length p) (length s) && equal (drop (length s - length p) s) p

-- A line terminator, and what `\s` and `trim` take for white space.
unfoldable pub is_terminator : ℕ → Bool
is_terminator c = c == 10 || c == 13 || c == 8232 || c == 8233

unfoldable pub is_space : ℕ → Bool
unfolding is_terminator
is_space c =
    is_terminator c
    || c == 32
    || c == 9
    || c == 11
    || c == 12
    || c == 160
    || c == 5760
    || (leb 8192 c && leb c 8202)
    || c == 8239
    || c == 8287
    || c == 12288
    || c == 65279

unfoldable pub trim_start : Text → Text
unfolding is_space
trim_start [] = []
trim_start (c ∷ s) = if is_space c then trim_start s else c ∷ s

unfoldable pub trim_end : Text → Text
unfolding is_space
trim_end [] = []
trim_end (c ∷ s) =
    let rest = trim_end s in
    elim rest [ [] ↦ if is_space c then [] else c ∷ [] | x ∷ r ↦ c ∷ x ∷ r ]

-- `s.trim()`
unfoldable pub trim : Text → Text
unfolding trim_start trim_end
trim s = trim_end (trim_start s)

-- the first part of a split in front of the others
abbrev pub onto_head : ℕ → List Text → List Text
onto_head c [] = (c ∷ []) ∷ []
onto_head c (p ∷ ps) = (c ∷ p) ∷ ps

-- `s.split(sep)` for a separator of one unit
unfoldable pub split : Text → ℕ → List Text
split [] sep = [] ∷ []
split (c ∷ s) sep = let rest = split s sep in if c == sep then [] ∷ rest else onto_head c rest

-- `parts.join(sep)`
unfoldable pub join : List Text → Text → Text
join [] sep = []
join (p ∷ []) sep = p
join (p ∷ q ∷ ps) sep = p ++ (sep ++ join (q ∷ ps) sep)

-- `s.slice(0, n)`
abbrev pub prefix : ℕ → Text → Text
prefix n s = take n s

-- `s.toLowerCase()`, as far as its result can be ASCII: the letters, the Kelvin sign and the
-- dotted capital I. Other units are kept.
unfoldable pub to_lower : Text → Text
to_lower [] = []
to_lower (c ∷ s) =
    let rest = to_lower s in
    if leb b'A' c && leb c b'Z'
    then (c + 32) ∷ rest
    else if c == 8490
    then b'k' ∷ rest
    else if c == 304
    then b'i' ∷ 775 ∷ rest
    else c ∷ rest

-- An empty string is falsy.
abbrev pub is_empty : Text → Bool
is_empty [] = true
is_empty (c ∷ s) = false
