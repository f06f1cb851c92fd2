-- ===== src/Regex.antt =====
-- The regular expressions of the hooks, as a backtracking matcher in continuation-passing style
-- (ECMAScript's own definition): greedy and lazy repetition, alternatives in order, groups that
-- capture, anchors with and without the flag `m`. The flags `s` and `i` are in the classes.
-- No expression of the hooks has a capturing group below a repetition, so captures are not reset.
pub mod Build
pub mod Paths
pub mod Reads
pub mod Runs
pub mod Steps
pub mod Found
pub mod Ends
use efipix.Prelude.{
  ℕ, zero, suc, ◌+◌, ◌-◌, Bool, true, false, not, ◌&&◌, ◌||◌, Option, none, some, List, [], ◌∷◌,
  ◌++◌, ◌==◌, leb, ltb, if◌then◌else◌, length, take,
}
use efipix.Text.{Text, is_terminator, is_space}

pub data Regex : Type 0 where
  eps : Regex
  -- `^`, `$`, the same two with the flag `m`, and `\b`
  bol eol line_bol line_eol edge : Regex
  chr : (ℕ → Bool) → Regex
  seq alt : Regex → Regex → Regex
  -- `r*` and `r*?`
  star lazy : Regex → Regex
  group : ℕ → Regex → Regex

-- The unit before the place reached, the text behind it, and the captures so far.
pub record At : Type 0 where
  pub prev : Option ℕ
  pub rest : Text
  pub caps : List (ℕ × Text)

abbrev pub Cont : Type 0
Cont = At → Option At

unfoldable pub is_word : ℕ → Bool
is_word c =
    (leb b'a' c && leb c b'z')
    || (leb b'A' c && leb c b'Z')
    || (leb b'0' c && leb c b'9')
    || c == b'_'

abbrev word_at : Option ℕ → Bool
word_at none = false
word_at (some c) = is_word c

abbrev next : Text → Option ℕ
next [] = none
next (c ∷ r) = some c

abbrev xor : Bool → Bool → Bool
xor true b = not b
xor false b = b

abbrev at_start : Option ℕ → Bool
at_start none = true
at_start (some c) = false

abbrev at_line : Option ℕ → Bool
at_line none = true
at_line (some c) = is_terminator c

-- the tests of the anchors
unfoldable pub at_bol : At → Bool
at_bol s = at_start s.prev

unfoldable pub at_eol : At → Bool
at_eol s = at_start (next s.rest)

unfoldable pub at_line_bol : At → Bool
unfolding is_terminator
at_line_bol s = at_line s.prev

unfoldable pub at_line_eol : At → Bool
unfolding is_terminator
at_line_eol s = at_line (next s.rest)

unfoldable pub at_edge : At → Bool
unfolding is_word
at_edge s = xor (word_at s.prev) (word_at (next s.rest))

abbrev pub only_if : Bool → At → Cont → Option At
only_if b s k = elim b [ true ↦ k s | false ↦ none ]

abbrev pub step : ℕ → Text → At → At
step c r s = record s { prev = some c; rest = r }

abbrev pub eat : (ℕ → Bool) → Text → At → Cont → Option At
eat p [] s k = none
eat p (c ∷ r) s k = elim (p c) [ true ↦ k (step c r s) | false ↦ none ]

-- what stands between two places of one text
unfoldable pub between : Text → Text → Text
between from to' = take (length from - length to') from

unfoldable pub capture : ℕ → At → At → At
unfolding between
capture i s s' = record s' { caps = (i, between s.rest s'.rest) ∷ s'.caps }

-- An iteration that reads nothing is refused, so the length of the text is fuel enough.
unfoldable pub star_loop : (At → Cont → Option At) → ℕ → At → Cont → Option At
star_loop m zero s k = k s
star_loop m (suc n) s k =
    elim (m s λ s'. elim (ltb (length s'.rest) (length s.rest)) [
      | true ↦ star_loop m n s' k
      | false ↦ none
    ]) [ some t ↦ some t | none ↦ k s ]

unfoldable pub lazy_loop : (At → Cont → Option At) → ℕ → At → Cont → Option At
lazy_loop m zero s k = k s
lazy_loop m (suc n) s k = elim (k s) [
  | some t ↦ some t
  | none ↦
      m s λ s'. elim (ltb (length s'.rest) (length s.rest)) [
        | true ↦ lazy_loop m n s' k
        | false ↦ none
      ]
]

unfoldable pub run : Regex → At → Cont → Option At
unfolding star_loop lazy_loop capture at_bol at_eol at_line_bol at_line_eol at_edge
run eps s k = k s
run bol s k = only_if (at_bol s) s k
run eol s k = only_if (at_eol s) s k
run line_bol s k = only_if (at_line_bol s) s k
run line_eol s k = only_if (at_line_eol s) s k
run edge s k = only_if (at_edge s) s k
run (chr p) s k = eat p s.rest s k
run (seq a b) s k = run a s (λ s'. run b s' k)
run (alt a b) s k = elim (run a s k) [ some t ↦ some t | none ↦ run b s k ]
run (star a) s k = star_loop (run a) (length s.rest) s k
run (lazy a) s k = lazy_loop (run a) (length s.rest) s k
run (group i a) s k = run a s (λ s'. k (capture i s s'))

-- A match: the text before it, the text that it takes, the text behind it, and its groups.
pub record Match : Type 0 where
  pub before : Text
  pub found : Text
  pub after : Text
  pub last : Option ℕ
  pub groups : List (ℕ × Text)

-- The first match at this place or behind it.
unfoldable pub exec_from : Regex → Option ℕ → Text → Option Match
unfolding run between
exec_from r p [] = elim (run r (record { prev = p; rest = []; caps = [] }) some) [
  | none ↦ none
  | some t ↦ some (record { before = []; found = []; after = []; last = p; groups = t.caps })
]
exec_from r p (c ∷ cs) = elim (run r (record { prev = p; rest = c ∷ cs; caps = [] }) some) [
  | some t ↦ some (record {
    before = [];
    found = between (c ∷ cs) t.rest;
    after = t.rest;
    last = t.prev;
    groups = t.caps;
  })
  | none ↦ elim (exec_from r (some c) cs) [
    | none ↦ none
    | some m ↦ some (record m { before = c ∷ m.before })
  ]
]

-- `s.match(r)` with no flag `g`
unfoldable pub exec : Regex → Text → Option Match
unfolding exec_from
exec r s = exec_from r none s

abbrev pub is_some {ℓ} : {A : Type ℓ} → Option A → Bool
is_some none = false
is_some (some a) = true

-- `r.test(s)`
unfoldable pub test : Regex → Text → Bool
unfolding exec
test r s = is_some (exec r s)

-- The matches of an expression with the flag `g`. The expressions that the hooks use so match no
-- empty text, so the length of the text is fuel enough.
unfoldable pub matches_from : ℕ → Regex → Option ℕ → Text → List Match
unfolding exec_from
matches_from zero r p s = []
matches_from (suc n) r p s = elim (exec_from r p s) [
  | none ↦ []
  | some m ↦ m ∷ matches_from n r m.last m.after
]

unfoldable pub match_all : Regex → Text → List Match
unfolding matches_from
match_all r s = matches_from (length s) r none s

abbrev pub find_group : ℕ → List (ℕ × Text) → Option Text
find_group i [] = none
find_group i ((j, t) ∷ l) = if i == j then some t else find_group i l

-- `m[i]`, where `none` is JavaScript's `undefined`
unfoldable pub group_of : ℕ → Match → Option Text
group_of i m = find_group i m.groups

-- Common expressions.
abbrev pub opt : Regex → Regex
opt r = alt r eps

abbrev pub plus : Regex → Regex
plus r = seq r (star r)

abbrev pub lit : Text → Regex
lit [] = eps
lit (c ∷ []) = chr (λ x. x == c)
lit (c ∷ d ∷ s) = seq (chr (λ x. x == c)) (lit (d ∷ s))

abbrev pub space : Regex
space = chr is_space

unfoldable pub is_digit : ℕ → Bool
is_digit c = leb b'0' c && leb c b'9'

-- `.`
unfoldable pub is_any : ℕ → Bool
unfolding is_terminator
is_any c = not (is_terminator c)
