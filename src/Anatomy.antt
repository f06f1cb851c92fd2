-- ===== src/Anatomy.antt =====
-- anatomy.md, the list of the project's files: `parseAnatomy` and `serializeAnatomy` of
-- .wolf/hooks/shared.js. A Map is a list of pairs in the order of insertion.
pub mod Tail
pub mod EntryLine
pub mod ReadBack
pub mod Printed
pub mod RoundTrip
use efipix.Prelude.{
  ℕ, Bool, true, false, not, ◌&&◌, Option, none, some, List, [], ◌∷◌, ◌++◌, map, ◌==◌,
  if◌then◌else◌,
}
use efipix.Text.{Text, codes, equal, split, join, trim, is_empty}
use efipix.Text.Decimal.{show, parse_int}
use efipix.Regex.{
  Regex, bol, eol, chr, seq, star, lazy, group, exec, group_of, Match, opt, plus, lit, space,
  is_digit, is_any,
}
use efipix.Sorting.{sort, units_gt}

pub record Entry : Type 0 where
  pub file : Text
  pub description : Text
  pub tokens : ℕ

abbrev pub Sections : Type 0
Sections = List (Text × List Entry)

unfoldable pub has_section : Text → Sections → Bool
unfolding equal
has_section k [] = false
has_section k ((j, es) ∷ m) = if equal j k then true else has_section k m

-- `sections.get(k)`, for a key that is there
unfoldable pub get_section : Text → Sections → List Entry
unfolding equal
get_section k [] = []
get_section k ((j, es) ∷ m) = if equal j k then es else get_section k m

-- `if (!sections.has(k)) sections.set(k, [])`
unfoldable pub ensure_section : Text → Sections → Sections
unfolding has_section
ensure_section k m = if has_section k m then m else m ++ (k, []) ∷ []

-- an in-place change of `sections.get(k)`
unfoldable pub change_section : Text → (List Entry → List Entry) → Sections → Sections
unfolding equal
change_section k f [] = []
change_section k f ((j, es) ∷ m) =
    let rest = change_section k f m in if equal j k then (j, f es) ∷ m else (j, es) ∷ rest

-- /^## (.+)/
abbrev pub section_re : Regex
section_re = seq bol (seq (lit (codes "## ")) (group 1 (plus (chr is_any))))

abbrev pub is_not_tick : ℕ → Bool
is_not_tick c = not (c == b'`')

-- \s*\(~(\d+)\s+tok\)$
abbrev pub tail_re : Regex
tail_re = seq (star space) (
    seq (lit (codes "(~"))
      (seq (group 3 (plus (chr is_digit))) (seq (plus space) (seq (lit (codes "tok)")) eol))))

-- \s+—\s+(.+?)
abbrev pub description_re : Regex
description_re =
    seq (plus space)
      (seq (lit (codes "—")) (seq (plus space) (group 2 (seq (chr is_any) (lazy (chr is_any))))))

-- /^- `([^`]+)`(?:\s+—\s+(.+?))?\s*\(~(\d+)\s+tok\)$/
abbrev pub entry_re : Regex
entry_re = seq bol (
    seq (lit (codes "- `")) (
      seq (group 1 (plus (chr is_not_tick)))
        (seq (lit (codes "`")) (seq (opt description_re) tail_re))))

-- `x || ""`
abbrev pub or_empty : Option Text → Text
or_empty none = []
or_empty (some t) = t

abbrev pub entry_of : Match → Entry
entry_of m = record {
  file = or_empty (group_of 1 m);
  description = or_empty (group_of 2 m);
  tokens = parse_int (or_empty (group_of 3 m));
}

-- The loop's variables: the map and the current section.
pub record Reading : Type 0 where
  pub sections : Sections
  pub current : Text

abbrev pub on_section : Match → Reading → Reading
on_section m s =
    let key = trim (or_empty (group_of 1 m)) in
    record { sections = ensure_section key s.sections; current = key }

abbrev pub on_entry : Option Match → Reading → Reading
on_entry none s = s
on_entry (some m) s = record s {
  sections = change_section s.current (λ es. es ++ entry_of m ∷ []) s.sections;
}

-- the body of the loop over the lines
unfoldable pub read_line : Reading → Text → Reading
read_line s line = elim (exec section_re line) [
  | some m ↦ on_section m s
  | none ↦ if is_empty s.current then s else on_entry (exec entry_re line) s
]

unfoldable pub read_lines : Reading → List Text → Reading
read_lines s [] = s
read_lines s (l ∷ ls) = read_lines (read_line s l) ls

unfoldable pub parse_anatomy : Text → Sections
unfolding read_lines read_line split ensure_section change_section exec group_of trim parse_int
parse_anatomy content =
    (read_lines (record { sections = []; current = [] }) (split content b'\n')).sections

pub record Metadata : Type 0 where
  pub last_scanned : Text
  pub file_count : ℕ
  pub hits : ℕ
  pub misses : ℕ

unfoldable pub header_lines : Metadata → List Text
unfolding show
header_lines m =
    codes "# anatomy.md"
    ∷ []
    ∷ (codes "> Auto-maintained by OpenWolf. Last scanned: " ++ m.last_scanned)
    ∷ (codes "> Files: "
        ++ (show m.file_count
            ++ (codes " tracked | Anatomy hits: "
                ++ (show m.hits ++ (codes " | Misses: " ++ show m.misses)))))
    ∷ []
    ∷ []

unfoldable pub entry_line : Entry → Text
unfolding show
entry_line e =
    let desc = if is_empty e.description then [] else codes " — " ++ e.description in
    codes "- `"
    ++ (e.file ++ (codes "`" ++ (desc ++ (codes " (~" ++ (show e.tokens ++ codes " tok)")))))

unfoldable pub section_lines : Text × List Entry → List Text
unfolding entry_line
section_lines (key, entries) = (codes "## " ++ key) ∷ [] ∷ (map entry_line entries ++ [] ∷ [])

unfoldable pub sections_lines : Sections → List Text
unfolding section_lines
sections_lines [] = []
sections_lines (s ∷ m) = section_lines s ++ sections_lines m

-- `locale_gt a b` stands for `a.localeCompare(b) > 0`, which depends on the host's locale.
module _ (locale_gt : Text → Text → Bool) where
  -- The entries are sorted in place.
  unfoldable pub sort_entries : List Entry → List Entry
  unfolding sort
  sort_entries = sort (λ a b. locale_gt a.file b.file)

  unfoldable pub sorted_sections : Sections → Sections
  unfolding sort units_gt get_section sort_entries
  sorted_sections m =
      map (λ k. (k, sort_entries (get_section k m))) (sort units_gt (map (λ s. s.0) m))

  unfoldable pub serialize_anatomy : Sections → Metadata → Text
  unfolding sorted_sections header_lines sections_lines join
  serialize_anatomy m meta =
      join (header_lines meta ++ sections_lines (sorted_sections m)) (codes "\n")
