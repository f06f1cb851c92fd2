-- ===== src/Anatomy/ReadBack.antt =====
-- What `parseAnatomy` does with the lines of a printed anatomy.
use efipix.Prelude.{
  true, false, Option, none, some, List, [], ◌∷◌, ◌++◌, map, ◌≡◌, ◌≢◌, refl, ap, ◌∙◌, arith, All,
  append_assoc, append-nil,
}
use efipix.Text.{Text, codes, trim, is_empty}
use efipix.Text.Edges.{HasEdges, trim-HasEdges}
use efipix.Text.Laws.{equal_refl}
use efipix.Regex.{Regex, Match, exec, group_of, find_group, is_any, chr, run, seq, plus, group, lit}
use efipix.Regex.Runs.{at, last, Are, exec-eq-some}
use efipix.Regex.Steps.{run-seq, run-lit, run-group_plus}
use efipix.Anatomy.{
  Entry, Sections, Reading, Metadata, has_section, ensure_section, change_section, section_re,
  entry_re, or_empty, on_section, on_entry, read_line, read_lines, header_lines, section_lines,
  entry_line,
}
use efipix.Anatomy.EntryLine.{
  IsPrintable, exec-entry_line, exec-section_re, exec-section_re-entry_line,
}

-- A section that can be printed: its key is one trimmed line, and its entries are printable.
pub record IsSection (s : Text × List Entry) : Type 0 where
  pub key_any : Are is_any s.0
  pub key_edges : HasEdges s.0
  pub entries : All IsPrintable s.1

abbrev pub reading : Sections → Text → Reading
reading m k = record { sections = m; current = k }

pub read_lines-append :
    (a b : List Text) (s : Reading) → read_lines s (a ++ b) ≡ read_lines (read_lines s a) b
unfolding read_lines
read_lines-append [] b s = refl
read_lines-append (l ∷ a) b s = read_lines-append a b (read_line s l)

read_lines-cons :
    (s : Reading) (l : Text) (ls : List Text)
    → read_lines s (l ∷ ls) ≡ read_lines (read_line s l) ls
unfolding read_lines
read_lines-cons s l ls = refl

read_lines-nil : (s : Reading) → read_lines s [] ≡ s
unfolding read_lines
read_lines-nil s = refl

HasEdges-ne-nil : (k : Text) → HasEdges k → k ≢ []
HasEdges-ne-nil [] h = elim h [ ]
HasEdges-ne-nil (c ∷ k) h = cc

-- One line, by what the expressions find in it.
module _ (s : Reading) (line : Text) where
  pub read_line-title_found :
      (m : Match) → exec section_re line ≡ some m → read_line s line ≡ on_section m s
  unfolding read_line
  read_line-title_found m h = rw (read_line, h)

  pub read_line-before :
      exec section_re line ≡ none → is_empty s.current ≡ true → read_line s line ≡ s
  unfolding read_line
  read_line-before h e = rw (read_line, h, e)

  pub read_line-within :
      (o : Option Match)
      → exec section_re line ≡ none
      → is_empty s.current ≡ false
      → exec entry_re line ≡ o
      → read_line s line ≡ on_entry o s
  unfolding read_line
  read_line-within o h e h' = rw (read_line, h, e, h')

abbrev title_re : Regex
title_re = seq (lit (codes "## ")) (group 1 (plus (chr is_any)))

run-title :
    (k : Text)
    → k ≢ []
    → Are is_any k
    → run title_re (at none (codes "## " ++ (k ++ [])) []) some
      ≡ some (at (last (some b' ') k) [] ((1, k) ∷ []))
run-title k ne h =
    run-seq _ _ _ _
      (run-lit (codes "## ") (k ++ []) none [] _ ∙ run-group_plus is_any [] 1 k [] _ _ ne h tt refl)

exec-title :
    (k : Text)
    → k ≢ []
    → Are is_any k
    → (m : Match) × (exec section_re (codes "## " ++ k) ≡ some m) × (m.groups ≡ (1, k) ∷ [])
exec-title k ne h =
    exec-eq-some title_re (codes "## " ++ k) _ _ (cc) (rw append-nil at (run-title k ne h))

key_of :
    (m : Match) (k : Text)
    → HasEdges k
    → m.groups ≡ (1, k) ∷ []
    → trim (or_empty (group_of 1 m)) ≡ k
unfolding group_of
key_of m k e h = ap (λ g. trim (or_empty (find_group 1 g))) h ∙ trim-HasEdges k e

module _ (m : Sections) (k : Text) (new : has_section k m ≡ false) where
  ensure_section-new : ensure_section k m ≡ m ++ (k, []) ∷ []
  unfolding ensure_section
  ensure_section-new = rw new

  read_line-title :
      (c : Text)
      → HasEdges k
      → Are is_any k
      → read_line (reading m c) (codes "## " ++ k) ≡ reading (m ++ (k, []) ∷ []) k
  read_line-title c e a =
      let (mt, found, groups) = exec-title k (HasEdges-ne-nil k e) a in
      read_line-title_found (reading m c) (codes "## " ++ k) mt found
      ∙ rw (key_of mt k e groups, ensure_section-new)

change_section-last :
    (m : Sections) (k : Text) (f : List Entry → List Entry) (es : List Entry)
    → has_section k m ≡ false
    → change_section k f (m ++ (k, es) ∷ []) ≡ m ++ (k, f es) ∷ []
unfolding change_section has_section
change_section-last [] k f es h = rw equal_refl
change_section-last ((j, js) ∷ m) k f es h = ground (arith, change_section-last m k f es)

no_title : exec section_re [] ≡ none
unfolding exec
no_title = refl

no_entry : exec entry_re [] ≡ none
unfolding exec
no_entry = refl

module _ (m : Sections) (k : Text) (new : has_section k m ≡ false) (ne : is_empty k ≡ false) where
  read_line-blank :
      (es : List Entry)
      → read_line (reading (m ++ (k, es) ∷ []) k) [] ≡ reading (m ++ (k, es) ∷ []) k
  read_line-blank es = read_line-within (reading _ k) [] none no_title ne no_entry

  read_line-entry :
      (es : List Entry) (e : Entry)
      → IsPrintable e
      → read_line (reading (m ++ (k, es) ∷ []) k) (entry_line e)
        ≡ reading (m ++ (k, es ++ e ∷ []) ∷ []) k
  read_line-entry es e p =
      let (mt, found, holds) = exec-entry_line e p in
      read_line-within (reading _ k) (entry_line e) (some mt) (exec-section_re-entry_line e) ne
        found
      ∙ rw (change_section-last m k _ es new, holds)

  read_lines-entries :
      (es fs : List Entry)
      → All IsPrintable fs
      → read_lines (reading (m ++ (k, es) ∷ []) k) (map entry_line fs)
        ≡ reading (m ++ (k, es ++ fs) ∷ []) k
  unfolding read_lines
  read_lines-entries es [] h = rw append-nil
  read_lines-entries es (e ∷ fs) (p, h) =
      ap (λ s. read_lines s (map entry_line fs)) (read_line-entry es e p)
      ∙ read_lines-entries (es ++ e ∷ []) fs h
      ∙ rw append_assoc

is_empty-HasEdges : (k : Text) → HasEdges k → is_empty k ≡ false
is_empty-HasEdges [] h = elim h [ ]
is_empty-HasEdges (c ∷ k) h = refl

-- A printed section is read back behind the sections that were read before.
pub read_lines-section :
    (m : Sections) (c k : Text) (es : List Entry)
    → has_section k m ≡ false
    → IsSection (k, es)
    → read_lines (reading m c) (section_lines (k, es)) ≡ reading (m ++ (k, es) ∷ []) k
unfolding section_lines
read_lines-section m c k es new p =
    let ne = is_empty-HasEdges k p.key_edges in
    let tail = map entry_line es ++ [] ∷ [] in
    read_lines-cons _ _ ([] ∷ tail)
    ∙ ap (λ s. read_lines s ([] ∷ tail)) (read_line-title m k new c p.key_edges p.key_any)
    ∙ read_lines-cons _ _ tail
    ∙ ap (λ s. read_lines s tail) (read_line-blank m k new ne [])
    ∙ read_lines-append (map entry_line es) ([] ∷ []) _
    ∙ ap (λ s. read_lines s ([] ∷ [])) (read_lines-entries m k new ne [] es p.entries)
    ∙ read_lines-cons _ _ []
    ∙ ap (λ s. read_lines s []) (read_line-blank m k new ne es)
    ∙ read_lines-nil _

no_first : exec section_re (codes "# anatomy.md") ≡ none
unfolding exec
no_first = refl

read_lines-skipped :
    (ls : List Text)
    → All (λ l. exec section_re l ≡ none) ls
    → read_lines (reading [] []) ls ≡ reading [] []
unfolding read_lines
read_lines-skipped [] h = refl
read_lines-skipped (l ∷ ls) (hl, h) =
    ap (λ s. read_lines s ls) (read_line-before (reading [] []) l hl refl) ∙ read_lines-skipped ls h

-- The lines of the header are passed over.
pub read_lines-header :
    (meta : Metadata) → read_lines (reading [] []) (header_lines meta) ≡ reading [] []
unfolding header_lines
read_lines-header meta = read_lines-skipped _ (
  no_first,
  (no_title, (exec-section_re b'>' _ refl, (exec-section_re b'>' _ refl, (no_title, tt)))),
)
