-- ===== src/Anatomy/Printed.antt =====
-- The lines that `serializeAnatomy` prints hold no line break, so splitting gives them back.
use efipix.Prelude.{ℕ, List, [], ◌∷◌, ◌++◌, map, ◌≢◌, arith, All, All-append, if◌then◌else◌}
use efipix.Text.{Text, codes, is_empty}
use efipix.Text.Decimal.{show, show-IsDigit, IsDigit}
use efipix.Text.Lines.{IsLine, IsLine-append}
use efipix.Regex.{is_any}
use efipix.Regex.Runs.{Are}
use efipix.Anatomy.{
  Entry, Sections, Metadata, header_lines, section_lines, sections_lines, entry_line,
}
use efipix.Anatomy.EntryLine.{IsPrintable}
use efipix.Anatomy.ReadBack.{IsSection}

pub Are-IsLine : (s : Text) → Are is_any s → IsLine s
unfolding is_any
Are-IsLine [] h = tt
Are-IsLine (c ∷ s) (hc, h) = (ground arith, Are-IsLine s h)

digits-IsLine : (s : Text) → All IsDigit s → IsLine s
digits-IsLine [] h = tt
digits-IsLine (c ∷ s) (hc, h) = (omega arith, digits-IsLine s h)

show-IsLine : (n : ℕ) → IsLine (show n)
show-IsLine n = digits-IsLine (show n) (show-IsDigit n)

description-IsLine :
    (d : Text) → Are is_any d → IsLine (if is_empty d then [] else codes " — " ++ d)
description-IsLine [] h = tt
description-IsLine (x ∷ w) h =
    IsLine-append (codes " — ") (x ∷ w) (omega arith) (Are-IsLine (x ∷ w) h)

entry_line-IsLine : (e : Entry) → IsPrintable e → IsLine (entry_line e)
unfolding entry_line
entry_line-IsLine e p = IsLine-append (codes "- `") _ (omega arith) (
    IsLine-append e.file _ p.file_lines (
      IsLine-append (codes "`") _ (omega arith) (
        IsLine-append _ _ (description-IsLine e.description p.description_any) (
          IsLine-append (codes " (~") _ (omega arith)
            (IsLine-append (show e.tokens) _ (show-IsLine e.tokens) (omega arith))))))

entries-IsLine : (es : List Entry) → All IsPrintable es → All IsLine (map entry_line es)
entries-IsLine [] h = tt
entries-IsLine (e ∷ es) (p, h) = (entry_line-IsLine e p, entries-IsLine es h)

sections-IsLine : (m : Sections) → All IsSection m → All IsLine (sections_lines m)
unfolding sections_lines section_lines
sections-IsLine [] h = tt
sections-IsLine ((k, es) ∷ m) (p, h) = (
  IsLine-append (codes "## ") k (omega arith) (Are-IsLine k p.key_any),
  (
    tt,
    All-append IsLine (map entry_line es ++ [] ∷ []) _
        (All-append IsLine _ ([] ∷ []) (entries-IsLine es p.entries) (tt, tt))
        (sections-IsLine m h),
  ),
)

header-IsLine : (meta : Metadata) → IsLine meta.last_scanned → All IsLine (header_lines meta)
unfolding header_lines
header-IsLine meta h = (
  omega arith,
  (
    tt,
    (
      IsLine-append (codes "> Auto-maintained by OpenWolf. Last scanned: ") _ (omega arith) h,
      (
        IsLine-append (codes "> Files: ") _ (omega arith) (
            IsLine-append (show meta.file_count) _ (show-IsLine meta.file_count) (
              IsLine-append (codes " tracked | Anatomy hits: ") _ (omega arith) (
                IsLine-append (show meta.hits) _ (show-IsLine meta.hits) (
                  IsLine-append (codes " | Misses: ") _ (omega arith) (show-IsLine meta.misses))))),
        (tt, tt),
      ),
    ),
  ),
)

pub lines-IsLine :
    (meta : Metadata) (m : Sections)
    → IsLine meta.last_scanned
    → All IsSection m
    → All IsLine (header_lines meta ++ sections_lines m)
lines-IsLine meta m h p =
    All-append IsLine (header_lines meta) (sections_lines m) (header-IsLine meta h)
      (sections-IsLine m p)

pub lines-ne-nil : (meta : Metadata) (l : List Text) → header_lines meta ++ l ≢ []
unfolding header_lines
lines-ne-nil meta l = cc
