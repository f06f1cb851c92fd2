-- ===== src/Tests.antt =====
-- Runs of the definitions on concrete inputs: anatomy.md and the texts of .wolf/hooks.
mod Sessions
mod Parts
mod Listed
mod Descriptions
mod Summaries
mod Saves
mod Writes
use efipix.Regex.Runs.{Are}
use efipix.Prelude.{
  ℕ, Bool, ◌&&◌, [], ◌∷◌, ◌≡◌, refl, sym, ◌∙◌, true, false, ◌==◌, ==_refl, any, arith, Bool-cases,
  inl, inr,
}
use efipix.Text.Lines.{IsLine}
use efipix.Anatomy.{sorted_sections}
use efipix.Anatomy.EntryLine.{IsPrintable}
use efipix.Anatomy.RoundTrip.{IsAnatomy, parse_anatomy-serialize_anatomy}
use efipix.NodePath.Parts.{Plain, IsPart}
use efipix.Text.{is_empty, equal}
use efipix.Prelude.{not, All, and-eq-true_iff}
use efipix.Text.{Text, codes, is_space}
use efipix.Regex.{is_digit, is_any}
use efipix.Sorting.{units_gt}
use efipix.Anatomy.{Entry, Sections, is_not_tick, Metadata, parse_anatomy, serialize_anatomy}

abbrev pub item : Entry
item = record { file = codes "a.md"; description = codes "Doc (~5 tok)"; tokens = 42 }

abbrev pub bare : Entry
bare = record { file = codes "Makefile"; description = []; tokens = 0 }

abbrev pub sample : Sections
sample = (codes "./", item ∷ bare ∷ []) ∷ (codes "src/", []) ∷ []

abbrev pub meta : Metadata
meta = record {
  last_scanned = codes "2026-06-12T15:33:35.802Z";
  file_count = 2;
  hits = 0;
  misses = 0;
}

parse-sample :
    parse_anatomy (serialize_anatomy units_gt sample meta)
    ≡ (codes "./", bare ∷ item ∷ []) ∷ (codes "src/", []) ∷ []
unfolding serialize_anatomy parse_anatomy is_space is_digit is_any
parse-sample = refl

pub no_newline-IsLine : (s : Text) → any (λ c. c == b'\n') s ≡ false → IsLine s
no_newline-IsLine [] h = tt
no_newline-IsLine (c ∷ s) h = elim (Bool-cases (c == b'\n')) [
  | inl e ↦ absurd (true-ne-false (rw e at h))
  | inr e ↦ (
    λ e'. absurd (true-ne-false (sym (==_refl b'\n') ∙ rw e' at e)),
    no_newline-IsLine s (rw e at h),
  )
]
  where
    true-ne-false : true ≡ false → ⊥
    true-ne-false e = cc

abbrev every : (ℕ → Bool) → Text → Bool
every p [] = true
every p (c ∷ s) = p c && every p s

pub every-Are : (p : ℕ → Bool) (s : Text) → every p s ≡ true → Are p s
every-Are p [] h = tt
every-Are p (c ∷ s) h = let (e, e') = both (p c) (every p s) h in (e, every-Are p s e')
  where
    both : (a b : Bool) → (a && b) ≡ true → (a ≡ true) × (b ≡ true)
    both a b h = ground arith

pub item-IsPrintable : IsPrintable item
unfolding is_any is_space
item-IsPrintable = record {
  file_ne_nil = λ e. cc;
  file_ticks = every-Are is_not_tick item.file refl;
  file_lines = no_newline-IsLine item.file refl;
  description_any = every-Are is_any item.description refl;
  description_edges = λ e. (refl, refl);
}

bare-IsPrintable : IsPrintable bare
unfolding is_any is_space
bare-IsPrintable = record {
  file_ne_nil = λ e. cc;
  file_ticks = every-Are is_not_tick bare.file refl;
  file_lines = no_newline-IsLine bare.file refl;
  description_any = tt;
  description_edges = λ e. absurd (e refl);
}

sample-IsAnatomy : IsAnatomy sample
unfolding is_any is_space
sample-IsAnatomy = record {
  sections = (
    record {
      key_any = every-Are is_any (codes "./") refl;
      key_edges = (refl, refl);
      entries = (item-IsPrintable, (bare-IsPrintable, tt));
    },
    (
      record {
        key_any = every-Are is_any (codes "src/") refl;
        key_edges = (refl, refl);
        entries = tt;
      },
      tt,
    ),
  );
  distinct = (((λ e. cc), tt), (tt, tt));
}

scanned-IsLine : IsLine meta.last_scanned
scanned-IsLine = no_newline-IsLine meta.last_scanned refl

parse_anatomy-serialize_anatomy_example :
    parse_anatomy (serialize_anatomy units_gt sample meta) ≡ sorted_sections units_gt sample
parse_anatomy-serialize_anatomy_example =
    parse_anatomy-serialize_anatomy units_gt sample meta sample-IsAnatomy scanned-IsLine

abbrev is_plain : ℕ → Bool
is_plain c = not (c == b'/') && not (c == b'\\')

every-Plain : (s : Text) → every is_plain s ≡ true → All Plain s
every-Plain [] h = tt
every-Plain (c ∷ s) h =
    let (e, e') = (and-eq-true_iff (is_plain c) (every is_plain s)).0 h in
    (plain c e, every-Plain s e')
  where
    plain : (c : ℕ) → is_plain c ≡ true → Plain c
    plain c e = ((λ f. ground arith), λ f. ground arith)

pub every-IsPart :
    (s : Text)
    → is_empty s ≡ false
    → every is_plain s ≡ true
    → equal s (codes ".") ≡ false
    → equal s (codes "..") ≡ false
    → IsPart s
every-IsPart s n p d u = record { ne_nil = n; plain = every-Plain s p; not_dot = d; not_up = u }
