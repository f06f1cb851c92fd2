-- ===== src/Anatomy/RoundTrip.antt =====
-- `parseAnatomy` after `serializeAnatomy`.
use efipix.Prelude.{
  Bool, false, List, [], ◌∷◌, ◌++◌, map, ◌≡◌, ◌≢◌, refl, sym, ap, ◌∙◌, arith, All, append_assoc,
  append-nil, Bool-cases, inl, inr,
}
use efipix.Text.{Text, codes, equal, split, join}
use efipix.Text.Laws.{equal_iff, equal_refl}
use efipix.Text.Lines.{IsLine, split-join}
use efipix.Sorting.{sort, units_gt}
use efipix.Sorting.Laws.{Distinct, All-sort, Distinct-sort}
use efipix.Anatomy.{
  Entry, Sections, Metadata, has_section, get_section, read_lines, parse_anatomy, header_lines,
  section_lines, sections_lines, sort_entries, sorted_sections, serialize_anatomy,
}
use efipix.Anatomy.EntryLine.{IsPrintable}
use efipix.Anatomy.Printed.{lines-IsLine, lines-ne-nil}
use efipix.Anatomy.ReadBack.{
  IsSection, reading, read_lines-append, read_lines-section, read_lines-header,
}

parse_anatomy_lem :
    (content : Text)
    → parse_anatomy content ≡ (read_lines (reading [] []) (split content b'\n')).sections
unfolding parse_anatomy
parse_anatomy_lem content = refl

abbrev pub keys : Sections → List Text
keys m = map (λ s. s.0) m

-- A map that can be printed.
pub record IsAnatomy (m : Sections) : Type 0 where
  pub sections : All IsSection m
  pub distinct : Distinct (keys m)

has_section-Fresh : (k : Text) (m : Sections) → All (λ j. j ≢ k) (keys m) → has_section k m ≡ false
unfolding has_section
has_section-Fresh k [] h = refl
has_section-Fresh k ((j, es) ∷ m) (ne, h) = ground (arith, equal_iff j k, has_section-Fresh k m h)

has_section-concat :
    (j k : Text) (es : List Entry) (m : Sections)
    → has_section j m ≡ false
    → k ≢ j
    → has_section j (m ++ (k, es) ∷ []) ≡ false
unfolding has_section
has_section-concat j k es [] h ne = ground (arith, equal_iff k j)
has_section-concat j k es ((i, fs) ∷ m) h ne = ground (arith, has_section-concat j k es m)

abbrev Absent : Sections → Sections → Type 0
Absent m l = All (λ s. has_section s.0 m ≡ false) l

Absent-concat :
    (m l : Sections) (k : Text) (es : List Entry)
    → Absent m l
    → All (λ j. j ≢ k) (keys l)
    → Absent (m ++ (k, es) ∷ []) l
Absent-concat m [] k es h d = tt
Absent-concat m ((j, js) ∷ l) k es (hj, h) (dj, d) =
    (has_section-concat j k es m hj (λ e. dj (sym e)), Absent-concat m l k es h d)

read_lines-sections :
    (m l : Sections) (c : Text)
    → Absent m l
    → IsAnatomy l
    → (c' : Text) × (read_lines (reading m c) (sections_lines l) ≡ reading (m ++ l) c')
unfolding sections_lines
read_lines-sections m [] c a p = (c, rw append-nil (unfold read_lines in refl))
read_lines-sections m ((k, es) ∷ l) c (hk, a) p =
    let (d, ds) = p.distinct in
    let (q, qs) = p.sections in
    let (c', e) =
      read_lines-sections (m ++ (k, es) ∷ []) l k (Absent-concat m l k es a d)
        (record { sections = qs; distinct = ds }) in
    (
      c',
      read_lines-append (section_lines (k, es)) (sections_lines l) (reading m c)
          ∙ ap (λ s. read_lines s (sections_lines l)) (read_lines-section m c k es hk q)
          ∙ e
          ∙ ap (λ x. reading x c') (append_assoc m ((k, es) ∷ []) l),
    )

Absent-nil : (l : Sections) → Absent [] l
unfolding has_section
Absent-nil [] = tt
Absent-nil (s ∷ l) = (refl, Absent-nil l)

-- A printed anatomy, section by section as it stands, is read back.
parse_anatomy-lines :
    (meta : Metadata) (l : Sections)
    → IsLine meta.last_scanned
    → IsAnatomy l
    → parse_anatomy (join (header_lines meta ++ sections_lines l) (codes "\n")) ≡ l
parse_anatomy-lines meta l h p =
    let (c', e) = read_lines-sections [] l [] (Absent-nil l) p in
    parse_anatomy_lem _
    ∙ ap (λ ls. (read_lines (reading [] []) ls).sections)
        (split-join _ (lines-ne-nil meta (sections_lines l)) (lines-IsLine meta l h p.sections))
    ∙ ap (λ s. s.sections)
        (read_lines-append (header_lines meta) (sections_lines l) (reading [] [])
          ∙ ap (λ s. read_lines s (sections_lines l)) (read_lines-header meta)
          ∙ e)

-- The sorted map can be printed if the map can.
module _ (gt : Text → Text → Bool) where
  serialize_anatomy_lem :
      (m : Sections) (meta : Metadata)
      → serialize_anatomy gt m meta
        ≡ join (header_lines meta ++ sections_lines (sorted_sections gt m)) (codes "\n")
  unfolding serialize_anatomy
  serialize_anatomy_lem m meta = refl

  entries_sorted : (es : List Entry) → All IsPrintable es → All IsPrintable (sort_entries gt es)
  unfolding sort_entries
  entries_sorted es = All-sort _ IsPrintable es

  abbrev Sorts : Sections → Text → Type 0
  Sorts m k = IsSection (k, sort_entries gt (get_section k m))

  Sorts-cons :
      (j : Text) (es : List Entry) (m : Sections) (ks : List Text)
      → All (λ k. k ≢ j) ks
      → All (Sorts m) ks
      → All (Sorts ((j, es) ∷ m)) ks
  unfolding get_section
  Sorts-cons j es m [] d h = tt
  Sorts-cons j es m (k ∷ ks) (dk, d) (hk, h) = elim (Bool-cases (equal j k)) [
    | inl e ↦ absurd (dk (sym ((equal_iff j k).0 e)))
    | inr e ↦ (rw e hk, Sorts-cons j es m ks d h)
  ]

  Sorts-keys : (m : Sections) → IsAnatomy m → All (Sorts m) (keys m)
  Sorts-keys [] p = tt
  Sorts-keys ((k, es) ∷ m) p =
      let (q, qs) = p.sections in
      let (d, ds) = p.distinct in
      (
        unfold get_section in
            rw (equal_refl k) (record {
              key_any = q.key_any;
              key_edges = q.key_edges;
              entries = entries_sorted es q.entries;
            }),
        Sorts-cons k es m (keys m) d (Sorts-keys m (record { sections = qs; distinct = ds })),
      )

  All-sections :
      (m : Sections) (ks : List Text)
      → All (Sorts m) ks
      → All IsSection (map (λ k. (k, sort_entries gt (get_section k m))) ks)
  All-sections m [] h = tt
  All-sections m (k ∷ ks) (hk, h) = (hk, All-sections m ks h)

  keys-sections :
      (m : Sections) (ks : List Text)
      → keys (map (λ k. (k, sort_entries gt (get_section k m))) ks) ≡ ks
  keys-sections m [] = refl
  keys-sections m (k ∷ ks) = ap (λ x. k ∷ x) (keys-sections m ks)

  sorted_sections-IsAnatomy : (m : Sections) → IsAnatomy m → IsAnatomy (sorted_sections gt m)
  unfolding sorted_sections
  sorted_sections-IsAnatomy m p =
      let ks = sort units_gt (keys m) in
      record {
        sections = All-sections m ks (All-sort units_gt (Sorts m) (keys m) (Sorts-keys m p));
        distinct = rw (keys-sections m ks) (Distinct-sort units_gt (keys m) p.distinct);
      }

  -- Reading back a printed anatomy gives its sections in the order of their keys, each with its
  -- entries in the locale's order, for every map whose keys and entries can be printed.
  pub parse_anatomy-serialize_anatomy :
      (m : Sections) (meta : Metadata)
      → IsAnatomy m
      → IsLine meta.last_scanned
      → parse_anatomy (serialize_anatomy gt m meta) ≡ sorted_sections gt m
  parse_anatomy-serialize_anatomy m meta p h =
      ap parse_anatomy (serialize_anatomy_lem m meta)
      ∙ parse_anatomy-lines meta (sorted_sections gt m) h (sorted_sections-IsAnatomy m p)
