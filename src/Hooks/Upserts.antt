-- ===== src/Hooks/Upserts.antt =====
-- What .wolf/hooks/post-write.js does to anatomy.md: the entry of the written file is replaced or
-- added, and the new text can be read back.
use efipix.Prelude.{
  true, false, Option, none, some, List, [], ◌∷◌, ◌++◌, ◌≡◌, ◌≢◌, refl, sym, ap, ◌∙◌, arith, All,
  All-append, Bool-cases, inl, inr, if◌then◌else◌,
}
use efipix.Text.{Text, equal}
use efipix.Text.Laws.{equal_iff, equal_refl}
use efipix.Text.Edges.{HasEdges}
use efipix.Text.Lines.{IsLine}
use efipix.Regex.{is_any}
use efipix.Regex.Runs.{Are}
use efipix.Sorting.Laws.{Distinct}
use efipix.Anatomy.{
  Entry, Sections, has_section, get_section, ensure_section, change_section, parse_anatomy,
  sorted_sections,
}
use efipix.Anatomy.EntryLine.{IsPrintable}
use efipix.Anatomy.ReadBack.{IsSection}
use efipix.Anatomy.RoundTrip.{IsAnatomy, keys, parse_anatomy-serialize_anatomy}
use efipix.World.{Env, or_default}
use efipix.Hooks.PostWrite.{upsert, update_sections, update_anatomy, no_anatomy}

-- the first entry of a file
abbrev pub find_file : Text → List Entry → Option Entry
find_file f [] = none
find_file f (e ∷ es) = if equal e.file f then some e else find_file f es

-- After an upsert the entry of its file is the new one, and the first entry of each other file is as
-- before.
pub find_file-upsert :
    (e : Entry) (es : List Entry) (f : Text)
    → find_file f (upsert e es) ≡ (if equal e.file f then some e else find_file f es)
unfolding upsert
find_file-upsert e [] f = ground arith
find_file-upsert e (x ∷ es) f = ground (
  arith,
  find_file-upsert e es f,
  equal_iff x.file e.file,
  equal_iff x.file f,
  equal_iff e.file f,
)

get_section-change :
    (k j : Text) (g : List Entry → List Entry) (m : Sections)
    → has_section k m ≡ true
    → get_section j (change_section k g m)
      ≡ (if equal k j then g (get_section k m) else get_section j m)
unfolding get_section change_section has_section
get_section-change k j g [] h = cc
get_section-change k j g ((i, es) ∷ m) h =
    ground (arith, get_section-change k j g m, equal_iff i k, equal_iff i j, equal_iff k j)

has_section-concat : (k : Text) (m : Sections) → has_section k (m ++ (k, []) ∷ []) ≡ true
unfolding has_section
has_section-concat k [] = rw (has_section, equal_refl k) refl
has_section-concat k ((i, es) ∷ m) = ground (arith, has_section-concat k m)

get_section-concat :
    (k j : Text) (m : Sections) → get_section j (m ++ (k, []) ∷ []) ≡ get_section j m
unfolding get_section
get_section-concat k j [] = ground arith
get_section-concat k j ((i, es) ∷ m) = ground (arith, get_section-concat k j m)

-- The section of the key has its entry replaced or added, and each other section is as before.
pub get_section-update_sections :
    (k j : Text) (e : Entry) (m : Sections)
    → get_section j (update_sections k e m)
      ≡ (if equal k j then upsert e (get_section k m) else get_section j m)
unfolding update_sections ensure_section
get_section-update_sections k j e m = elim (Bool-cases (has_section k m)) [
  | inl h ↦ rw (update_sections, ensure_section, h) (get_section-change k j (upsert e) m h)
  | inr h ↦
      rw (update_sections, ensure_section, h)
        (rw
          (
            get_section-change k j (upsert e) (m ++ (k, []) ∷ []) (has_section-concat k m),
            get_section-concat k k m,
            get_section-concat k j m,
          )
          refl)
]

-- Printable maps stay printable.
pub keys-change :
    (k : Text) (g : List Entry → List Entry) (m : Sections) → keys (change_section k g m) ≡ keys m
unfolding change_section
keys-change k g [] = refl
keys-change k g ((i, es) ∷ m) = elim (Bool-cases (equal i k)) [
  | inl b ↦ rw (change_section, b) refl
  | inr b ↦ rw (change_section, b) (ap (λ ks. i ∷ ks) (keys-change k g m))
]

true-ne-false : true ≡ false → ⊥
true-ne-false e = cc

Fresh-has_section : (k : Text) (m : Sections) → has_section k m ≡ false → All (λ j. j ≢ k) (keys m)
unfolding has_section
Fresh-has_section k [] h = tt
Fresh-has_section k ((i, es) ∷ m) h = elim (Bool-cases (equal i k)) [
  | inl b ↦ absurd (true-ne-false (rw (has_section, b) at h))
  | inr b ↦ (
    λ e. true-ne-false (sym (equal_refl k) ∙ rw e at b),
    Fresh-has_section k m (rw (has_section, b) at h),
  )
]

Distinct-concat :
    (k : Text) (ks : List Text) → Distinct ks → All (λ j. j ≢ k) ks → Distinct (ks ++ k ∷ [])
Distinct-concat k [] d h = (tt, tt)
Distinct-concat k (j ∷ ks) (dj, d) (hj, h) =
    (All-append (λ y. y ≢ j) ks (k ∷ []) dj ((λ e. hj (sym e)), tt), Distinct-concat k ks d h)

pub keys-concat : (k : Text) (m : Sections) → keys (m ++ (k, []) ∷ []) ≡ keys m ++ k ∷ []
keys-concat k [] = refl
keys-concat k ((i, es) ∷ m) = ap (λ ks. i ∷ ks) (keys-concat k m)

upsert-IsPrintable :
    (e : Entry) (es : List Entry)
    → IsPrintable e
    → All IsPrintable es
    → All IsPrintable (upsert e es)
unfolding upsert
upsert-IsPrintable e [] p h = (p, tt)
upsert-IsPrintable e (x ∷ es) p (hx, h) = elim (Bool-cases (equal x.file e.file)) [
  | inl b ↦ rw (upsert, b) (p, h)
  | inr b ↦ rw (upsert, b) (hx, upsert-IsPrintable e es p h)
]

module _ (k : Text) (any : Are is_any k) (edges : HasEdges k) where
  ensure_section-IsAnatomy : (m : Sections) → IsAnatomy m → IsAnatomy (ensure_section k m)
  unfolding ensure_section
  ensure_section-IsAnatomy m p = elim (Bool-cases (has_section k m)) [
    | inl h ↦ rw (ensure_section, h) p
    | inr h ↦
        rw (ensure_section, h)
          (record {
            sections =
                All-append IsSection m ((k, []) ∷ []) p.sections
                  (record { key_any = any; key_edges = edges; entries = tt }, tt);
            distinct =
                rw (keys-concat k m)
                  (Distinct-concat k (keys m) p.distinct (Fresh-has_section k m h));
          })
  ]

  change_section-All :
      (e : Entry) (m : Sections)
      → IsPrintable e
      → All IsSection m
      → All IsSection (change_section k (upsert e) m)
  unfolding change_section
  change_section-All e [] pe p = tt
  change_section-All e ((i, es) ∷ m) pe (pi, p) = elim (Bool-cases (equal i k)) [
    | inl b ↦
        rw (change_section, b)
          (
            record {
              key_any = pi.key_any;
              key_edges = pi.key_edges;
              entries = upsert-IsPrintable e es pe pi.entries;
            },
            p,
          )
    | inr b ↦ rw (change_section, b) (pi, change_section-All e m pe p)
  ]

  update_sections-IsAnatomy :
      (e : Entry) (m : Sections) → IsPrintable e → IsAnatomy m → IsAnatomy (update_sections k e m)
  unfolding update_sections
  update_sections-IsAnatomy e m pe p =
      let q = ensure_section-IsAnatomy m p in
      record {
        sections = change_section-All e (ensure_section k m) pe q.sections;
        distinct = rw (keys-change k (upsert e) (ensure_section k m)) q.distinct;
      }

-- Where the sections of the old anatomy.md can be printed, as can the new entry and the key of its
-- section, and the time is one line, the new text reads back as the old sections with the entry
-- replaced or added, the sections ordered by key and the entries by the locale.
pub parse_anatomy-update_anatomy :
    (env : Env) (k : Text) (e : Entry) (old : Option Text)
    → Are is_any k
    → HasEdges k
    → IsPrintable e
    → IsAnatomy (parse_anatomy (or_default no_anatomy old))
    → IsLine env.now.iso
    → parse_anatomy (update_anatomy env k e old)
      ≡ sorted_sections env.locale_gt
          (update_sections k e (parse_anatomy (or_default no_anatomy old)))
unfolding update_anatomy
parse_anatomy-update_anatomy env k e old any edges pe p line =
    parse_anatomy-serialize_anatomy env.locale_gt _ _
      (update_sections-IsAnatomy k any edges e (parse_anatomy (or_default no_anatomy old)) pe p)
      line
