-- ===== src/Hooks/Known.antt =====
-- What .wolf/hooks/post-write.js enters in anatomy.md is found by .wolf/hooks/pre-read.js.
use efipix.Prelude.{
  Bool, true, false, Option, some, List, [], ◌∷◌, ◌++◌, ◌≡◌, refl, sym, ap, ◌∙◌, arith, inl, inr,
  Bool-cases, Option-cases, subst, if◌then◌else◌, none-ne-some,
}
use efipix.Text.{Text, equal}
use efipix.Text.Laws.{equal_iff, equal_refl}
use efipix.Text.Edges.{HasEdges}
use efipix.Text.Lines.{IsLine}
use efipix.Regex.{is_any}
use efipix.Regex.Runs.{Are}
use efipix.Sorting.{sort, units_gt}
use efipix.Sorting.Holds.{Some, Some-map, Some-sort, Some-weaken}
use efipix.Anatomy.{
  Entry, Sections, has_section, get_section, ensure_section, parse_anatomy, sorted_sections,
  sort_entries,
}
use efipix.Anatomy.EntryLine.{IsPrintable}
use efipix.Anatomy.RoundTrip.{IsAnatomy, keys}
use efipix.World.{Env, or_default}
use efipix.Hooks.Common.{is_entry_of, find_entry}
use efipix.Hooks.PreRead.{find_section_entry}
use efipix.Hooks.PostWrite.{upsert, update_sections, update_anatomy, no_anatomy}
use efipix.Hooks.Upserts.{
  get_section-update_sections, parse_anatomy-update_anatomy, keys-change, keys-concat,
}

upsert-Some : (P : Entry → Type 0) (e : Entry) (es : List Entry) → P e → Some P (upsert e es)
unfolding upsert
upsert-Some P e [] h = inl h
upsert-Some P e (x ∷ es) h = elim (Bool-cases (equal x.file e.file)) [
  | inl b ↦ rw (upsert, b) (inl h)
  | inr b ↦ rw (upsert, b) (inr (upsert-Some P e es h))
]

-- the search stops at an entry that matches
module _ (file : Text) where
  abbrev Matches : Text → Entry → Type 0
  Matches key x = is_entry_of file key x ≡ true

  find_entry-Some :
      (key : Text) (es : List Entry)
      → Some (Matches key) es
      → (x : Entry) × (find_entry file key es ≡ some x)
  unfolding find_entry
  find_entry-Some key [] h = absurd h
  find_entry-Some key (e ∷ es) h = elim (Bool-cases (is_entry_of file key e)) [
    | inl b ↦ (e, rw (find_entry, b) refl)
    | inr b ↦ elim h [
      | inl a ↦ absurd (not_both a b)
      | inr a ↦ let (x, f) = find_entry-Some key es a in (x, rw (find_entry, b) f)
    ]
  ]
    where
      not_both : {b : Bool} → b ≡ true → b ≡ false → ⊥
      not_both f g = cc

  find_section_entry-Some :
      (m : Sections)
      → Some (λ s. Some (Matches s.0) s.1) m
      → (x : Entry) × (find_section_entry file m ≡ some x)
  unfolding find_section_entry
  find_section_entry-Some [] h = absurd h
  find_section_entry-Some ((key, es) ∷ m) h = elim (Option-cases (find_entry file key es)) [
    | inr (x, f) ↦ (x, rw (find_section_entry, f) refl)
    | inl f ↦ elim h [
      | inl a ↦ let (x, g) = find_entry-Some key es a in absurd (none-ne-some _ (sym f ∙ g))
      | inr a ↦ let (x, g) = find_section_entry-Some m a in (x, rw (find_section_entry, f) g)
    ]
  ]

has_section-Some : (k : Text) (m : Sections) → has_section k m ≡ true → Some (λ j. j ≡ k) (keys m)
unfolding has_section
has_section-Some k [] h = absurd (cc)
has_section-Some k ((i, es) ∷ m) h = elim (Bool-cases (equal i k)) [
  | inl b ↦ inl ((equal_iff i k).0 b)
  | inr b ↦ inr (has_section-Some k m (rw (has_section, b) at h))
]

Some-concat : (k : Text) (ks : List Text) → Some (λ j. j ≡ k) (ks ++ k ∷ [])
Some-concat k [] = inl refl
Some-concat k (j ∷ ks) = inr (Some-concat k ks)

ensure_section-Some : (k : Text) (m : Sections) → Some (λ j. j ≡ k) (keys (ensure_section k m))
unfolding ensure_section
ensure_section-Some k m = elim (Bool-cases (has_section k m)) [
  | inl h ↦ rw (ensure_section, h) (has_section-Some k m h)
  | inr h ↦
      rw (ensure_section, h)
        (subst (Some (λ j. j ≡ k)) (sym (keys-concat k m)) (Some-concat k (keys m)))
]

update_sections-Some :
    (k : Text) (e : Entry) (m : Sections) → Some (λ j. j ≡ k) (keys (update_sections k e m))
unfolding update_sections
update_sections-Some k e m =
    subst (Some (λ j. j ≡ k)) (sym (keys-change k (upsert e) (ensure_section k m)))
      (ensure_section-Some k m)

sorted_sections-Some :
    (gt : Text → Text → Bool) (P : Text → Entry → Type 0) (k : Text) (m : Sections)
    → Some (λ j. j ≡ k) (keys m)
    → Some (P k) (get_section k m)
    → Some (λ s. Some (P s.0) s.1) (sorted_sections gt m)
unfolding sorted_sections sort_entries
sorted_sections-Some gt P k m h e =
    let sorted : Some (P k) (sort_entries gt (get_section k m)) =
      Some-sort _ (P k) (get_section k m) e in
    Some-map (λ s. Some (P s.0) s.1) _ (sort units_gt (keys m))
      (Some-sort units_gt _ (keys m) (
        Some-weaken (λ j. j ≡ k) _ (keys m)
          (λ j f. subst (λ i. Some (P i) (sort_entries gt (get_section i m))) (sym f) sorted) h))

-- Where the sections of the old anatomy.md can be printed, as can the new entry and the key of its
-- section, and the time is one line, the search of the hook before a read finds an entry in the new
-- anatomy.md for every file that the new entry is taken for.
pub find_section_entry-update_anatomy :
    (env : Env) (k file : Text) (e : Entry) (old : Option Text)
    → Are is_any k
    → HasEdges k
    → IsPrintable e
    → IsAnatomy (parse_anatomy (or_default no_anatomy old))
    → IsLine env.now.iso
    → is_entry_of file k e ≡ true
    → (x : Entry) × (find_section_entry file (parse_anatomy (update_anatomy env k e old)) ≡ some x)
find_section_entry-update_anatomy env k file e old any edges pe p line h =
    let m = parse_anatomy (or_default no_anatomy old) in
    let entered : Some (Matches file k) (get_section k (update_sections k e m)) =
      subst (Some (Matches file k))
        (sym (
          get_section-update_sections k k e m
          ∙ if_self (equal k k) (upsert e (get_section k m)) (get_section k m) (equal_refl k)))
        (upsert-Some (Matches file k) e (get_section k m) h) in
    let (x, f) =
      find_section_entry-Some file (sorted_sections env.locale_gt (update_sections k e m)) (
        sorted_sections-Some env.locale_gt (Matches file) k (update_sections k e m)
          (update_sections-Some k e m) entered) in
    (
      x,
      ap (find_section_entry file) (parse_anatomy-update_anatomy env k e old any edges pe p line)
          ∙ f,
    )
  where
    if_self : (b : Bool) (x y : List Entry) → b ≡ true → (if b then x else y) ≡ x
    if_self b x y g = ground arith
