-- ===== src/NodePath/Parts.antt =====
-- The parts of a path between its slashes, and the functions of node:path on a path of plain parts.
use efipix.Prelude.{
  ℕ, Bool, true, false, not, List, [], ◌∷◌, ◌++◌, ◌≡◌, ◌≢◌, refl, sym, ap, ◌∙◌, arith, inl, inr,
  Bool-cases, keep, All, All-append, append_assoc, append-nil, ◌==◌,
}
use mathlib.Core.List.{reverse, reverse-cons}
use efipix.Text.{Text, codes, equal, split, join, starts_with, is_empty}
use efipix.Text.Laws.{equal_refl}
use efipix.NodePath.{
  segments, resolve_segments, resolve_onto, is_absolute, resolve, relative_parts, relative,
  basename, last_or, all_but_last,
}

-- a unit that neither kind of slash is
abbrev pub Plain : ℕ → Type 0
Plain c = (c ≢ b'/') × (c ≢ b'\\')

-- a name of a file or directory, other than `.` and `..`
pub record IsPart (s : Text) : Type 0 where
  pub ne_nil : is_empty s ≡ false
  pub plain : All Plain s
  pub not_dot : equal s (codes ".") ≡ false
  pub not_up : equal s (codes "..") ≡ false

-- the absolute path of the parts
abbrev pub slashed : List Text → Text
slashed ps = codes "/" ++ join ps (codes "/")

split_cons : (s : Text) (sep : ℕ) → (p : Text) × (ps : List Text) × (split s sep ≡ p ∷ ps)
unfolding split
split_cons [] sep = ([], [], refl)
split_cons (c ∷ s) sep =
    let (p, ps, e) = split_cons s sep in
    elim (Bool-cases (c == sep)) [
      | inl b ↦ ([], split s sep, rw (split, b) refl)
      | inr b ↦ (c ∷ p, ps, rw (split, b, e) refl)
    ]

split-append : (l s : Text) (sep : ℕ) → split (l ++ sep ∷ s) sep ≡ split l sep ++ split s sep
unfolding split
split-append [] s sep = ground arith
split-append (c ∷ l) s sep =
    let (p, ps, e) = split_cons l sep in
    elim (Bool-cases (c == sep)) [
      | inl b ↦ rw (split, b, split-append l s sep) refl
      | inr b ↦ rw (split, b, split-append l s sep, e) refl
    ]

keep-append : (p : Text → Bool) (l m : List Text) → keep p (l ++ m) ≡ keep p l ++ keep p m
keep-append p [] m = refl
keep-append p (x ∷ l) m = elim (Bool-cases (p x)) [
  | inl b ↦ rw (b, keep-append p l m) refl
  | inr b ↦ rw (b, keep-append p l m) refl
]

pub segments-append : (l s : Text) → segments (l ++ (b'/' ∷ s)) ≡ segments l ++ segments s
unfolding segments
segments-append l s =
    rw (segments, split-append l s b'/')
      (keep-append (λ t. not (is_empty t)) (split l b'/') (split s b'/'))

split_plain : (s : Text) → All Plain s → split s b'/' ≡ s ∷ []
unfolding split
split_plain [] h = refl
split_plain (c ∷ s) ((a, b), h) = ground (arith, split_plain s h)

pub segments_part : (s : Text) → IsPart s → segments s ≡ s ∷ []
unfolding segments
segments_part s h = rw (segments, split_plain s h.plain, h.ne_nil) refl

pub segments-join : (ps : List Text) → All IsPart ps → segments (join ps (codes "/")) ≡ ps
unfolding segments split join
segments-join [] h = refl
segments-join (p ∷ []) (a, h) = segments_part p a
segments-join (p ∷ q ∷ ps) (a, h) =
    segments-append p (join (q ∷ ps) (codes "/"))
    ∙ rw (segments_part p a, segments-join (q ∷ ps) h) refl

-- Plain parts stand in each other's way neither with `.` nor with `..`.
resolve_onto-parts :
    (up : Bool) (acc ps : List Text)
    → All IsPart ps
    → reverse (resolve_onto up acc ps) ≡ reverse acc ++ ps
resolve_onto-parts up acc [] h = sym (append-nil (reverse acc))
resolve_onto-parts up [] (p ∷ ps) (a, h) =
    rw (a.not_dot, a.not_up) (resolve_onto-parts up (p ∷ []) ps h)
resolve_onto-parts up (l ∷ acc) (p ∷ ps) (a, h) =
    rw (a.not_dot, a.not_up)
      (resolve_onto-parts up (p ∷ l ∷ acc) ps h
        ∙ ap (λ x. x ++ ps) (reverse-cons p (l ∷ acc))
        ∙ append_assoc (reverse (l ∷ acc)) (p ∷ []) ps)

pub resolve_segments-parts :
    (up : Bool) (ps : List Text) → All IsPart ps → resolve_segments up ps ≡ ps
unfolding resolve_segments
resolve_segments-parts up ps h = resolve_onto-parts up [] ps h

resolve-slashed : (cwd : Text) (ps : List Text) → All IsPart ps → resolve cwd (slashed ps) ≡ ps
unfolding resolve is_absolute starts_with segments split
resolve-slashed cwd ps h =
    ap (resolve_segments false) (segments-append [] (join ps (codes "/")) ∙ segments-join ps h)
    ∙ resolve_segments-parts false ps h

relative_parts-append : (ds ps : List Text) → relative_parts ds (ds ++ ps) ≡ ps
relative_parts-append [] ps = refl
relative_parts-append (d ∷ ds) ps = rw (equal_refl d) (relative_parts-append ds ps)

pub relative-slashed :
    (cwd : Text) (ds ps : List Text)
    → All IsPart ds
    → All IsPart ps
    → relative cwd (slashed ds) (slashed (ds ++ ps)) ≡ join ps (codes "/")
unfolding relative
relative-slashed cwd ds ps h k =
    rw
      (
        relative,
        resolve-slashed cwd ds h,
        resolve-slashed cwd (ds ++ ps) (All-append IsPart ds ps h k),
        relative_parts-append ds ps,
      )
      refl

last_or-append : (d : Text) (ps : List Text) (name : Text) → last_or d (ps ++ name ∷ []) ≡ name
last_or-append d [] name = refl
last_or-append d (p ∷ ps) name = last_or-append p ps name

pub all_but_last-append : (ps : List Text) (name : Text) → all_but_last (ps ++ name ∷ []) ≡ ps
all_but_last-append [] name = refl
all_but_last-append (p ∷ []) name = refl
all_but_last-append (p ∷ q ∷ ps) name = ap (λ l. p ∷ l) (all_but_last-append (q ∷ ps) name)

pub join-append :
    (p : Text) (ps : List Text) (q : Text) (qs : List Text)
    → join ((p ∷ ps) ++ (q ∷ qs)) (codes "/")
      ≡ join (p ∷ ps) (codes "/") ++ (b'/' ∷ join (q ∷ qs) (codes "/"))
unfolding join
join-append p [] q qs = refl
join-append p (p' ∷ ps) q qs =
    ap (λ s. p ++ (b'/' ∷ s)) (join-append p' ps q qs)
    ∙ sym (append_assoc p (b'/' ∷ join (p' ∷ ps) (codes "/")) (b'/' ∷ join (q ∷ qs) (codes "/")))

pub join-relative :
    (p : Text) (ps : List Text) → IsPart p → is_absolute (join (p ∷ ps) (codes "/")) ≡ false
unfolding join is_absolute starts_with
join-relative [] ps h = absurd (bad h.ne_nil)
  where
    bad : true ≡ false → ⊥
    bad e = cc
join-relative (c ∷ p) [] h = ground (arith, h.plain.0.0)
join-relative (c ∷ p) (q ∷ ps) h = ground (arith, h.plain.0.0)

module _ (ds : List Text) (name : Text) (h : All IsPart ds) (n : IsPart name) where
  abbrev parts : List Text
  parts = ds ++ name ∷ []

  parts-IsPart : All IsPart parts
  parts-IsPart = All-append IsPart ds (name ∷ []) h (n, tt)

  pub basename-parts : basename (join parts (codes "/")) ≡ name
  unfolding basename
  basename-parts = ap (last_or []) (segments-join parts parts-IsPart) ∙ last_or-append [] ds name

  pub basename-slashed : basename (slashed parts) ≡ name
  unfolding basename split segments
  basename-slashed =
      ap (last_or [])
        (segments-append [] (join parts (codes "/")) ∙ segments-join parts parts-IsPart)
      ∙ last_or-append [] ds name
