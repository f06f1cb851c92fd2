-- ===== src/NodePath/Plain.antt =====
-- What the text of a path of plain parts is and is not: it ends in no slash, has no backslash, and is
-- not `.`.
use efipix.Prelude.{
  ℕ, ◌-◌, true, false, List, [], ◌∷◌, ◌++◌, ◌≡◌, ◌≢◌, refl, sym, ap, ◌∙◌, arith, inl, inr,
  Bool-cases, All, All-append, append_assoc, append-nil, length, length-append, drop, leb, subst,
}
use efipix.Text.{Text, codes, equal, split, join, ends_with, is_empty}
use efipix.Text.Laws.{equal_iff, equal_refl}
use efipix.NodePath.{segments, resolve_segments, is_absolute, normalize_path, normalize, closed}
use efipix.NodePath.Parts.{Plain, IsPart, slashed, segments-join}

drop-length-append : (p s : Text) → drop (length p) (p ++ s) ≡ s
drop-length-append [] s = refl
drop-length-append (c ∷ p) s = drop-length-append p s

pub ends_with-append : (p s : Text) → ends_with (p ++ s) s ≡ true
unfolding ends_with
ends_with-append p s =
    let behind : length (p ++ s) - length s ≡ length p = omega (arith, length-append p s) in
    let fits : leb (length s) (length (p ++ s)) ≡ true =
      let e = length-append p s in ground (arith, e) in
    rw (ends_with, fits, behind, drop-length-append p s, equal_refl s) refl

-- the last unit apart
last_unit :
    (c : ℕ) (s : Text)
    → All Plain (c ∷ s)
    → (t : Text) × (d : ℕ) × ((c ∷ s ≡ t ++ d ∷ []) × Plain d)
last_unit c [] (a, h) = ([], c, (refl, a))
last_unit c (d ∷ s) (a, h) =
    let (t, l, (e, p)) = last_unit d s h in (c ∷ t, l, (ap (λ x. c ∷ x) e, p))

ends_with-unit : (t : Text) (d : ℕ) → d ≢ b'/' → ends_with (t ++ d ∷ []) (codes "/") ≡ false
unfolding ends_with equal
ends_with-unit t d h =
    let behind : length (t ++ d ∷ []) - 1 ≡ length t = omega (arith, length-append t (d ∷ [])) in
    let fits : leb 1 (length (t ++ d ∷ [])) ≡ true =
      let e = length-append t (d ∷ []) in ground (arith, e) in
    rw (ends_with, fits, behind, drop-length-append t (d ∷ [])) (ground (arith, h))

pub ends_with-part : (x name : Text) → IsPart name → ends_with (x ++ name) (codes "/") ≡ false
ends_with-part x [] n = absurd (bad n.ne_nil)
  where
    bad : true ≡ false → ⊥
    bad e = cc
ends_with-part x (c ∷ s) n =
    let (t, d, (e, p)) = last_unit c s n.plain in
    subst (λ y. ends_with y (codes "/") ≡ false)
      (append_assoc x t (d ∷ []) ∙ ap (λ y. x ++ y) (sym e)) (ends_with-unit (x ++ t) d p.0)

pub join_ne_nil :
    (p : Text) (ps : List Text) → IsPart p → is_empty (join (p ∷ ps) (codes "/")) ≡ false
unfolding join
join_ne_nil p [] h = h.ne_nil
join_ne_nil [] (q ∷ ps) h = refl
join_ne_nil (c ∷ p) (q ∷ ps) h = refl

closed-eq : (t : Text) → is_empty t ≡ false → closed false false t ≡ t
closed-eq [] e = absurd (cc)
closed-eq (c ∷ t) e = append-nil (c ∷ t)

pub normalize-eq :
    (s : Text) (ps : List Text)
    → is_empty s ≡ false
    → is_absolute s ≡ false
    → ends_with s (codes "/") ≡ false
    → resolve_segments true (segments s) ≡ ps
    → is_empty (join ps (codes "/")) ≡ false
    → normalize s ≡ join ps (codes "/")
unfolding normalize
normalize-eq [] ps ne r e k n = absurd (cc)
normalize-eq (c ∷ s) ps ne r e k n = rw (normalize, r, e, k) (closed-eq (join ps (codes "/")) n)

plain-normalize_path : (s : Text) → All (λ c. c ≢ b'\\') s → normalize_path s ≡ s
unfolding normalize_path
plain-normalize_path [] h = refl
plain-normalize_path (c ∷ s) (a, h) = ground (arith, plain-normalize_path s h)

All-plain : (s : Text) → All Plain s → All (λ c. c ≢ b'\\') s
All-plain [] h = tt
All-plain (c ∷ s) ((a, b), h) = (b, All-plain s h)

slash-plain : (c : ℕ) → c ≡ b'/' → c ≢ b'\\'
slash-plain c h e = omega (arith, h, e)

join-plain : (ps : List Text) → All IsPart ps → All (λ c. c ≢ b'\\') (join ps (codes "/"))
unfolding join
join-plain [] h = tt
join-plain (p ∷ []) (a, h) = All-plain p a.plain
join-plain (p ∷ q ∷ ps) (a, h) =
    All-append _ p (b'/' ∷ join (q ∷ ps) (codes "/")) (All-plain p a.plain)
      (slash-plain b'/' refl, join-plain (q ∷ ps) h)

pub normalize_path-join :
    (ps : List Text) → All IsPart ps → normalize_path (join ps (codes "/")) ≡ join ps (codes "/")
normalize_path-join ps h = plain-normalize_path _ (join-plain ps h)

pub normalize_path-slashed :
    (ps : List Text) → All IsPart ps → normalize_path (slashed ps) ≡ slashed ps
normalize_path-slashed ps h =
    plain-normalize_path (slashed ps) (slash-plain b'/' refl, join-plain ps h)

abbrev first : List Text → Text
first [] = []
first (x ∷ l) = x

segments_dot : segments (codes ".") ≡ codes "." ∷ []
unfolding segments split
segments_dot = refl

-- no list of plain parts is joined to `.`
pub join_not_dot :
    (p : Text) (ps : List Text)
    → All IsPart (p ∷ ps)
    → equal (join (p ∷ ps) (codes "/")) (codes ".") ≡ false
join_not_dot p ps (a, h) = elim (Bool-cases (equal (join (p ∷ ps) (codes "/")) (codes "."))) [
  | inr b ↦ b
  | inl b ↦
      let e : p ∷ ps ≡ codes "." ∷ [] =
        sym (segments-join (p ∷ ps) (a, h))
        ∙ ap segments ((equal_iff _ (codes ".")).0 b)
        ∙ segments_dot in
      absurd
        (differ (sym a.not_dot ∙ ap (λ l. equal (first l) (codes ".")) e ∙ equal_refl (codes ".")))
]
  where
    differ : false ≡ true → ⊥
    differ e = cc
