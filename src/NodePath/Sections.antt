-- ===== src/NodePath/Sections.antt =====
-- The directory of a path of plain parts, and how node:path puts it together again with the name.
use efipix.Prelude.{
  true, false, List, [], ◌∷◌, ◌++◌, ◌≡◌, refl, ap, ◌∙◌, All, All-append, append_assoc, subst,
}
use efipix.Text.{Text, codes, split, join, starts_with, ends_with, is_empty}
use efipix.NodePath.{segments, resolve_segments, is_absolute, dirname, normalize, join_path}
use efipix.NodePath.Parts.{
  IsPart, segments-append, segments_part, segments-join, resolve_segments-parts, join-relative,
  all_but_last-append,
}
use efipix.NodePath.Plain.{ends_with-part, join_ne_nil, normalize-eq}

-- The section of a file at the top of the project, and of one in a directory.
pub dirname-top : (name : Text) → IsPart name → dirname name ≡ codes "."
unfolding dirname join
dirname-top name n =
    let parts = segments-join (name ∷ []) (n, tt) in
    rw (dirname, join-relative name [] n, parts) refl

pub dirname-parts :
    (d : Text) (ds : List Text) (name : Text)
    → All IsPart (d ∷ ds)
    → IsPart name
    → dirname (join ((d ∷ ds) ++ name ∷ []) (codes "/")) ≡ join (d ∷ ds) (codes "/")
unfolding dirname
dirname-parts d ds name (a, h) n =
    rw
      (
        dirname,
        join-relative d (ds ++ name ∷ []) a,
        segments-join (d ∷ ds ++ name ∷ []) (a, All-append IsPart ds (name ∷ []) h (n, tt)),
        all_but_last-append (d ∷ ds) name,
      )
      refl

pub join_path-top : (name : Text) → IsPart name → join_path (codes "./") name ≡ name
unfolding join_path is_absolute starts_with segments split resolve_segments join
join_path-top [] n = absurd (bad n.ne_nil)
  where
    bad : true ≡ false → ⊥
    bad e = cc
join_path-top (c ∷ s) n =
    normalize-eq (codes ".//" ++ (c ∷ s)) ((c ∷ s) ∷ []) refl refl
      (ends_with-part (codes ".//") (c ∷ s) n)
      (ap (resolve_segments true) (
          segments-append (codes "./") (c ∷ s)
          ∙ ap (λ l. codes "." ∷ l) (segments-join ((c ∷ s) ∷ []) (n, tt)))
        ∙ resolve_segments-parts true ((c ∷ s) ∷ []) (n, tt))
      refl

join_path_cons :
    (k name : Text)
    → is_empty k ≡ false
    → is_empty name ≡ false
    → join_path k name ≡ normalize (k ++ (b'/' ∷ name))
unfolding join_path
join_path_cons [] name h n = absurd (cc)
join_path_cons (c ∷ k) [] h n = absurd (cc)
join_path_cons (c ∷ k) (d ∷ name) h n = refl

is_empty-append : (s t : Text) → is_empty s ≡ false → is_empty (s ++ t) ≡ false
is_empty-append [] t h = absurd (cc)
is_empty-append (c ∷ s) t h = refl

is_absolute-append : (s t : Text) → is_empty s ≡ false → is_absolute (s ++ t) ≡ is_absolute s
unfolding is_absolute starts_with
is_absolute-append [] t h = absurd (cc)
is_absolute-append (c ∷ s) t h = refl

pub join_path-parts :
    (d : Text) (ds : List Text) (name : Text)
    → All IsPart (d ∷ ds)
    → IsPart name
    → join_path (join (d ∷ ds) (codes "/") ++ codes "/") name
      ≡ join ((d ∷ ds) ++ name ∷ []) (codes "/")
unfolding segments split
join_path-parts d ds name (a, h) n =
    let dir = join (d ∷ ds) (codes "/") in
    let all : All IsPart ((d ∷ ds) ++ name ∷ []) =
      (a, All-append IsPart ds (name ∷ []) h (n, tt)) in
    let two : (dir ++ codes "/") ++ (b'/' ∷ name) ≡ dir ++ (b'/' ∷ b'/' ∷ name) =
      append_assoc dir (codes "/") (b'/' ∷ name) in
    let key : is_empty (dir ++ codes "/") ≡ false =
      is_empty-append dir (codes "/") (join_ne_nil d ds a) in
    join_path_cons (dir ++ codes "/") name key n.ne_nil
    ∙ normalize-eq ((dir ++ codes "/") ++ (b'/' ∷ name)) ((d ∷ ds) ++ name ∷ [])
        (is_empty-append (dir ++ codes "/") (b'/' ∷ name) key)
        (is_absolute-append (dir ++ codes "/") (b'/' ∷ name) key
          ∙ is_absolute-append dir (codes "/") (join_ne_nil d ds a)
          ∙ join-relative d ds a)
        (subst (λ y. ends_with y (codes "/") ≡ false)
          (append_assoc (dir ++ codes "/") (codes "/") name)
          (ends_with-part ((dir ++ codes "/") ++ codes "/") name n))
        (ap (resolve_segments true) (
            ap segments two
            ∙ segments-append dir (b'/' ∷ name)
            ∙ rw (segments-join (d ∷ ds) (a, h), segments-append [] name, segments_part name n)
                refl)
          ∙ resolve_segments-parts true ((d ∷ ds) ++ name ∷ []) all)
        (join_ne_nil d (ds ++ name ∷ []) a)
