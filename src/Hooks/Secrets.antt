-- ===== src/Hooks/Secrets.antt =====
-- .wolf/hooks/post-write.js does nothing for files that hold secrets.
use efipix.Prelude.{
  Bool, true, false, ◌||◌, some, List, [], ◌∷◌, ◌++◌, ◌≡◌, ◌⊎◌, inl, inr, refl, ap, ◌∙◌, arith, All,
  if◌then◌else◌,
}
use efipix.Text.{Text, codes, starts_with, equal}
use efipix.Text.Laws.{equal_iff}
use efipix.NodePath.{basename, is_absolute}
use efipix.NodePath.Parts.{IsPart, slashed, basename-slashed}
use efipix.World.{Env, World, Input, input_path}
use efipix.Hooks.PostWrite.{post_write, on_path, absolute_path, is_env_file, Written}

-- the names of files with secrets: .env, and .env. with anything behind it
abbrev pub IsSecret : Text → Type 0
IsSecret name = (name ≡ codes ".env") ⊎ ((rest : Text) × (name ≡ codes ".env." ++ rest))

IsSecret-is_env_file : (name : Text) → IsSecret name → is_env_file name ≡ true
unfolding starts_with
IsSecret-is_env_file name (inl e) = rw ((equal_iff name (codes ".env")).1 e) refl
IsSecret-is_env_file name (inr (rest, e)) =
    let starts : starts_with name (codes ".env.") ≡ true =
      ap (λ s. starts_with s (codes ".env.")) e in
    either_true (equal name (codes ".env")) starts
  where
    either_true : (a : Bool) {b : Bool} → b ≡ true → (a || b) ≡ true
    either_true a e = ground arith

if_same : (b : Bool) (w v : World) → v ≡ w → (if b then v else w) ≡ w
if_same true w v e = e
if_same false w v e = refl

skipped : (a b : Bool) (w v : World) → b ≡ true → (if a || b then w else v) ≡ w
skipped a b w v e = ground arith

on_path-eq :
    (env : Env) (p : Text) (i : Input) (d : Written) (w : World)
    → is_env_file (basename (absolute_path env p)) ≡ true
    → on_path env p i d w ≡ w
on_path-eq env [] i d w e = refl
on_path-eq env (c ∷ p) i d w e = skipped _ _ w _ e

absolute_path-slashed : (env : Env) (ps : List Text) → absolute_path env (slashed ps) ≡ slashed ps
unfolding absolute_path is_absolute starts_with
absolute_path-slashed env ps = refl

-- A write of a file that is named .env, or .env. with anything behind it, at an absolute path of
-- plain parts, leaves the whole state as it is.
pub post_write-eq :
    (env : Env) (ds : List Text) (name : Text) (i : Input) (d : Written) (w : World)
    → All IsPart ds
    → IsPart name
    → input_path i ≡ slashed (ds ++ name ∷ [])
    → IsSecret name
    → post_write env (some i) d w ≡ w
unfolding post_write
post_write-eq env ds name i d w h n path secret =
    let named : basename (absolute_path env (input_path i)) ≡ name =
      ap (λ p. basename (absolute_path env p)) path
      ∙ ap basename (absolute_path-slashed env (ds ++ name ∷ []))
      ∙ basename-slashed ds name h n in
    if_same w.wolf_dir w (on_path env (input_path i) i d w) (
      on_path-eq env (input_path i) i d w (ap is_env_file named ∙ IsSecret-is_env_file name secret))
