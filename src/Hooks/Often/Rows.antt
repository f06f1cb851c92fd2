-- ===== src/Hooks/Often/Rows.antt =====
-- The writes of one file in a row, and the warnings that .wolf/hooks/post-write.js prints of them.
use efipix.Prelude.{
  ℕ, zero, suc, ◌+◌, ◌-◌, subst, All, length, length-append, Bool, true, false, none, some, List,
  [], ◌∷◌, ◌++◌, ◌≡◌, refl, ap, ◌∙◌, sym, arith, if◌then◌else◌, leb,
}
use efipix.Text.{Text, is_empty}
use efipix.NodePath.{basename}
use efipix.Object.{find_own, is_inherited}
use efipix.World.{Env, World, Input, input_path}
use efipix.Hooks.Tracks.{IsTracked}
use efipix.Hooks.KeepsWrites.{post_write-IsTracked}
use efipix.Hooks.PostWrite.{
  post_write, Written, on_write, on_path, is_skipped, relative_path, absolute_path, edit_warning,
}
use efipix.Hooks.Often.{
  Edited, counts_of, Warns, count_edit-Edited, on_write-counts, on_write-Warns,
}

-- the file is one that the hook keeps account of
pub record IsNoted (env : Env) (p : Text) : Type 0 where
  pub named : is_empty p ≡ false
  pub not_skipped : is_skipped env p ≡ false
  pub not_inherited : is_inherited (relative_path env p) ≡ false

on_path-on_write :
    (env : Env) (p : Text) (i : Input) (d : Written) (w : World)
    → IsNoted env p
    → on_path env p i d w ≡ on_write env p i d w
on_path-on_write env [] i d w a = absurd (named a.named)
  where
    named : true ≡ false → ⊥
    named e = cc
on_path-on_write env (c ∷ p) i d w a = rw a.not_skipped refl

if_yes : (b : Bool) (v w : World) → b ≡ true → (if b then v else w) ≡ v
if_yes true v w e = refl
if_yes false v w e = absurd (cc)

post_write-on_write :
    (env : Env) (i : Input) (d : Written) (w : World)
    → w.wolf_dir ≡ true
    → IsNoted env (input_path i)
    → post_write env (some i) d w ≡ on_write env (input_path i) i d w
unfolding post_write
post_write-on_write env i d w h a =
    if_yes w.wolf_dir _ w h ∙ on_path-on_write env (input_path i) i d w a

-- Where the session is tracked, a write of a file that the hook keeps account of, and that has been
-- edited `n` times, leaves it edited `n + 1` times, and prints one warning if that is three or more.
pub post_write-Warns :
    (env : Env) (i : Input) (d : Written) (w : World) (n : ℕ)
    → IsTracked w
    → IsNoted env (input_path i)
    → Edited n (relative_path env (input_path i)) (counts_of w)
    → Edited (suc n) (relative_path env (input_path i)) (counts_of (post_write env (some i) d w))
      × Warns (basename (absolute_path env (input_path i))) (suc n) w (post_write env (some i) d w)
post_write-Warns env i d w n k a e =
    let p = input_path i in
    let counted : Edited (suc n) (relative_path env p) (counts_of (on_write env p i d w)) =
      subst (Edited (suc n) (relative_path env p)) (sym (on_write-counts env p i d w k))
        (count_edit-Edited (relative_path env p) (counts_of w) n a.not_inherited e) in
    rw (post_write-on_write env i d w k.wolf a) (counted, on_write-Warns env p i d w k n counted)

-- a file is written again and again
abbrev pub write_all : Env → List (Input × Written) → World → World
write_all env [] w = w
write_all env ((i, d) ∷ l) w = write_all env l (post_write env (some i) d w)

length-if :
    (n : ℕ) (b : Bool) (l : List Text) (t : Text)
    → leb 3 (suc n) ≡ b
    → length (if b then l ++ t ∷ [] else l) + (n - 2) ≡ length l + (suc n - 2)
length-if n true l t e = ground (arith, length-append l (t ∷ []))
length-if n false l t e = ground arith

Warns-length :
    (name : Text) (n : ℕ) (w w' : World)
    → Warns name (suc n) w w'
    → length w'.stderr + (n - 2) ≡ length w.stderr + (suc n - 2)
Warns-length name n w w' e =
    ap (λ l. length l + (n - 2)) e ∙ length-if n _ w.stderr (edit_warning name (suc n)) refl

module _ (env : Env) (p : Text) (a : IsNoted env p) where
  step-Warns :
      (i : Input) (d : Written) (w : World) (n : ℕ)
      → IsTracked w
      → input_path i ≡ p
      → Edited n (relative_path env p) (counts_of w)
      → Edited (suc n) (relative_path env p) (counts_of (post_write env (some i) d w))
        × Warns (basename (absolute_path env p)) (suc n) w (post_write env (some i) d w)
  step-Warns i d w n k h e =
      subst
        (λ q.
          IsNoted env q
          → Edited n (relative_path env q) (counts_of w)
          → Edited (suc n) (relative_path env q) (counts_of (post_write env (some i) d w))
            × Warns (basename (absolute_path env q)) (suc n) w (post_write env (some i) d w))
        h (post_write-Warns env i d w n k) a e

  write_all-length :
      (l : List (Input × Written)) (w : World) (n : ℕ)
      → IsTracked w
      → All (λ x. input_path x.0 ≡ p) l
      → Edited n (relative_path env p) (counts_of w)
      → length (write_all env l w).stderr + (n - 2) ≡ length w.stderr + ((n + length l) - 2)
  write_all-length [] w n k h e = omega arith
  write_all-length ((i, d) ∷ l) w n k (h, hs) e =
      let s = step-Warns i d w n k h e in
      omega (
        arith,
        write_all-length l (post_write env (some i) d w) (suc n)
            (post_write-IsTracked env (some i) d w k) hs s.0,
        Warns-length _ n w (post_write env (some i) d w) s.1,
      )

  -- Where the session is tracked, and has no count of a file that the hook keeps account of, the
  -- writes of that file in a row, whatever they write, print one warning for each but the first two.
  pub write_all-warns :
      (l : List (Input × Written)) (w : World)
      → IsTracked w
      → All (λ x. input_path x.0 ≡ p) l
      → find_own (relative_path env p) (counts_of w) ≡ none
      → length (write_all env l w).stderr ≡ length w.stderr + (length l - 2)
  write_all-warns l w k h e = omega (arith, write_all-length l w zero k h e)
