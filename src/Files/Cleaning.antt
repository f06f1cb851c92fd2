-- ===== src/Files/Cleaning.antt =====
-- Which files the removal of temporary files in .wolf/hooks/session-start.js removes.
use efipix.Prelude.{
  Bool, true, false, ◌&&◌, ◌||◌, Option, none, List, [], ◌∷◌, ◌≡◌, refl, arith, any, if◌then◌else◌,
}
use efipix.Text.{Text, codes, equal, ends_with}
use efipix.NodePath.{join_path}
use efipix.Files.{Disk, unlink, remove_tmp}

-- the listed name is that of a temporary file, which can be removed and has the path `q`
abbrev pub removes : (Text → Bool) → Text → Text → Text → Bool
removes unlinks dir q f =
    ends_with f (codes ".tmp") && (unlinks (join_path dir f) && equal (join_path dir f) q)

unlink-eq :
    (u : Bool) (p q : Text) (d : Disk) → unlink u p d q ≡ (if u && equal p q then none else d q)
unfolding unlink
unlink-eq true p q d = refl
unlink-eq false p q d = refl

step-eq :
    (unlinks : Text → Bool) (dir f q : Text) (d : Disk) (b : Bool)
    → ends_with f (codes ".tmp") ≡ b
    → (if b then unlink (unlinks (join_path dir f)) (join_path dir f) d else d) q
      ≡ (if removes unlinks dir q f then none else d q)
step-eq unlinks dir f q d true e =
    rw e (unlink-eq (unlinks (join_path dir f)) (join_path dir f) q d)
step-eq unlinks dir f q d false e = rw e refl

both :
    (a b : Bool) (o x y : Option Text)
    → x ≡ (if a then none else o)
    → y ≡ (if b then none else x)
    → y ≡ (if a || b then none else o)
both true b o x y e f = ground arith
both false b o x y e f = ground arith

-- After the removal a path holds nothing where it is that of a listed name that ends in .tmp and can
-- be removed, and else what it held before.
pub remove_tmp-eq :
    (unlinks : Text → Bool) (dir : Text) (names : List Text) (d : Disk) (q : Text)
    → remove_tmp unlinks dir names d q ≡ (if any (removes unlinks dir q) names then none else d q)
unfolding remove_tmp
remove_tmp-eq unlinks dir [] d q = refl
remove_tmp-eq unlinks dir (f ∷ fs) d q =
    both (removes unlinks dir q f) (any (removes unlinks dir q) fs) (d q) _ _
      (step-eq unlinks dir f q d (ends_with f (codes ".tmp")) refl)
      (remove_tmp-eq unlinks dir fs _ q)
