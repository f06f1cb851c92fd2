-- ===== src/Hooks/Often.antt =====
-- How .wolf/hooks/post-write.js counts the edits of a file, and when it warns of them.
pub mod Rows
use efipix.Prelude.{
  ℕ, zero, suc, ◌+◌, ◌-◌, subst, Bool, true, false, Option, none, some, [], ◌∷◌, ◌++◌, ◌≡◌, refl,
  ap, ◌∙◌, sym, arith, if◌then◌else◌, leb,
}
use efipix.Text.{Text}
use efipix.Text.Laws.{equal_refl}
use efipix.NodePath.{basename}
use efipix.Object.{Object, get, find_own, set, is_inherited}
use efipix.Object.Laws.{find_own-set}
use efipix.World.{Env, Session, World, Input, Edits, times, or_default, warn}
use efipix.Hooks.Common.{saved_session, write_session}
use efipix.Hooks.Tracks.{IsTracked, Tracks}
use efipix.Hooks.PostWrite
use efipix.Hooks.PostWrite.{
  Written, on_write, relative_path, absolute_path, count_edit, warn_often, edit_warning,
  part_buglog, part_session, part_memory, part_anatomy, write_info, new_session,
}

-- `session.edit_counts`
abbrev counts_in : Option Session → Object Edits
counts_in none = []
counts_in (some s) = or_default [] s.edit_counts

abbrev pub counts_of : World → Object Edits
counts_of w = counts_in w.session

-- the file has been edited `n` times: it has no count, for none, or the count is `n`
abbrev pub Edited : ℕ → Text → Object Edits → Type 0
Edited zero k o = find_own k o ≡ none
Edited (suc n) k o = find_own k o ≡ some (times (suc n))

one_more : (n : ℕ) → n + 1 ≡ suc n
one_more n = omega arith

module _ (k : Text) (o : Object Edits) where
  count_edit-new : is_inherited k ≡ false → find_own k o ≡ none → count_edit k o ≡ set k (times 1) o
  unfolding count_edit get
  count_edit-new h e = simp (count_edit, get, e, h) refl

  count_edit-again :
      (n : ℕ) → find_own k o ≡ some (times n) → count_edit k o ≡ set k (times (suc n)) o
  unfolding count_edit get
  count_edit-again n e = simp (count_edit, get, e) (ap (λ m. set k (times m) o) (one_more n))

  set-own : (v : Edits) → find_own k (set k v o) ≡ some v
  set-own v = rw (find_own-set k v k o, equal_refl k) refl

  pub count_edit-Edited :
      (n : ℕ) → is_inherited k ≡ false → Edited n k o → Edited (suc n) k (count_edit k o)
  count_edit-Edited zero h e = rw (count_edit-new h e) (set-own (times 1))
  count_edit-Edited (suc n) h e = rw (count_edit-again (suc n) e) (set-own (times (suc (suc n))))

-- from the third edit on there is a warning
abbrev pub Warns : Text → ℕ → World → World → Type 0
Warns name n w w' = w'.stderr ≡ (if leb 3 n then w.stderr ++ edit_warning name n ∷ [] else w.stderr)

if-stderr :
    (b : Bool) (t : Text) (w : World)
    → (if b then warn t w else w).stderr ≡ (if b then w.stderr ++ t ∷ [] else w.stderr)
if-stderr true t w = refl
if-stderr false t w = refl

warn_often-Warns :
    (name k : Text) (n : ℕ) (o : Object Edits) (w : World)
    → Edited (suc n) k o
    → Warns name (suc n) w (warn_often name k o w)
unfolding get
warn_often-Warns name k n o w e =
    simp (warn_often, get, e) (if-stderr (leb 3 (suc n)) (edit_warning name (suc n)) w)

pub warn_often-session :
    (name k : Text) (o : Object Edits) (w : World) → (warn_often name k o w).session ≡ w.session
warn_often-session name k o w = ground arith

module _ (env : Env) (p : Text) (i : Input) where
  pub in_session_lem :
      (s : Session) (t : Tracks s) (w : World)
      → PostWrite.in_session env p i s w
        ≡ warn_often
            (basename (absolute_path env p))
            (relative_path env p)
            (count_edit (relative_path env p) t.counts)
            (write_session
              (record s {
                files_written = some (t.writes ++ write_info env p i ∷ []);
                edit_counts = some (count_edit (relative_path env p) t.counts);
              })
              w)
  unfolding PostWrite.in_session
  in_session_lem s t w = simp (PostWrite.in_session, t.has_writes, t.has_counts) refl

  in_session-counts :
      (s : Session) (t : Tracks s) (w : World)
      → counts_in (PostWrite.in_session env p i s w).session
        ≡ count_edit (relative_path env p) t.counts
  unfolding saved_session
  in_session-counts s t w =
      ap (λ v. counts_in v.session) (in_session_lem s t w)
      ∙ ap counts_in (warn_often-session _ _ _ _)

  in_session-Warns :
      (s : Session) (t : Tracks s) (w : World) (n : ℕ)
      → Edited (suc n) (relative_path env p) (count_edit (relative_path env p) t.counts)
      → Warns (basename (absolute_path env p)) (suc n) w (PostWrite.in_session env p i s w)
  in_session-Warns s t w n e =
      ap (λ v. v.stderr) (in_session_lem s t w) ∙ warn_often-Warns _ _ n _ _ e

  part_memory-session :
      (d : Written) (w : World)
      → (part_memory env p i (part_anatomy env p i d w)).session ≡ w.session
  part_memory-session d w = ground arith

  part_memory-stderr :
      (d : Written) (w : World) → (part_memory env p i (part_anatomy env p i d w)).stderr ≡ w.stderr
  part_memory-stderr d w = ground arith

  pub part_buglog-session : (w : World) → (part_buglog env p i w).session ≡ w.session
  part_buglog-session w = ground arith

  part_buglog-stderr : (w : World) → (part_buglog env p i w).stderr ≡ w.stderr
  part_buglog-stderr w = ground arith

  part_session_lem :
      (s : Session) (v : World)
      → v.session ≡ some s
      → part_session env p i v ≡ PostWrite.in_session env p i s v
  part_session_lem s v e = ap (λ o. PostWrite.in_session env p i (or_default new_session o) v) e

  module _ (d : Written) (w : World) (k : IsTracked w) where
    abbrev pub noted : World
    noted = part_memory env p i (part_anatomy env p i d w)

    pub noted_lem : part_session env p i noted ≡ PostWrite.in_session env p i k.session noted
    noted_lem = part_session_lem k.session noted (part_memory-session d w ∙ k.has_session)

    counts_lem : counts_of w ≡ k.tracks.counts
    counts_lem = ap counts_in k.has_session ∙ ap (or_default []) k.tracks.has_counts

    pub on_write-counts :
        counts_of (on_write env p i d w) ≡ count_edit (relative_path env p) (counts_of w)
    unfolding on_write
    on_write-counts =
        ap counts_in (part_buglog-session (part_session env p i noted))
        ∙ (ap (λ v. counts_in v.session) noted_lem
            ∙ (in_session-counts k.session k.tracks noted
                ∙ ap (count_edit (relative_path env p)) (sym counts_lem)))

    pub on_write-Warns :
        (n : ℕ)
        → Edited (suc n) (relative_path env p) (counts_of (on_write env p i d w))
        → Warns (basename (absolute_path env p)) (suc n) w (on_write env p i d w)
    unfolding on_write
    on_write-Warns n e =
        let f =
          subst (Edited (suc n) (relative_path env p))
            (on_write-counts ∙ ap (count_edit (relative_path env p)) counts_lem) e in
        part_buglog-stderr (part_session env p i noted)
        ∙ (ap (λ v. v.stderr) noted_lem
            ∙ (in_session-Warns k.session k.tracks noted n f
                ∙ ap
                    (λ o.
                      if leb 3 (suc n)
                      then o ++ edit_warning (basename (absolute_path env p)) (suc n) ∷ []
                      else o)
                    (part_memory-stderr d w)))
