-- ===== src/Hooks/Lost/Untouched.antt =====
-- The hooks that leave the ledger of the .wolf directory alone, and the parts of the others that do.
use efipix.Prelude.{
  Bool, true, false, Option, none, some, List, [], ◌∷◌, ◌≡◌, refl, ap, arith, Option-cases, inl,
  inr, if◌then◌else◌,
}
use efipix.Text.{Text}
use efipix.Object.{Object}
use efipix.World.{
  Env, Time, Session, World, Input, input_path, ReadInfo, Cerebrum, Bug, saved, or_default, inc,
}
use efipix.Hooks.Common.{is_internal}
use efipix.Hooks.Keeps.{pre_read_lem, pre_read-none}
use efipix.Hooks.PreRead
use efipix.Hooks.PreRead.{pre_read, on_first_read, on_read}
use efipix.Hooks.PostRead
use efipix.Hooks.PostRead.{post_read}
use efipix.Hooks.PostWrite
use efipix.Hooks.PostWrite.{post_write, Written, on_write}
use efipix.Hooks.SessionStart
use efipix.Hooks.SessionStart.{count_session, no_bugs}

pub if-ledger :
    (b : Bool) (w v u : World)
    → v.ledger ≡ w.ledger
    → u.ledger ≡ w.ledger
    → (if b then v else u).ledger ≡ w.ledger
if-ledger true w v u e e' = e
if-ledger false w v u e e' = e'

module _ (env : Env) (file : Text) (s : Session) (w : World) where
  on_first_read-ledger :
      (reads : Object ReadInfo) → (on_first_read env file s reads w).ledger ≡ w.ledger
  unfolding on_first_read
  on_first_read-ledger reads = ground arith

  on_read-ledger : (reads : Object ReadInfo) → (on_read env file s reads w).ledger ≡ w.ledger
  unfolding on_read
  on_read-ledger reads = ground (arith, on_first_read-ledger reads)

  in_session-ledger : (PreRead.in_session env file s w).ledger ≡ w.ledger
  unfolding PreRead.in_session
  in_session-ledger = elim (Option-cases s.files_read) [
    | inl e ↦ simp (PreRead.in_session, e) refl
    | inr (reads, e) ↦ simp (PreRead.in_session, e) (on_read-ledger reads)
  ]

on_path-ledger : (env : Env) (p : Text) (w : World) → (PreRead.on_path env p w).ledger ≡ w.ledger
unfolding PreRead.on_path
on_path-ledger env [] w = refl
on_path-ledger env (c ∷ p) w =
    if-ledger (is_internal env _) w w _ refl (in_session-ledger env _ _ w)

pub pre_read-ledger :
    (env : Env) (i : Option Input) (w : World) → (pre_read env i w).ledger ≡ w.ledger
pre_read-ledger env none w = ap (λ v. v.ledger) (pre_read-none env w)
pre_read-ledger env (some i) w = simp (pre_read_lem env w i) (
    if-ledger w.wolf_dir w (PreRead.on_path env (input_path i) w) w
      (on_path-ledger env (input_path i) w) refl)

pub post_read-ledger :
    (env : Env) (i : Option Input) (w : World) → (post_read env i w).ledger ≡ w.ledger
unfolding post_read PostRead.on_path PostRead.in_session
post_read-ledger env i w = ground arith

pub post_write-ledger :
    (env : Env) (i : Option Input) (d : Written) (w : World)
    → (post_write env i d w).ledger ≡ w.ledger
unfolding post_write on_write PostWrite.in_session
post_write-ledger env i d w = ground arith

pub count_session-ledger :
    (w : World)
    → (count_session w).ledger
      ≡ some (record (or_default SessionStart.new_ledger w.ledger) {
        lifetime = record (or_default SessionStart.new_ledger w.ledger).lifetime {
          total_sessions =
              saved (inc (or_default SessionStart.new_ledger w.ledger).lifetime.total_sessions);
        };
      })
unfolding count_session
count_session-ledger w = refl

pub started-ledger :
    (now : Time) (c : Option Cerebrum) (w : World)
    → (SessionStart.check_cerebrum now c w).ledger ≡ w.ledger
unfolding SessionStart.check_cerebrum
started-ledger now c w = ground arith

pub no_bugs-ledger : (bs : List Bug) (w : World) → (no_bugs bs w).ledger ≡ w.ledger
no_bugs-ledger [] w = refl
no_bugs-ledger (b ∷ bs) w = refl
