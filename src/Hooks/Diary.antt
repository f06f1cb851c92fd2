-- ===== src/Hooks/Diary.antt =====
-- memory.md of .wolf/: the hooks only append to it.
pub mod Ends
pub mod Grows
use efipix.Prelude.{
  Bool, true, false, Option, none, some, List, [], ◌∷◌, ◌++◌, append_assoc, append-nil, ◌≡◌, refl,
  sym, ap, ◌∙◌, arith, Option-cases, Bool-cases, inl, inr, if◌then◌else◌, ltb, length,
}
use efipix.Text.{Text, to_lower}
use efipix.NodePath.{basename, extname}
use efipix.Object.{Object}
use efipix.Edit.Detect.{detect_fix_pattern}
use efipix.World.{
  Env, Time, Session, World, Input, input_path, ReadInfo, WriteInfo, Cerebrum, Bug, Ledger,
  SessionEntry, or_default, append_memory,
}
use efipix.Hooks.Common.{write_session, is_internal}
use efipix.Hooks.Keeps.{pre_read_lem, pre_read-none}
use efipix.Hooks.PreRead
use efipix.Hooks.PreRead.{pre_read, on_first_read, on_read}
use efipix.Hooks.PostRead
use efipix.Hooks.PostRead.{post_read}
use efipix.Hooks.PreWrite.{pre_write}
use efipix.Hooks.Prints.{pre_write-OnlyPrints}
use efipix.Hooks.PostWrite
use efipix.Hooks.PostWrite.{
  post_write, Written, on_write, is_skipped, memory_line, part_buglog, part_session, part_memory,
  part_anatomy, warn_often,
}
use efipix.Hooks.Stop
use efipix.Hooks.Stop.{
  stop, stop_lem, on_activity, record_session, add_to_ledger, summary, check_bug_logs,
  check_cerebrum, new_ledger,
}
use efipix.Hooks.SessionStart
use efipix.Hooks.SessionStart.{
  session_start, session_start_lem, start_session, count_session, no_bugs, header, fresh_session,
}
use efipix.Hooks.Reachable.{
  Step, reading, has_read, writing, has_written, stopping, starting, Reachable, begun, after,
}

-- the diary of `w'` is that of `w` with a text behind it
pub record Appends (w w' : World) : Type 0 where
  pub text : Text
  pub appends : w'.memory ≡ w.memory ++ text

kept : (w w' : World) → w'.memory ≡ w.memory → Appends w w'
kept w w' e = record { text = []; appends = e ∙ sym (append-nil w.memory) }

appended : (w w' : World) (t : Text) → w'.memory ≡ w.memory ++ t → Appends w w'
appended w w' t e = record { text = t; appends = e }

Appends-trans : (w v u : World) → Appends w v → Appends v u → Appends w u
Appends-trans w v u a b = record {
  text = a.text ++ b.text;
  appends = b.appends ∙ (ap (λ m. m ++ b.text) a.appends ∙ append_assoc w.memory a.text b.text);
}

Appends-if : (b : Bool) (w v u : World) → Appends w v → Appends w u → Appends w (if b then v else u)
Appends-if true w v u p q = p
Appends-if false w v u p q = q

memory-if :
    (b : Bool) (w v u : World)
    → v.memory ≡ w.memory
    → u.memory ≡ w.memory
    → (if b then v else u).memory ≡ w.memory
memory-if true w v u e e' = e
memory-if false w v u e e' = e'

module _ (env : Env) (file : Text) (s : Session) (w : World) where
  on_first_read-memory :
      (reads : Object ReadInfo) → (on_first_read env file s reads w).memory ≡ w.memory
  unfolding on_first_read
  on_first_read-memory reads = ground arith

  on_read-memory : (reads : Object ReadInfo) → (on_read env file s reads w).memory ≡ w.memory
  unfolding on_read
  on_read-memory reads = ground (arith, on_first_read-memory reads)

  in_session-memory : (PreRead.in_session env file s w).memory ≡ w.memory
  unfolding PreRead.in_session
  in_session-memory = elim (Option-cases s.files_read) [
    | inl e ↦ simp (PreRead.in_session, e) refl
    | inr (reads, e) ↦ simp (PreRead.in_session, e) (on_read-memory reads)
  ]

on_path-memory : (env : Env) (p : Text) (w : World) → (PreRead.on_path env p w).memory ≡ w.memory
unfolding PreRead.on_path
on_path-memory env [] w = refl
on_path-memory env (c ∷ p) w =
    memory-if (is_internal env _) w w _ refl (in_session-memory env _ _ w)

pre_read-memory : (env : Env) (i : Option Input) (w : World) → (pre_read env i w).memory ≡ w.memory
pre_read-memory env none w = ap (λ v. v.memory) (pre_read-none env w)
pre_read-memory env (some i) w = simp (pre_read_lem env w i) (
    memory-if w.wolf_dir w (PreRead.on_path env (input_path i) w) w
      (on_path-memory env (input_path i) w) refl)

post_read-memory :
    (env : Env) (i : Option Input) (w : World) → (post_read env i w).memory ≡ w.memory
unfolding post_read PostRead.on_path PostRead.in_session
post_read-memory env i w = ground arith

part_anatomy-memory :
    (env : Env) (p : Text) (i : Input) (d : Written) (w : World)
    → (part_anatomy env p i d w).memory ≡ w.memory
part_anatomy-memory env p i d w = ground arith

part_session-memory :
    (env : Env) (p : Text) (i : Input) (w : World) → (part_session env p i w).memory ≡ w.memory
unfolding PostWrite.in_session
part_session-memory env p i w = ground arith

part_buglog-memory :
    (env : Env) (p : Text) (i : Input) (w : World) → (part_buglog env p i w).memory ≡ w.memory
part_buglog-memory env p i w = ground arith

on_write-Appends :
    (env : Env) (p : Text) (i : Input) (d : Written) (w : World) → Appends w (on_write env p i d w)
unfolding on_write
on_write-Appends env p i d w =
    let written = part_memory env p i (part_anatomy env p i d w) in
    appended w (on_write env p i d w) (memory_line env p i) (
      part_buglog-memory env p i (part_session env p i written)
      ∙ (part_session-memory env p i written
          ∙ ap (λ m. m ++ memory_line env p i) (part_anatomy-memory env p i d w)))

write_path-Appends :
    (env : Env) (p : Text) (i : Input) (d : Written) (w : World)
    → Appends w (PostWrite.on_path env p i d w)
write_path-Appends env [] i d w = kept w w refl
write_path-Appends env (c ∷ p) i d w =
    Appends-if (is_skipped env (c ∷ p)) w w _ (kept w w refl) (on_write-Appends env (c ∷ p) i d w)

post_write-Appends :
    (env : Env) (i : Option Input) (d : Written) (w : World) → Appends w (post_write env i d w)
unfolding post_write
post_write-Appends env none d w = kept w w refl
post_write-Appends env (some i) d w =
    Appends-if w.wolf_dir w (PostWrite.on_path env (input_path i) i d w) w
      (write_path-Appends env (input_path i) i d w) (kept w w refl)
