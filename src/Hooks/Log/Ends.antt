-- ===== src/Hooks/Log/Ends.antt =====
-- The writes, the stops and the starts as events: .wolf/hooks/post-write.js, .wolf/hooks/stop.js and
-- .wolf/hooks/session-start.js.
use efipix.Prelude.{
  Bool, true, false, none, some, List, [], ◌∷◌, ◌++◌, ◌≡◌, ◌⊎◌, inl, inr, refl, ap, ◌∙◌, sym, arith,
  Option-cases, if◌then◌else◌, length-append, subst,
}
use efipix.Text.{Text}
use efipix.NodePath.{basename}
use efipix.Object.{find_own}
use efipix.World.{
  Env, Time, Session, World, Input, WriteInfo, Bug, input_path, or_default, append_memory, inc,
}
use efipix.Hooks.Common.{write_session, saved_session}
use efipix.Hooks.Tracks.{IsTracked}
use efipix.Hooks.PostWrite
use efipix.Hooks.PostWrite.{
  post_write, Written, on_write, is_skipped, relative_path, absolute_path, count_edit, part_session,
  part_buglog, write_info,
}
use efipix.Hooks.Often.{noted, noted_lem, in_session_lem, part_buglog-session, warn_often-session}
use efipix.Hooks.KeepsEnds.{started-session, cerebrum-session}
use efipix.Hooks.Stop
use efipix.Hooks.Stop.{
  stop, stop_lem, on_activity, record_session, check_bug_logs, new_ledger, add_to_ledger,
}
use efipix.Hooks.SessionStart
use efipix.Hooks.SessionStart.{
  session_start, session_start_lem, start_session, fresh_session, header, no_bugs, count_session,
}
use efipix.Hooks.Log.{
  Log, Event, idle, wrote, began, apply, Agree, Follows, log_of, log_in, log_with, saved-Follows,
  same-Follows, log_in_lem,
}

-- a write is what happens, or nothing
abbrev pub Writes : Log → World → Type 0
Writes l w = (e : Event) × ((e ≡ idle) ⊎ (e ≡ wrote)) × Follows e l w

module _ (w : World) (k : IsTracked w) where
  abbrev pub old : Log
  old = log_with k.tracks.reads k.tracks.writes

  pub log-tracked : log_of w ≡ old
  log-tracked =
      ap log_in k.has_session
      ∙ log_in_lem k.session k.tracks.reads k.tracks.writes k.tracks.has_reads k.tracks.has_writes

  pub session-Follows : (v : World) → v.session ≡ w.session → Follows idle old v
  session-Follows v e = same-Follows old v (ap log_in e ∙ log-tracked)

  module _ (env : Env) (i : Input) (d : Written) where
    on_write-Follows : (p : Text) → Follows wrote old (on_write env p i d w)
    unfolding on_write
    on_write-Follows p =
        let n = noted env p i d w k in
        let chain : log_of (on_write env p i d w)
            ≡ log_of (
                write_session
                  (record k.session {
                    files_written = some (k.tracks.writes ++ write_info env p i ∷ []);
                    edit_counts = some (count_edit (relative_path env p) k.tracks.counts);
                  })
                  n) =
          ap log_in (part_buglog-session env p i (part_session env p i n))
          ∙ (ap log_of (noted_lem env p i d w k)
              ∙ (ap log_of (in_session_lem env p i k.session k.tracks n)
                  ∙ ap log_in (
                      warn_often-session (basename (absolute_path env p)) (relative_path env p)
                        (count_edit (relative_path env p) k.tracks.counts) _))) in
        subst (λ m. Agree m (apply wrote old)) (sym chain)
          (saved-Follows wrote old _ n k.tracks.reads (k.tracks.writes ++ write_info env p i ∷ [])
            k.tracks.has_reads refl
            ((λ j. refl), length-append k.tracks.writes (write_info env p i ∷ [])))

    if-Writes :
        (b : Bool) (v u : World) → Writes old v → Writes old u → Writes old (if b then v else u)
    if-Writes true v u a c = a
    if-Writes false v u a c = c

    idle-Writes : Writes old w
    idle-Writes = (idle, inl refl, session-Follows w refl)

    on_path-Writes : (p : Text) → Writes old (PostWrite.on_path env p i d w)
    on_path-Writes [] = idle-Writes
    on_path-Writes (c ∷ p) =
        if-Writes (is_skipped env (c ∷ p)) w _ idle-Writes
          (wrote, inr refl, on_write-Follows (c ∷ p))

    pub post_write-Writes : Writes old (post_write env (some i) d w)
    unfolding post_write
    post_write-Writes =
        if-Writes w.wolf_dir (PostWrite.on_path env (input_path i) i d w) w
          (on_path-Writes (input_path i)) idle-Writes

  bug_logs-session :
      (s : Session) (xs : List WriteInfo) → (check_bug_logs s xs w).session ≡ w.session
  unfolding check_bug_logs
  bug_logs-session s xs = ground arith

  if-Follows :
      (b : Bool) (v u : World)
      → Follows idle old v
      → Follows idle old u
      → Follows idle old (if b then v else u)
  if-Follows true v u a c = a
  if-Follows false v u a c = c

  module _ (now : Time) (s : Session) (e : s.files_read ≡ some k.tracks.reads)
      (f : s.files_written ≡ some k.tracks.writes) where
    written-Follows : (v : World) → Follows idle old (write_session s v)
    written-Follows v =
        saved-Follows idle old s v k.tracks.reads k.tracks.writes e f ((λ j. refl), refl)

    record_session-Follows :
        (v : World)
        → v.session ≡ w.session
        → Follows idle old (record_session now s k.tracks.reads k.tracks.writes v)
    unfolding record_session
    record_session-Follows v g = elim (Option-cases (or_default new_ledger v.ledger).sessions) [
      | inl h ↦ simp (record_session, h) (session-Follows v g)
      | inr (es, h) ↦ simp (record_session, h) (written-Follows v)
    ]

    stop_session-Follows : Follows idle old (Stop.in_session now s w)
    unfolding Stop.in_session on_activity
    stop_session-Follows =
        simp (Stop.in_session, e, f)
          (if-Follows _ (write_session s w) _ (written-Follows w) (
            record_session-Follows _ (
              cerebrum-session now k.tracks.writes (check_bug_logs s k.tracks.writes w)
              ∙ bug_logs-session s k.tracks.writes)))

  pub stop-Follows : (env : Env) → Follows idle old (stop env w)
  stop-Follows env =
      simp (stop_lem env w, k.wolf, k.has_session)
        (stop_session-Follows env.now (record k.session { stop_count = inc k.session.stop_count })
          k.tracks.has_reads k.tracks.has_writes)

no_bugs-session : (bs : List Bug) (w : World) → (no_bugs bs w).session ≡ w.session
no_bugs-session [] w = refl
no_bugs-session (b ∷ bs) w = refl

start_session-Follows : (l : Log) (env : Env) (w : World) → Follows began l (start_session env w)
unfolding start_session count_session find_own saved_session
start_session-Follows l env w =
    let opened = append_memory (header env.now) (write_session (fresh_session env.now) w) in
    let checked = SessionStart.check_cerebrum env.now opened.cerebrum opened in
    let kept : (no_bugs (or_default [] checked.buglog) checked).session ≡ opened.session =
      no_bugs-session (or_default [] checked.buglog) checked
      ∙ started-session env.now opened.cerebrum opened in
    subst (λ m. Agree m (apply began l)) (sym (ap log_in kept)) ((λ j. refl), refl)

pub session_start-Follows :
    (l : Log) (env : Env) (w : World) → w.wolf_dir ≡ true → Follows began l (session_start env w)
session_start-Follows l env w h = simp (session_start_lem env w, h) (start_session-Follows l env w)

pub post_write-none : (env : Env) (d : Written) (w : World) → post_write env none d w ≡ w
unfolding post_write
post_write-none env d w = refl
