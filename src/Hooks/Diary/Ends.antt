-- ===== src/Hooks/Diary/Ends.antt =====
-- A stop and a start append to memory.md: .wolf/hooks/stop.js and .wolf/hooks/session-start.js.
use efipix.Prelude.{
  Option, List, [], ◌∷◌, ◌≡◌, refl, ◌∙◌, arith, Option-cases, Bool-cases, inl, inr, ltb, length,
}
use efipix.Object.{Object}
use efipix.World.{
  Env, Time, Session, World, ReadInfo, WriteInfo, Cerebrum, Bug, Ledger, SessionEntry, or_default,
  append_memory,
}
use efipix.Hooks.Common.{write_session}
use efipix.Hooks.Stop
use efipix.Hooks.Stop.{
  stop, stop_lem, on_activity, record_session, add_to_ledger, summary, check_bug_logs,
  check_cerebrum, new_ledger,
}
use efipix.Hooks.SessionStart
use efipix.Hooks.SessionStart.{
  session_start, session_start_lem, start_session, count_session, no_bugs, header, fresh_session,
}
use efipix.Hooks.Diary.{Appends, kept, appended, Appends-trans, Appends-if}

bug_logs-memory :
    (s : Session) (xs : List WriteInfo) (w : World) → (check_bug_logs s xs w).memory ≡ w.memory
unfolding check_bug_logs
bug_logs-memory s xs w = ground arith

cerebrum-memory :
    (now : Time) (xs : List WriteInfo) (w : World) → (check_cerebrum now xs w).memory ≡ w.memory
unfolding check_cerebrum
cerebrum-memory now xs w = ground arith

module _ (now : Time) (s : Session) (reads : Object ReadInfo) (xs : List WriteInfo) where
  ledger-Appends :
      (l : Ledger) (es : List SessionEntry) (w : World)
      → Appends w (add_to_ledger now s reads xs l es w)
  unfolding add_to_ledger
  ledger-Appends l es w = elim (Bool-cases (ltb 0 (length xs))) [
    | inl e ↦ rw (add_to_ledger, e) (appended w _ (summary now reads xs) refl)
    | inr e ↦ rw (add_to_ledger, e) (kept w _ refl)
  ]

  record_session-Appends : (w : World) → Appends w (record_session now s reads xs w)
  unfolding record_session
  record_session-Appends w = elim (Option-cases (or_default new_ledger w.ledger).sessions) [
    | inl e ↦ simp (record_session, e) (kept w w refl)
    | inr (es, e) ↦
        let a = ledger-Appends (or_default new_ledger w.ledger) es w in
        simp (record_session, e) (appended w _ a.text a.appends)
  ]

  on_activity-Appends : (w : World) → Appends w (on_activity now s reads xs w)
  unfolding on_activity
  on_activity-Appends w =
      let checked = check_cerebrum now xs (check_bug_logs s xs w) in
      Appends-if _ w (write_session s w) (record_session now s reads xs checked) (kept w _ refl) (
        Appends-trans w checked _
          (kept w checked (cerebrum-memory now xs (check_bug_logs s xs w) ∙ bug_logs-memory s xs w))
          (record_session-Appends checked))

stop_session-Appends : (now : Time) (s : Session) (w : World) → Appends w (Stop.in_session now s w)
unfolding Stop.in_session
stop_session-Appends now s w = elim (Option-cases s.files_read) [
  | inl e ↦ simp (Stop.in_session, e) (kept w w refl)
  | inr (reads, e) ↦ elim (Option-cases s.files_written) [
    | inl e' ↦ simp (Stop.in_session, e, e') (kept w w refl)
    | inr (xs, e') ↦ simp (Stop.in_session, e, e') (on_activity-Appends now s reads xs w)
  ]
]

pub stop-Appends : (env : Env) (w : World) → Appends w (stop env w)
stop-Appends env w =
    simp (stop_lem env w)
      (Appends-if w.wolf_dir w _ w (stop_session-Appends env.now _ w) (kept w w refl))

started-memory :
    (now : Time) (c : Option Cerebrum) (w : World)
    → (SessionStart.check_cerebrum now c w).memory ≡ w.memory
unfolding SessionStart.check_cerebrum
started-memory now c w = ground arith

no_bugs-memory : (bs : List Bug) (w : World) → (no_bugs bs w).memory ≡ w.memory
no_bugs-memory [] w = refl
no_bugs-memory (b ∷ bs) w = refl

start_session-Appends : (env : Env) (w : World) → Appends w (start_session env w)
unfolding start_session count_session
start_session-Appends env w =
    let opened = append_memory (header env.now) (write_session (fresh_session env.now) w) in
    let checked = SessionStart.check_cerebrum env.now opened.cerebrum opened in
    appended w (start_session env w) (header env.now) (
      no_bugs-memory (or_default [] checked.buglog) checked
      ∙ started-memory env.now opened.cerebrum opened)

pub session_start-Appends : (env : Env) (w : World) → Appends w (session_start env w)
session_start-Appends env w =
    simp (session_start_lem env w) (
      Appends-if w.wolf_dir w (start_session env w) w (start_session-Appends env w) (kept w w refl))
