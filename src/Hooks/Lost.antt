-- ===== src/Hooks/Lost.antt =====
-- The ledger that .wolf/hooks/session-start.js makes where there is none has no list of sessions.
mod Untouched
use efipix.Hooks.Lost.Untouched.{
  if-ledger, pre_read-ledger, post_read-ledger, post_write-ledger, count_session-ledger,
  started-ledger, no_bugs-ledger,
}
use efipix.Prelude.{
  Bool, true, false, none, some, List, [], ◌≡◌, refl, ap, ◌∙◌, Option-cases, inl, inr,
  if◌then◌else◌,
}
use efipix.Object.{Object}
use efipix.World.{Env, Time, Session, World, ReadInfo, WriteInfo, Ledger, or_default, append_memory}
use efipix.Hooks.Common.{write_session}
use efipix.Hooks.PreRead
use efipix.Hooks.PostRead
use efipix.Hooks.Prints.{pre_write-OnlyPrints}
use efipix.Hooks.PostWrite
use efipix.Hooks.Stop
use efipix.Hooks.Stop.{
  stop, stop_lem, on_activity, record_session, check_bug_logs, check_cerebrum, new_ledger,
}
use efipix.Hooks.SessionStart
use efipix.Hooks.SessionStart.{
  session_start, session_start_lem, start_session, fresh_session, header, count_session, no_bugs,
}
use efipix.Hooks.Ledgers.{bug_logs-ledger, cerebrum-ledger}
use efipix.Hooks.Reachable.{
  Step, reading, has_read, writing, has_written, stopping, starting, Reachable, begun, after,
}

-- the ledger exists and has no list of sessions
pub record LacksSessions (w : World) : Type 0 where
  pub ledger : Ledger
  pub has_ledger : w.ledger ≡ some ledger
  pub no_sessions : ledger.sessions ≡ none

same-LacksSessions : (w w' : World) → w'.ledger ≡ w.ledger → LacksSessions w → LacksSessions w'
same-LacksSessions w w' e k = record {
  ledger = k.ledger;
  has_ledger = e ∙ k.has_ledger;
  no_sessions = k.no_sessions;
}

record_session-ledger :
    (now : Time) (s : Session) (reads : Object ReadInfo) (xs : List WriteInfo) (w : World)
    → LacksSessions w
    → (record_session now s reads xs w).ledger ≡ w.ledger
unfolding record_session
record_session-ledger now s reads xs w k = simp (record_session, k.has_ledger, k.no_sessions) refl

on_activity-ledger :
    (now : Time) (s : Session) (reads : Object ReadInfo) (xs : List WriteInfo) (w : World)
    → LacksSessions w
    → (on_activity now s reads xs w).ledger ≡ w.ledger
unfolding on_activity
on_activity-ledger now s reads xs w k =
    let checked = cerebrum-ledger now xs (check_bug_logs s xs w) ∙ bug_logs-ledger s xs w in
    if-ledger _ w (write_session s w) _ refl
      (record_session-ledger now s reads xs _ (same-LacksSessions w _ checked k) ∙ checked)

stop_session-ledger :
    (now : Time) (s : Session) (w : World)
    → LacksSessions w
    → (Stop.in_session now s w).ledger ≡ w.ledger
unfolding Stop.in_session
stop_session-ledger now s w k = elim (Option-cases s.files_read) [
  | inl e ↦ simp (Stop.in_session, e) refl
  | inr (reads, e) ↦ elim (Option-cases s.files_written) [
    | inl e' ↦ simp (Stop.in_session, e, e') refl
    | inr (xs, e') ↦ simp (Stop.in_session, e, e') (on_activity-ledger now s reads xs w k)
  ]
]

stop-ledger : (env : Env) (w : World) → LacksSessions w → (stop env w).ledger ≡ w.ledger
stop-ledger env w k =
    simp (stop_lem env w) (if-ledger w.wolf_dir w _ w (stop_session-ledger env.now _ w k) refl)

-- Counting the session in a ledger that lacks the list, or where there is none, gives no list.
count_session-LacksSessions :
    (w : World)
    → (or_default SessionStart.new_ledger w.ledger).sessions ≡ none
    → LacksSessions (count_session w)
count_session-LacksSessions w e = record {
  ledger = _;
  has_ledger = count_session-ledger w;
  no_sessions = e;
}

start_session-LacksSessions :
    (env : Env) (w : World)
    → (or_default SessionStart.new_ledger w.ledger).sessions ≡ none
    → LacksSessions (start_session env w)
unfolding start_session
start_session-LacksSessions env w e =
    let opened = append_memory (header env.now) (write_session (fresh_session env.now) w) in
    let checked = SessionStart.check_cerebrum env.now opened.cerebrum opened in
    let printed = no_bugs (or_default [] checked.buglog) checked in
    let kept : printed.ledger ≡ w.ledger =
      no_bugs-ledger (or_default [] checked.buglog) checked
      ∙ started-ledger env.now opened.cerebrum opened in
    count_session-LacksSessions printed
      (ap (λ o. (or_default SessionStart.new_ledger o).sessions) kept ∙ e)

start-LacksSessions :
    (env : Env) (w : World)
    → w.wolf_dir ≡ true
    → (or_default SessionStart.new_ledger w.ledger).sessions ≡ none
    → LacksSessions (session_start env w)
start-LacksSessions env w h e =
    simp (session_start_lem env w, h) (start_session-LacksSessions env w e)

if-LacksSessions :
    (b : Bool) (w v : World)
    → LacksSessions w
    → LacksSessions v
    → LacksSessions (if b then w else v)
if-LacksSessions true w v p q = p
if-LacksSessions false w v p q = q

restart-LacksSessions :
    (env : Env) (w : World) → LacksSessions w → LacksSessions (session_start env w)
restart-LacksSessions env w k = simp (session_start_lem env w) (
    if-LacksSessions w.wolf_dir (start_session env w) w
      (start_session-LacksSessions env w
        (ap (λ o. (or_default SessionStart.new_ledger o).sessions) k.has_ledger ∙ k.no_sessions))
      k)

Step-LacksSessions : (w w' : World) → Step w w' → LacksSessions w → LacksSessions w'
Step-LacksSessions w _ (reading env i _) k = same-LacksSessions w _ (pre_read-ledger env i w) k
Step-LacksSessions w _ (has_read env i _) k = same-LacksSessions w _ (post_read-ledger env i w) k
Step-LacksSessions w _ (writing i _) k =
    same-LacksSessions w _ (ap (λ v. v.ledger) (pre_write-OnlyPrints i w).1) k
Step-LacksSessions w _ (has_written env i d _) k =
    same-LacksSessions w _ (post_write-ledger env i d w) k
Step-LacksSessions w _ (stopping env _) k = same-LacksSessions w _ (stop-ledger env w k) k
Step-LacksSessions w _ (starting env _) k = restart-LacksSessions env w k

-- Where .wolf/ exists and token-ledger.json does not, every state that the hooks reach from the start of
-- a session, in any order and with any inputs, has a ledger without a list of sessions: no stop ever
-- records one.
pub Reachable-LacksSessions :
    (start w : World)
    → start.wolf_dir ≡ true
    → start.ledger ≡ none
    → Reachable start w
    → LacksSessions w
Reachable-LacksSessions start _ h e (begun env) =
    start-LacksSessions env start h (ap (λ o. (or_default SessionStart.new_ledger o).sessions) e)
Reachable-LacksSessions start w h e (after v _ r s) =
    Step-LacksSessions v w s (Reachable-LacksSessions start v h e r)
