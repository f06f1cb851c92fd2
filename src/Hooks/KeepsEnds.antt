-- ===== src/Hooks/KeepsEnds.antt =====
-- The session begins tracked and stays so when the agent stops: .wolf/hooks/session-start.js and
-- .wolf/hooks/stop.js.
use efipix.Prelude.{
  ◌+◌, true, Option, List, [], ◌∷◌, ◌≡◌, refl, ap, ◌∙◌, arith, Option-cases, inl, inr,
}
use efipix.Object.{Object}
use efipix.World.{
  Env, Time, Session, World, Bug, Ledger, SessionEntry, Cerebrum, append_memory, ReadInfo,
  WriteInfo, inc, warn, or_default,
}
use efipix.Hooks.Common.{write_session}
use efipix.Hooks.Tracks.{Tracks, IsTracked, write_session-IsTracked}
use efipix.Hooks.Stop
use efipix.Hooks.Stop.{
  stop, add_to_ledger, stop_lem, check_bug_logs, record_session, on_activity, new_ledger,
}
use efipix.Hooks.SessionStart
use efipix.Hooks.SessionStart.{
  session_start, session_start_lem, start_session, no_bugs, header, count_session, fresh_session,
}
use efipix.Hooks.KeepsWrites.{same-IsTracked, if-IsTracked}

Tracks-stopped : (s : Session) (t : Tracks s) → Tracks (record s { stop_count = inc s.stop_count })
Tracks-stopped s t = record {
  reads = t.reads;
  writes = t.writes;
  counts = t.counts;
  hits = t.hits;
  misses = t.misses;
  warned = t.warned;
  stops = t.stops + 1;
  has_reads = t.has_reads;
  has_writes = t.has_writes;
  has_counts = t.has_counts;
  has_hits = t.has_hits;
  has_misses = t.has_misses;
  has_warned = t.has_warned;
  has_stops = ap inc t.has_stops;
  looked_up = t.looked_up;
  counted = t.counted;
  repeated = t.repeated;
  edited = t.edited;
}

Tracks-fresh : (now : Time) → Tracks (fresh_session now)
Tracks-fresh now = record {
  reads = [];
  writes = [];
  counts = [];
  hits = 0;
  misses = 0;
  warned = 0;
  stops = 0;
  has_reads = refl;
  has_writes = refl;
  has_counts = refl;
  has_hits = refl;
  has_misses = refl;
  has_warned = refl;
  has_stops = refl;
  looked_up = omega arith;
  counted = tt;
  repeated = omega arith;
  edited = omega arith;
}

module _ (now : Time) (c : Option Cerebrum) (w : World) where
  started-wolf : (SessionStart.check_cerebrum now c w).wolf_dir ≡ w.wolf_dir
  unfolding SessionStart.check_cerebrum
  started-wolf = ground arith

  pub started-session : (SessionStart.check_cerebrum now c w).session ≡ w.session
  unfolding SessionStart.check_cerebrum
  started-session = ground arith

  started-IsTracked : IsTracked w → IsTracked (SessionStart.check_cerebrum now c w)
  started-IsTracked k = same-IsTracked w _ started-wolf started-session k

no_bugs-IsTracked : (bs : List Bug) (w : World) → IsTracked w → IsTracked (no_bugs bs w)
no_bugs-IsTracked [] w k = same-IsTracked w _ refl refl k
no_bugs-IsTracked (b ∷ bs) w k = k

start_session-IsTracked :
    (env : Env) (w : World) → w.wolf_dir ≡ true → IsTracked (start_session env w)
unfolding start_session count_session
start_session-IsTracked env w h =
    let opened = append_memory (header env.now) (write_session (fresh_session env.now) w) in
    let fresh : IsTracked opened =
      same-IsTracked (write_session (fresh_session env.now) w) opened refl refl
        (write_session-IsTracked (fresh_session env.now) w h (Tracks-fresh env.now)) in
    let checked = SessionStart.check_cerebrum env.now opened.cerebrum opened in
    same-IsTracked (no_bugs (or_default [] checked.buglog) checked) _ refl refl
      (no_bugs-IsTracked _ checked (started-IsTracked env.now opened.cerebrum opened fresh))

pub session_start-IsTracked :
    (env : Env) (w : World) → w.wolf_dir ≡ true → IsTracked (session_start env w)
session_start-IsTracked env w h =
    simp (session_start_lem env w, h) (start_session-IsTracked env w h)

bug_logs-IsTracked :
    (s : Session) (xs : List WriteInfo) (w : World)
    → IsTracked w
    → IsTracked (check_bug_logs s xs w)
unfolding check_bug_logs
bug_logs-IsTracked s xs w k = elim (Option-cases s.edit_counts) [
  | inl e ↦ simp (check_bug_logs, e) k
  | inr (counts, e) ↦
      simp (check_bug_logs, e)
        (if-IsTracked _ (warn _ w) w (same-IsTracked w (warn _ w) refl refl k) k)
]

module _ (now : Time) (xs : List WriteInfo) (w : World) where
  cerebrum-wolf : (Stop.check_cerebrum now xs w).wolf_dir ≡ w.wolf_dir
  unfolding Stop.check_cerebrum
  cerebrum-wolf = ground arith

  pub cerebrum-session : (Stop.check_cerebrum now xs w).session ≡ w.session
  unfolding Stop.check_cerebrum
  cerebrum-session = ground arith

  cerebrum-IsTracked : IsTracked w → IsTracked (Stop.check_cerebrum now xs w)
  cerebrum-IsTracked k = same-IsTracked w _ cerebrum-wolf cerebrum-session k

module _ (now : Time) (s : Session) (t : Tracks s) (reads : Object ReadInfo)
    (xs : List WriteInfo) where
  ledger-wolf :
      (l : Ledger) (es : List SessionEntry) (w : World)
      → (add_to_ledger now s reads xs l es w).wolf_dir ≡ w.wolf_dir
  unfolding add_to_ledger
  ledger-wolf l es w = ground arith

  record_session-IsTracked : (w : World) → IsTracked w → IsTracked (record_session now s reads xs w)
  unfolding record_session
  record_session-IsTracked w k = elim (Option-cases (or_default new_ledger w.ledger).sessions) [
    | inl e ↦ simp (record_session, e) k
    | inr (es, e) ↦
        let l = or_default new_ledger w.ledger in
        simp (record_session, e)
          (write_session-IsTracked s (add_to_ledger now s reads xs l es w)
            (ledger-wolf l es w ∙ k.wolf) t)
  ]

  on_activity-IsTracked : (w : World) → IsTracked w → IsTracked (on_activity now s reads xs w)
  unfolding on_activity
  on_activity-IsTracked w k =
      if-IsTracked _ (write_session s w) _ (write_session-IsTracked s w k.wolf t)
        (record_session-IsTracked _ (cerebrum-IsTracked now xs _ (bug_logs-IsTracked s xs w k)))

stop_session-IsTracked :
    (now : Time) (s : Session) (t : Tracks s) (w : World)
    → IsTracked w
    → IsTracked (Stop.in_session now s w)
unfolding Stop.in_session
stop_session-IsTracked now s t w k =
    simp (Stop.in_session, t.has_reads, t.has_writes)
      (on_activity-IsTracked now s t t.reads t.writes w k)

pub stop-IsTracked : (env : Env) (w : World) → IsTracked w → IsTracked (stop env w)
stop-IsTracked env w k =
    simp (stop_lem env w, k.wolf, k.has_session)
      (stop_session-IsTracked env.now _ (Tracks-stopped k.session k.tracks) w k)
