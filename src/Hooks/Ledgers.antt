-- ===== src/Hooks/Ledgers.antt =====
-- What .wolf/hooks/stop.js does to token-ledger.json.
use efipix.Prelude.{
  ℕ, ◌+◌, ◌*◌, true, false, ◌&&◌, some, List, [], ◌∷◌, ◌++◌, ◌==◌, ◌≡◌, refl, ap, ◌∙◌, arith, subst,
  length,
}
use efipix.Object.{Object}
use efipix.World.{
  Env, Time, Session, World, ReadInfo, WriteInfo, Ledger, SessionEntry, num, inc, plus, saved,
}
use efipix.Hooks.Common.{write_session, saved_session}
use efipix.Hooks.Stop
use efipix.Hooks.Stop.{
  stop, stop_lem, check_bug_logs, check_cerebrum, record_session, on_activity, add_to_ledger,
  add_lifetime, new_ledger, entry_of,
}

-- A session with these reads and writes, and a ledger with a list of sessions and this total of
-- reads.
pub record Ready (reads : Object ReadInfo) (writes : List WriteInfo) (n : ℕ) (w : World)
    : Type 0 where
  pub wolf : w.wolf_dir ≡ true
  pub session : Session
  pub has_session : w.session ≡ some session
  pub has_reads : session.files_read ≡ some reads
  pub has_writes : session.files_written ≡ some writes
  pub ledger : Ledger
  pub has_ledger : w.ledger ≡ some ledger
  pub entries : List SessionEntry
  pub has_entries : ledger.sessions ≡ some entries
  pub has_total : ledger.lifetime.total_reads ≡ num n

-- The checks only print.
pub bug_logs-ledger :
    (s : Session) (xs : List WriteInfo) (w : World) → (check_bug_logs s xs w).ledger ≡ w.ledger
unfolding check_bug_logs
bug_logs-ledger s xs w = ground arith

pub cerebrum-ledger :
    (now : Time) (xs : List WriteInfo) (w : World) → (check_cerebrum now xs w).ledger ≡ w.ledger
unfolding check_cerebrum
cerebrum-ledger now xs w = ground arith

bug_logs-wolf :
    (s : Session) (xs : List WriteInfo) (w : World) → (check_bug_logs s xs w).wolf_dir ≡ w.wolf_dir
unfolding check_bug_logs
bug_logs-wolf s xs w = ground arith

cerebrum-wolf :
    (now : Time) (xs : List WriteInfo) (w : World) → (check_cerebrum now xs w).wolf_dir ≡ w.wolf_dir
unfolding check_cerebrum
cerebrum-wolf now xs w = ground arith

module _ (now : Time) (s : Session) (reads : Object ReadInfo) (writes : List WriteInfo) (l : Ledger)
    (es : List SessionEntry) (w : World) where
  abbrev new_entries : Ledger
  new_entries = record {
    lifetime = add_lifetime s reads writes l.lifetime;
    sessions = some (es ++ entry_of now s reads writes ∷ []);
  }

  added-ledger : (add_to_ledger now s reads writes l es w).ledger ≡ some new_entries
  unfolding add_to_ledger
  added-ledger = ground arith

  added-wolf : (add_to_ledger now s reads writes l es w).wolf_dir ≡ w.wolf_dir
  unfolding add_to_ledger
  added-wolf = ground arith

  record_session-eq :
      w.ledger ≡ some l
      → l.sessions ≡ some es
      → record_session now s reads writes w
        ≡ write_session s (add_to_ledger now s reads writes l es w)
  unfolding record_session
  record_session-eq e e' = simp (record_session, e, e') refl

abbrev pub stopped : Session → Session
stopped s = record s { stop_count = inc s.stop_count }

module _ (reads : Object ReadInfo) (writes : List WriteInfo)
    (active : (length reads == 0 && length writes == 0) ≡ false) where
  abbrev checked : Env → Session → World → World
  checked env s w = check_cerebrum env.now writes (check_bug_logs s writes w)

  checked-ledger : (env : Env) (s : Session) (w : World) → (checked env s w).ledger ≡ w.ledger
  checked-ledger env s w = cerebrum-ledger env.now writes _ ∙ bug_logs-ledger s writes w

  checked-wolf : (env : Env) (s : Session) (w : World) → (checked env s w).wolf_dir ≡ w.wolf_dir
  checked-wolf env s w = cerebrum-wolf env.now writes _ ∙ bug_logs-wolf s writes w

  in_session-eq :
      (now : Time) (s : Session) (w : World)
      → s.files_read ≡ some reads
      → s.files_written ≡ some writes
      → Stop.in_session now s w
        ≡ record_session now s reads writes (check_cerebrum now writes (check_bug_logs s writes w))
  unfolding Stop.in_session on_activity
  in_session-eq now s w e e' = simp (Stop.in_session, e, e', on_activity, active) refl

  module _ (env : Env) (n : ℕ) (w : World) (r : Ready reads writes n w) where
    -- what a stop comes to
    abbrev after : World
    after =
        add_to_ledger env.now (stopped r.session) reads writes r.ledger r.entries
          (checked env (stopped r.session) w)

    stop-eq : stop env w ≡ write_session (stopped r.session) after
    stop-eq =
        simp (stop_lem env w, r.wolf, r.has_session)
          (in_session-eq env.now (stopped r.session) w r.has_reads r.has_writes
            ∙ record_session-eq env.now (stopped r.session) reads writes r.ledger r.entries
                (checked env (stopped r.session) w)
                (checked-ledger env (stopped r.session) w ∙ r.has_ledger) r.has_entries)

    written-Ready : Ready reads writes (n + length reads) (write_session (stopped r.session) after)
    unfolding add_lifetime saved_session
    written-Ready = record {
      wolf = added-wolf _ _ _ _ _ _ _ ∙ (checked-wolf env (stopped r.session) w ∙ r.wolf);
      session = saved_session (stopped r.session);
      has_session = refl;
      has_reads = r.has_reads;
      has_writes = r.has_writes;
      ledger = new_entries env.now (stopped r.session) reads writes r.ledger r.entries w;
      has_ledger = added-ledger _ _ _ _ _ _ _;
      entries = _;
      has_entries = refl;
      has_total = ap (λ x. saved (plus x (num (length reads)))) r.has_total;
    }

    pub stop-Ready : Ready reads writes (n + length reads) (stop env w)
    stop-Ready = rw stop-eq written-Ready

-- The agent stops at each of these times.
abbrev pub stops : List Env → World → World
stops [] w = w
stops (env ∷ envs) w = stops envs (stop env w)

-- Where a session has reads or writes, and the ledger has its list of sessions and a total of reads, a
-- session that stops several times adds all its reads to the total at each stop.
pub stops-Ready :
    (envs : List Env) (reads : Object ReadInfo) (writes : List WriteInfo) (n : ℕ) (w : World)
    → (length reads == 0 && length writes == 0) ≡ false
    → Ready reads writes n w
    → Ready reads writes (n + length envs * length reads) (stops envs w)
stops-Ready [] reads writes n w active r = subst (λ m. Ready reads writes m w) (omega arith) r
stops-Ready (env ∷ envs) reads writes n w active r =
    subst (λ m. Ready reads writes m (stops envs (stop env w))) (omega arith)
      (stops-Ready envs reads writes (n + length reads) (stop env w) active
        (stop-Ready reads writes active env n w r))

stop-in_session :
    (env : Env) (w : World) (s : Session)
    → w.wolf_dir ≡ true
    → w.session ≡ some s
    → stop env w ≡ Stop.in_session env.now (stopped s) w
stop-in_session env w s h e = simp (stop_lem env w, h, e) refl
