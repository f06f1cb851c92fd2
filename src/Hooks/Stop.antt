-- ===== src/Hooks/Stop.antt =====
-- .wolf/hooks/stop.js: the agent stops, which can happen many times in a session.
use efipix.Prelude.{
  ◌≡◌, refl, ℕ, ◌+◌, ◌-◌, ◌*◌, ◌/◌, Bool, false, not, ◌&&◌, none, some, List, [], ◌∷◌, ◌++◌, map,
  ◌==◌, ltb, leb, if◌then◌else◌, length, keep, take, any,
}
use efipix.Text.{Text, codes, includes, join}
use efipix.Text.Decimal.{show}
use efipix.NodePath.{basename}
use efipix.Tokens.{one_of}
use efipix.Regex.Build.{unique, unique_onto}
use efipix.Object.{Object}
use efipix.World.{
  Env, Time, Session, World, Ledger, Lifetime, SessionEntry, LedgerRead, LedgerWrite, ReadInfo,
  WriteInfo, Edits, times, spoiled, num, inc, plus, times_num, saved, warn, append_memory,
  or_default, time_short,
}
use efipix.Hooks.Common.{write_session, saved_session, warning_sign}

abbrev pub new_session : Session
new_session = record {
  session_id = some [];
  started = some [];
  files_read = some [];
  files_written = some [];
  edit_counts = some [];
  anatomy_hits = num 0;
  anatomy_misses = num 0;
  repeated_reads_warned = num 0;
  cerebrum_warnings = num 0;
  stop_count = num 0;
}

abbrev pub new_ledger : Ledger
new_ledger = record {
  lifetime = record {
    total_tokens_estimated = num 0;
    total_reads = num 0;
    total_writes = num 0;
    total_sessions = num 0;
    anatomy_hits = num 0;
    anatomy_misses = num 0;
    repeated_reads_blocked = num 0;
    estimated_savings_vs_bare_cli = num 0;
  };
  sessions = some [];
}

-- `count >= 3`; a spoiled count is no number
abbrev is_often : Text × Edits → Bool
is_often (file, times n) = leb 3 n
is_often (file, spoiled) = false

abbrev names : List Text → Text
names fs = join fs (codes ", ")

-- `checkForMissingBugLogs`
unfoldable pub check_bug_logs : Session → List WriteInfo → World → World
check_bug_logs s writes w = elim s.edit_counts [
  | none ↦ w
  | some counts ↦
      let often = map (λ p. basename p.0) (keep is_often counts) in
      let logged = any (λ x. includes x.file (codes "buglog.json")) writes in
      if ltb 0 (length often) && not logged
      then warn
          (warning_sign
            ++ codes " OpenWolf: Files edited 3+ times this session ("
            ++ (names often
                ++ codes
                    ") but buglog.json was not updated. If you fixed bugs, please log them.\n"))
          w
      else w
]

-- milliseconds in an hour
abbrev hour : ℕ
hour = 3600000

-- `checkCerebrumFreshness`
unfoldable pub check_cerebrum : Time → List WriteInfo → World → World
check_cerebrum now writes w = elim w.cerebrum [
  | none ↦ w
  | some c ↦
      if ltb (24 * hour) (now.ms - c.mtime) && leb 3 (length writes)
      then warn
          (codes "💡 OpenWolf: cerebrum.md hasn't been updated in "
            ++ (show ((now.ms - c.mtime) / hour)
                ++ codes
                    "h. Did you learn any user preferences, conventions, or gotchas this session? Consider updating .wolf/cerebrum.md.\n"))
          w
      else w
]

abbrev pub read_of : Text × ReadInfo → LedgerRead
read_of (file, r) = record {
  file = file;
  tokens_estimated = r.tokens;
  was_repeated = ltb 1 r.count;
}

abbrev pub write_of : WriteInfo → LedgerWrite
write_of x = record { file = x.file; tokens_estimated = x.tokens; action = x.action }

abbrev pub sum_reads : Object ReadInfo → ℕ
sum_reads [] = 0
sum_reads ((file, r) ∷ o) = r.tokens + sum_reads o

abbrev pub sum_writes : List WriteInfo → ℕ
sum_writes [] = 0
sum_writes (x ∷ xs) = x.tokens + sum_writes xs

-- tokens of the repeated reads, which the hooks count as saved
abbrev pub sum_repeats : Object ReadInfo → ℕ
sum_repeats [] = 0
sum_repeats ((file, r) ∷ o) =
    (if ltb 1 r.count then r.tokens * (r.count - 1) else 0) + sum_repeats o

abbrev pub entry_of : Time → Session → Object ReadInfo → List WriteInfo → SessionEntry
entry_of now s reads writes = record {
  id = s.session_id;
  started = s.started;
  ended = now.iso;
  reads = map read_of reads;
  writes = map write_of writes;
  input_tokens_estimated = sum_reads reads;
  output_tokens_estimated = sum_writes writes;
  reads_count = length reads;
  writes_count = length writes;
  repeated_reads_blocked = saved s.repeated_reads_warned;
  anatomy_lookups = saved s.anatomy_hits;
}

unfoldable pub add_lifetime : Session → Object ReadInfo → List WriteInfo → Lifetime → Lifetime
add_lifetime s reads writes l = record l {
  total_reads = saved (plus l.total_reads (num (length reads)));
  total_writes = saved (plus l.total_writes (num (length writes)));
  total_tokens_estimated =
      saved (plus l.total_tokens_estimated (num (sum_reads reads + sum_writes writes)));
  anatomy_hits = saved (plus l.anatomy_hits s.anatomy_hits);
  anatomy_misses = saved (plus l.anatomy_misses s.anatomy_misses);
  repeated_reads_blocked = saved (plus l.repeated_reads_blocked s.repeated_reads_warned);
  estimated_savings_vs_bare_cli = saved (
      plus l.estimated_savings_vs_bare_cli
        (plus (times_num s.anatomy_hits 200) (num (sum_repeats reads))));
}

unfoldable pub summary : Time → Object ReadInfo → List WriteInfo → Text
summary now reads writes =
    let files = unique (map (λ x. basename x.file) writes) in
    codes "| "
    ++ (time_short now
        ++ (codes " | Session end: "
            ++ (show (length writes)
                ++ (codes " writes across "
                    ++ (show (length files)
                        ++ (codes " files ("
                            ++ (names (take 5 files)
                                ++ (codes ") | "
                                    ++ (show (length reads)
                                        ++ (codes " reads | ~"
                                            ++ (show (sum_reads reads + sum_writes writes)
                                                ++ codes " tok |\n")))))))))))

-- `ledger.sessions.push(…)`, the lifetime totals, and the summary in memory.md
unfoldable pub add_to_ledger :
    Time → Session → Object ReadInfo → List WriteInfo → Ledger → List SessionEntry → World → World
add_to_ledger now s reads writes l es w =
    let w' = record w {
      ledger = some (record {
        lifetime = add_lifetime s reads writes l.lifetime;
        sessions = some (es ++ entry_of now s reads writes ∷ []);
      });
    } in
    if ltb 0 (length writes) then append_memory (summary now reads writes) w' else w'

-- A ledger without a list of sessions makes `ledger.sessions.push` throw, and the hook exits with
-- nothing more written.
unfoldable pub record_session : Time → Session → Object ReadInfo → List WriteInfo → World → World
record_session now s reads writes w =
    let l = or_default new_ledger w.ledger in
    elim l.sessions [
      | none ↦ w
      | some es ↦ write_session s (add_to_ledger now s reads writes l es w)
    ]

unfoldable pub on_activity : Time → Session → Object ReadInfo → List WriteInfo → World → World
on_activity now s reads writes w =
    if length reads == 0 && length writes == 0
    then write_session s w
    else record_session now s reads writes (check_cerebrum now writes (check_bug_logs s writes w))

-- A missing `files_read` or `files_written` throws.
unfoldable pub in_session : Time → Session → World → World
in_session now s w = elim s.files_read [
  | none ↦ w
  | some reads ↦ elim s.files_written [ none ↦ w | some writes ↦ on_activity now s reads writes w ]
]

unfoldable pub stop : Env → World → World
unfolding in_session on_activity record_session add_to_ledger summary unique_onto add_lifetime
    check_cerebrum check_bug_logs saved_session show time_short basename includes one_of join
stop env w =
    let s = or_default new_session w.session in
    if w.wolf_dir then in_session env.now (record s { stop_count = inc s.stop_count }) w else w

pub stop_lem :
    (env : Env) (w : World)
    → stop env w ≡ (
        let s = or_default new_session w.session in
        if w.wolf_dir then in_session env.now (record s { stop_count = inc s.stop_count }) w else w)
unfolding stop
stop_lem env w = refl
