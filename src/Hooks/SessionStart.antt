-- ===== src/Hooks/SessionStart.antt =====
-- .wolf/hooks/session-start.js: a session begins. The removal of .tmp files is in
-- Files: the state here has no such files.
use efipix.Prelude.{
  ◌≡◌, refl, ℕ, ◌-◌, ◌*◌, ◌/◌, Bool, ◌&&◌, ◌||◌, Option, none, some, List, [], ◌∷◌, ◌++◌, ltb,
  if◌then◌else◌, length, keep,
}
use efipix.Text.{Text, codes, prefix, split, trim, starts_with, includes}
use efipix.Text.Decimal.{show, pad_start}
use efipix.World.{
  Env, Time, Session, World, Cerebrum, Bug, Ledger, num, absent, inc, saved, warn, append_memory,
  or_default, time_short,
}
use efipix.Hooks.Common.{write_session, saved_session}

unfoldable pub session_id : Time → Text
session_id now =
    codes "session-"
    ++ (prefix 10 now.iso
        ++ (codes "-" ++ (pad_start (show now.hours) 2 ++ pad_start (show now.minutes) 2)))

abbrev pub fresh_session : Time → Session
fresh_session now = record {
  session_id = some (session_id now);
  started = some now.iso;
  files_read = some [];
  files_written = some [];
  edit_counts = some [];
  anatomy_hits = num 0;
  anatomy_misses = num 0;
  repeated_reads_warned = num 0;
  cerebrum_warnings = num 0;
  stop_count = num 0;
}

unfoldable pub header : Time → Text
header now =
    codes "\n## Session: "
    ++ (prefix 10 now.iso
        ++ (codes " "
            ++ (time_short now
                ++ codes
                    "\n\n| Time | Action | File(s) | Outcome | ~Tokens |\n|------|--------|---------|---------|--------|\n")))

abbrev is_item : Text → Bool
is_item l =
    let t = trim l in
    starts_with t (codes "- ")
    || starts_with t (codes "* ")
    || (starts_with t (codes "[") && includes t (codes "]"))

-- milliseconds in a day
abbrev day : ℕ
day = 86400000

-- "daysSinceUpdate > 3" compares a fraction, so it is a comparison of milliseconds.
unfoldable pub check_cerebrum : Time → Option Cerebrum → World → World
check_cerebrum now none w = w
check_cerebrum now (some c) w =
    let items = length (keep is_item (split c.content b'\n')) in
    if ltb items 3
    then warn
        (codes "💡 OpenWolf: cerebrum.md has only "
          ++ (show items
              ++ codes
                  " entries. Learn from this session — record user preferences, project conventions, and mistakes to .wolf/cerebrum.md.\n"))
        w
    else if ltb (3 * day) (now.ms - c.mtime)
    then warn
        (codes "💡 OpenWolf: cerebrum.md hasn't been updated in "
          ++ (show ((now.ms - c.mtime) / day)
              ++ codes " days. Look for opportunities to add learnings this session.\n"))
        w
    else w

abbrev pub no_bugs : List Bug → World → World
no_bugs [] w =
    warn
      (codes
        "📋 OpenWolf: buglog.json is empty. If you encounter or fix any bugs, errors, or failed tests this session, log them to .wolf/buglog.json.\n")
      w
no_bugs (b ∷ bs) w = w

-- The fallback has no field but `version` and `lifetime.total_sessions`.
abbrev pub new_ledger : Ledger
new_ledger = record {
  lifetime = record {
    total_tokens_estimated = absent;
    total_reads = absent;
    total_writes = absent;
    total_sessions = num 0;
    anatomy_hits = absent;
    anatomy_misses = absent;
    repeated_reads_blocked = absent;
    estimated_savings_vs_bare_cli = absent;
  };
  sessions = none;
}

unfoldable pub count_session : World → World
count_session w =
    let l = or_default new_ledger w.ledger in
    record w {
      ledger = some (record l {
        lifetime = record l.lifetime { total_sessions = saved (inc l.lifetime.total_sessions) };
      });
    }

unfoldable pub start_session : Env → World → World
start_session env w =
    let opened = append_memory (header env.now) (write_session (fresh_session env.now) w) in
    let checked = check_cerebrum env.now opened.cerebrum opened in
    count_session (no_bugs (or_default [] checked.buglog) checked)

unfoldable pub session_start : Env → World → World
unfolding start_session session_id header check_cerebrum count_session saved_session show pad_start
    time_short split trim starts_with includes
session_start env w = if w.wolf_dir then start_session env w else w

pub session_start_lem :
    (env : Env) (w : World) → session_start env w ≡ (if w.wolf_dir then start_session env w else w)
unfolding session_start
session_start_lem env w = refl
