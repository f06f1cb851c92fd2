-- ===== src/Hooks/Tracks.antt =====
-- What the hooks keep of a session: its counters are numbers, and bound one another.
pub mod Reads
use efipix.Prelude.{ℕ, ◌+◌, ◌-◌, ◌≤◌, true, some, List, ◌≡◌, refl, ap, length}
use efipix.Object.{Object}
use efipix.Object.Sizes.{total, Values}
use efipix.World.{Session, World, ReadInfo, WriteInfo, Edits, times, spoiled, num, saved}
use efipix.Hooks.Common.{write_session, saved_session}

-- repeated reads of a file, and counted edits
abbrev pub repeats : ReadInfo → ℕ
repeats r = r.count - 1

abbrev pub edits : Edits → ℕ
edits (times n) = n
edits spoiled = 0

abbrev pub IsCounted : ReadInfo → Type 0
IsCounted r = 1 ≤ r.count

-- Every anatomy look-up belongs to a file that was read, each read file has a count, each repeated
-- read was warned of, and the edits that are counted were written.
pub record Tracks (s : Session) : Type 0 where
  pub reads : Object ReadInfo
  pub writes : List WriteInfo
  pub counts : Object Edits
  pub hits : ℕ
  pub misses : ℕ
  pub warned : ℕ
  pub stops : ℕ
  pub has_reads : s.files_read ≡ some reads
  pub has_writes : s.files_written ≡ some writes
  pub has_counts : s.edit_counts ≡ some counts
  pub has_hits : s.anatomy_hits ≡ num hits
  pub has_misses : s.anatomy_misses ≡ num misses
  pub has_warned : s.repeated_reads_warned ≡ num warned
  pub has_stops : s.stop_count ≡ num stops
  pub looked_up : hits + misses ≤ length reads
  pub counted : Values IsCounted reads
  pub repeated : total repeats reads ≤ warned
  pub edited : total edits counts ≤ length writes

-- Saving changes no number.
pub saved_session-Tracks : (s : Session) → Tracks s → Tracks (saved_session s)
unfolding saved_session
saved_session-Tracks s t = record {
  reads = t.reads;
  writes = t.writes;
  counts = t.counts;
  hits = t.hits;
  misses = t.misses;
  warned = t.warned;
  stops = t.stops;
  has_reads = t.has_reads;
  has_writes = t.has_writes;
  has_counts = t.has_counts;
  has_hits = ap saved t.has_hits;
  has_misses = ap saved t.has_misses;
  has_warned = ap saved t.has_warned;
  has_stops = ap saved t.has_stops;
  looked_up = t.looked_up;
  counted = t.counted;
  repeated = t.repeated;
  edited = t.edited;
}

-- the state with a session that is tracked
pub record IsTracked (w : World) : Type 0 where
  pub wolf : w.wolf_dir ≡ true
  pub session : Session
  pub has_session : w.session ≡ some session
  pub tracks : Tracks session

pub write_session-IsTracked :
    (s : Session) (w : World) → w.wolf_dir ≡ true → Tracks s → IsTracked (write_session s w)
write_session-IsTracked s w h t = record {
  wolf = h;
  session = saved_session s;
  has_session = refl;
  tracks = saved_session-Tracks s t;
}
