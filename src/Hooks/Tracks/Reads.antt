-- ===== src/Hooks/Tracks/Reads.antt =====
-- What a read does to a tracked session: hits, misses, repeated reads and estimates, as
-- .wolf/hooks/pre-read.js and .wolf/hooks/post-read.js save them.
use efipix.Prelude.{ℕ, ◌+◌, ◌≤◌, some, ◌≡◌, refl, arith, length}
use efipix.Text.{Text}
use efipix.Object.{Object, get, set, own, absent}
use efipix.Object.Sizes.{
  total, total-set_own, total-set_new, length-set_own, length-set_new, Values, Values-set,
  get-eq-own, get-eq-absent,
}
use efipix.World.{Session, ReadInfo, num, inc}
use efipix.Hooks.Tracks.{Tracks, IsCounted, repeats}

-- A change of the reads and of the counters that go with them.
module _ (s : Session) (t : Tracks s) (reads : Object ReadInfo) (hits misses warned : ℕ) where
  with_reads :
      hits + misses ≤ length reads
      → Values IsCounted reads
      → total repeats reads ≤ warned
      → Tracks (record s {
        files_read = some reads;
        anatomy_hits = num hits;
        anatomy_misses = num misses;
        repeated_reads_warned = num warned;
      })
  with_reads l c r = record {
    reads = reads;
    writes = t.writes;
    counts = t.counts;
    hits = hits;
    misses = misses;
    warned = warned;
    stops = t.stops;
    has_reads = refl;
    has_writes = t.has_writes;
    has_counts = t.has_counts;
    has_hits = refl;
    has_misses = refl;
    has_warned = refl;
    has_stops = t.has_stops;
    looked_up = l;
    counted = c;
    repeated = r;
    edited = t.edited;
  }

  -- the same for a session whose fields equal these
  pub to_reads :
      (s' : Session)
      → s' ≡ record s {
        files_read = some reads;
        anatomy_hits = num hits;
        anatomy_misses = num misses;
        repeated_reads_warned = num warned;
      }
      → hits + misses ≤ length reads
      → Values IsCounted reads
      → total repeats reads ≤ warned
      → Tracks s'
  to_reads s' e l c r = rw e (with_reads l c r)

module _ (s : Session) (t : Tracks s) (file : Text) (r : ReadInfo) where
  module _ (free : get file t.reads ≡ absent) (one : r.count ≡ 1) where
    grown : length (set file r t.reads) ≡ length t.reads + 1
    grown = length-set_new file r t.reads (get-eq-absent file t.reads free)

    no_repeat : total repeats (set file r t.reads) ≤ t.warned
    no_repeat =
        omega (
          arith,
          t.repeated,
          total-set_new repeats file r t.reads (get-eq-absent file t.reads free),
        )

    set-Values : Values IsCounted (set file r t.reads)
    set-Values = Values-set IsCounted file r t.reads (omega arith) t.counted

    -- A new file after a look-up that found it, one that did not, and none.
    pub Tracks-hit :
        Tracks
          (record s { anatomy_hits = inc s.anatomy_hits; files_read = some (set file r t.reads) })
    Tracks-hit =
        to_reads s t (set file r t.reads) (t.hits + 1) t.misses t.warned _
          (λ i. record s {
            anatomy_hits = inc (t.has_hits i);
            files_read = some (set file r t.reads);
            anatomy_misses = t.has_misses i;
            repeated_reads_warned = t.has_warned i;
          })
          (omega (arith, grown, t.looked_up)) set-Values no_repeat

    pub Tracks-miss :
        Tracks (record s {
          anatomy_misses = inc s.anatomy_misses;
          files_read = some (set file r t.reads);
        })
    Tracks-miss =
        to_reads s t (set file r t.reads) t.hits (t.misses + 1) t.warned _
          (λ i. record s {
            anatomy_hits = t.has_hits i;
            files_read = some (set file r t.reads);
            anatomy_misses = inc (t.has_misses i);
            repeated_reads_warned = t.has_warned i;
          })
          (omega (arith, grown, t.looked_up)) set-Values no_repeat

    pub Tracks-recorded : Tracks (record s { files_read = some (set file r t.reads) })
    Tracks-recorded =
        to_reads s t (set file r t.reads) t.hits t.misses t.warned _
          (λ i. record s {
            anatomy_hits = t.has_hits i;
            files_read = some (set file r t.reads);
            anatomy_misses = t.has_misses i;
            repeated_reads_warned = t.has_warned i;
          })
          (omega (arith, grown, t.looked_up)) set-Values no_repeat

-- A file that was read before: one more read with a warning, or another estimate.
module _ (s : Session) (t : Tracks s) (file : Text) (old : ReadInfo)
    (known : get file t.reads ≡ own old) where
  same_length : (r : ReadInfo) → length (set file r t.reads) ≡ length t.reads
  same_length r = length-set_own file r t.reads old (get-eq-own file t.reads old known)

  sum_after :
      (r : ReadInfo)
      → total repeats (set file r t.reads) + repeats old ≡ total repeats t.reads + repeats r
  sum_after r = total-set_own repeats file r t.reads old (get-eq-own file t.reads old known)

  pub Tracks-again : Tracks (record s {
    files_read = some (set file (record old { count = old.count + 1 }) t.reads);
    repeated_reads_warned = inc s.repeated_reads_warned;
  })
  Tracks-again =
      let r = record old { count = old.count + 1 } in
      to_reads s t (set file r t.reads) t.hits t.misses (t.warned + 1) _
        (λ i. record s {
          anatomy_hits = t.has_hits i;
          files_read = some (set file r t.reads);
          anatomy_misses = t.has_misses i;
          repeated_reads_warned = inc (t.has_warned i);
        })
        (omega (arith, same_length r, t.looked_up))
        (Values-set IsCounted file r t.reads (omega arith) t.counted)
        (omega (arith, sum_after r, t.repeated))

  pub Tracks-estimated :
      (n : ℕ)
      → IsCounted old
      → Tracks (record s { files_read = some (set file (record old { tokens = n }) t.reads) })
  Tracks-estimated n c =
      let r = record old { tokens = n } in
      to_reads s t (set file r t.reads) t.hits t.misses t.warned _
        (λ i. record s {
          anatomy_hits = t.has_hits i;
          files_read = some (set file r t.reads);
          anatomy_misses = t.has_misses i;
          repeated_reads_warned = t.has_warned i;
        })
        (omega (arith, same_length r, t.looked_up))
        (Values-set IsCounted file r t.reads c t.counted) (omega (arith, sum_after r, t.repeated))

-- A file named like an inherited property is only warned of.
pub Tracks-inherited :
    (s : Session) (t : Tracks s)
    → Tracks (record s { repeated_reads_warned = inc s.repeated_reads_warned })
Tracks-inherited s t =
    to_reads s t t.reads t.hits t.misses (t.warned + 1) _
      (λ i. record s {
        anatomy_hits = t.has_hits i;
        files_read = t.has_reads i;
        anatomy_misses = t.has_misses i;
        repeated_reads_warned = inc (t.has_warned i);
      })
      t.looked_up t.counted (omega (arith, t.repeated))
