-- ===== src/Tests/Writes.antt =====
-- Writes of one file in a row.
use efipix.Prelude.{◌+◌, ◌-◌, false, none, some, List, [], ◌∷◌, ◌≡◌, refl, length, arith}
use efipix.Text.{codes, equal}
use efipix.NodePath.{basename, is_absolute, normalize_path, relative}
use efipix.Object.{is_inherited, find_own}
use efipix.World.{World, Input, project_root}
use efipix.Hooks.Tracks.{IsTracked}
use efipix.Hooks.Stop
use efipix.Hooks.Stop.{stop}
use efipix.Hooks.PostWrite.{post_write, Written, relative_path, absolute_path}
use efipix.Hooks.Reachable.{begun, after, reading, has_written}
use efipix.Hooks.Counting.{reads_counted}
use efipix.Hooks.Overlap.{overlap, overlap-loses}
use efipix.Hooks.Log.{Event, Agree, apply, log_of}
use efipix.Hooks.Log.Refines.{IsOf, Step-refines}
use efipix.Hooks.Log.Traces.{Traces, replay, Reachable-replay}
use efipix.Hooks.Often.{Edited, Warns, counts_of}
use efipix.Hooks.Often.Rows.{IsNoted, post_write-Warns, write_all, write_all-warns}
use efipix.Tests.Sessions.{env, working, read_main, world, started, read_once}

-- a session without reads and writes
abbrev fresh : World
fresh = record working { session = some Stop.new_session }

fresh-IsTracked : IsTracked fresh
fresh-IsTracked = record {
  wolf = refl;
  session = Stop.new_session;
  has_session = refl;
  tracks = record {
    reads = [];
    writes = [];
    counts = [];
    hits = 0;
    misses = 0;
    warned = 0;
    stops = 0;
    has_reads = refl;
    has_writes = refl;
    has_counts = refl;
    has_hits = refl;
    has_misses = refl;
    has_warned = refl;
    has_stops = refl;
    looked_up = omega arith;
    counted = tt;
    repeated = omega arith;
    edited = omega arith;
  };
}

main-IsNoted : IsNoted env (codes "/p/main.go")
unfolding is_inherited relative_path absolute_path is_absolute normalize_path basename relative
    project_root
main-IsNoted = record { named = refl; not_skipped = refl; not_inherited = refl }

abbrev write_main : Input
write_main = record read_main { content = some (codes "x") }

abbrev on_disk : Written
on_disk = record { full = some (codes "x"); start = some (codes "x") }

nothing_edited : find_own (relative_path env (codes "/p/main.go")) (counts_of fresh) ≡ none
unfolding find_own
nothing_edited = refl

post_write-Warns_example :
    Edited 1
      (relative_path env (codes "/p/main.go"))
      (counts_of (post_write env (some write_main) on_disk fresh))
    × Warns
        (basename (absolute_path env (codes "/p/main.go")))
        1
        fresh
        (post_write env (some write_main) on_disk fresh)
post_write-Warns_example =
    post_write-Warns env write_main on_disk fresh 0 fresh-IsTracked main-IsNoted nothing_edited

abbrev thrice : List (Input × Written)
thrice = (write_main, on_disk) ∷ (write_main, on_disk) ∷ (write_main, on_disk) ∷ []

write_all-warns_example : length (write_all env thrice fresh).stderr ≡ 0 + (3 - 2)
write_all-warns_example =
    write_all-warns env (codes "/p/main.go") main-IsNoted thrice fresh fresh-IsTracked
      (refl, (refl, (refl, tt))) nothing_edited

abbrev written : World
written = post_write env (some write_main) on_disk fresh

Step-refines_example :
    (e : Event) × IsOf fresh written (has_written env (some write_main) on_disk fresh) e
    × Agree (log_of written) (apply e (log_of fresh))
Step-refines_example =
    Step-refines fresh written (has_written env (some write_main) on_disk fresh) fresh-IsTracked

b_ordinary : is_inherited (codes "b.go") ≡ false
unfolding is_inherited
b_ordinary = refl

b_other : equal (codes "b.go") (codes "a.go") ≡ false
unfolding equal
b_other = refl

overlap-loses_example :
    (reads_counted
        (codes "a.go")
        (overlap env (codes "a.go") (codes "b.go") fresh-IsTracked.session fresh)
      ≡ reads_counted (codes "a.go") fresh)
    × (reads_counted
          (codes "b.go")
          (overlap env (codes "a.go") (codes "b.go") fresh-IsTracked.session fresh)
        ≡ reads_counted (codes "b.go") fresh + 1)
overlap-loses_example =
    overlap-loses env (codes "a.go") (codes "b.go") fresh fresh-IsTracked b_ordinary b_other

Reachable-replay_example :
    (es : List Event) × Traces world read_once
      (after started read_once (begun env) (reading env (some read_main) started))
      es
    × Agree (log_of read_once) (replay es)
Reachable-replay_example =
    Reachable-replay world read_once
      (after started read_once (begun env) (reading env (some read_main) started)) refl
