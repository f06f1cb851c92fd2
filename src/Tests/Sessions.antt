-- ===== src/Tests/Sessions.antt =====
-- Runs of the hooks of .wolf/hooks on a small project, and the hypotheses of their theorems there.
use efipix.Prelude.{◌+◌, ◌*◌, true, false, none, some, [], ◌∷◌, ◌≡◌, refl, length, if◌then◌else◌}
use efipix.Text.{codes, equal}
use efipix.NodePath.{normalize_path}
use efipix.Sorting.{units_gt}
use efipix.Object.{is_inherited}
use efipix.World.{Env, Time, World, Input, ReadInfo, project_root}
use efipix.Hooks.Common.{is_internal}
use efipix.Hooks.Tracks.{IsTracked}
use efipix.Hooks.PreRead.{pre_read}
use efipix.Hooks.SessionStart.{session_start}
use efipix.Hooks.Stop
use efipix.Hooks.Reachable.{begun, after, reading, stopping, Reachable-IsTracked}
use efipix.Text.Decimal.{show}
use efipix.Prelude.{◌++◌, arith}
use efipix.World.{num}
use efipix.Object.{find_own}
use efipix.Hooks.Diary.{Appends}
use efipix.Hooks.Diary.Grows.{Reachable-Appends}
use efipix.Hooks.Secrets.{post_write-eq}
use efipix.Hooks.PostWrite.{post_write, Written}
use efipix.NodePath.{basename}
use efipix.Text.{equal}
use efipix.Hooks.Counting.{reads_of, reads_counted, pre_read-counts}
use efipix.Hooks.Warned.{pre_read-warns}
use efipix.Hooks.PostRead.{post_read, read_tokens}
use efipix.NodePath.Parts.{IsPart}
use efipix.Prelude.{inl}
use efipix.Tests.{every-IsPart}
use efipix.Text.{join}
use efipix.Hooks.Lost.{LacksSessions, Reachable-LacksSessions}
use efipix.Hooks.Ledgers.{Ready, stops, stops-Ready}
use efipix.Hooks.Stop.{stop}

abbrev pub noon : Time
noon = record {
  iso = codes "2026-06-12T12:00:00.000Z";
  ms = 1781265600000;
  hours = 12;
  minutes = 0;
}

abbrev pub env : Env
env = record { locale_gt = units_gt; claude_project_dir = []; cwd = codes "/p"; now = noon }

abbrev pub world : World
world = record {
  wolf_dir = true;
  session = none;
  anatomy = none;
  memory = [];
  cerebrum = none;
  buglog = none;
  ledger = none;
  stderr = [];
}

abbrev pub read_main : Input
read_main = record {
  tool_name = none;
  file_path = some (codes "/p/main.go");
  path = none;
  content = none;
  old_string = none;
  new_string = none;
  output_content = none;
}

abbrev pub started : World
started = session_start env world

abbrev pub read_once : World
read_once = pre_read env (some read_main) started

Reachable-IsTracked_example : IsTracked read_once
Reachable-IsTracked_example =
    Reachable-IsTracked world read_once refl
      (after started read_once (begun env) (reading env (some read_main) started))

Reachable-LacksSessions_example : LacksSessions (stop env read_once)
Reachable-LacksSessions_example = Reachable-LacksSessions world (stop env read_once) refl refl (
    after read_once (stop env read_once)
      (after started read_once (begun env) (reading env (some read_main) started))
      (stopping env read_once))

main_outside : is_internal env (normalize_path (codes "/p/main.go")) ≡ false
unfolding is_internal normalize_path project_root
main_outside = refl

main_ordinary : is_inherited (normalize_path (codes "/p/main.go")) ≡ false
unfolding is_inherited normalize_path
main_ordinary = refl

pre_read-counts_example :
    reads_counted (codes "/p/main.go") (pre_read env (some read_main) read_once)
    ≡ reads_counted (codes "/p/main.go") read_once
      + (if equal (normalize_path (codes "/p/main.go")) (codes "/p/main.go") then 1 else 0)
pre_read-counts_example =
    pre_read-counts env read_main read_once b'/' (codes "p/main.go")
      (normalize_path (codes "/p/main.go")) (codes "/p/main.go")
      (Reachable-IsTracked world read_once refl
        (after started read_once (begun env) (reading env (some read_main) started)))
      refl refl main_outside main_ordinary

abbrev main_read : ReadInfo
main_read = record { count = 2; tokens = 10; first_read = noon.iso }

abbrev pub working : World
working = record world {
  session =
      some (record Stop.new_session { files_read = some ((codes "/p/main.go", main_read) ∷ []) });
  ledger = some Stop.new_ledger;
}

-- a session that has read one file twice
abbrev tracked : World
tracked = record world {
  session = some (record Stop.new_session {
    files_read = some ((codes "/p/main.go", main_read) ∷ []);
    anatomy_misses = num 1;
    repeated_reads_warned = num 1;
  });
}

tracked-IsTracked : IsTracked tracked
tracked-IsTracked = record {
  wolf = refl;
  session = _;
  has_session = refl;
  tracks = record {
    reads = (codes "/p/main.go", main_read) ∷ [];
    writes = [];
    counts = [];
    hits = 0;
    misses = 1;
    warned = 1;
    stops = 0;
    has_reads = refl;
    has_writes = refl;
    has_counts = refl;
    has_hits = refl;
    has_misses = refl;
    has_warned = refl;
    has_stops = refl;
    looked_up = omega arith;
    counted = (omega arith, tt);
    repeated = omega arith;
    edited = omega arith;
  };
}

working-Ready : Ready ((codes "/p/main.go", main_read) ∷ []) [] 0 working
working-Ready = record {
  wolf = refl;
  session = record Stop.new_session { files_read = some ((codes "/p/main.go", main_read) ∷ []) };
  has_session = refl;
  has_reads = refl;
  has_writes = refl;
  ledger = Stop.new_ledger;
  has_ledger = refl;
  entries = [];
  has_entries = refl;
  has_total = refl;
}

stops-Ready_example :
    Ready
      ((codes "/p/main.go", main_read) ∷ [])
      []
      (0 + length (env ∷ env ∷ []) * 1)
      (stops (env ∷ env ∷ []) working)
stops-Ready_example =
    stops-Ready (env ∷ env ∷ []) ((codes "/p/main.go", main_read) ∷ []) [] 0 working refl
      working-Ready

Reachable-Appends_example : Appends world read_once
Reachable-Appends_example =
    Reachable-Appends world read_once
      (after started read_once (begun env) (reading env (some read_main) started))

main_known : find_own (codes "/p/main.go") (reads_of tracked) ≡ some main_read
unfolding find_own
main_known = refl

abbrev main_text : Input
main_text = record read_main { output_content = some (codes "package main\n") }

pre_read-warns_example :
    (pre_read env (some read_main) (post_read env (some main_text) tracked)).stderr
    ≡ []
      ++ (codes "⚡ OpenWolf: "
          ++ (basename (codes "/p/main.go")
              ++ (codes " was already read this session (~"
                  ++ (show (
                        read_tokens
                          (codes "/p/main.go")
                          (codes "/p/main.go")
                          (codes "package main\n")
                          tracked)
                      ++ codes
                          " tokens). Consider using your existing knowledge of this file.\n"))))
        ∷ []
unfolding normalize_path
pre_read-warns_example =
    pre_read-warns env main_text read_main tracked b'/' (codes "p/main.go") (codes "/p/main.go")
      main_read tracked-IsTracked refl refl refl main_outside main_known

pub project_IsPart : IsPart (codes "p")
unfolding equal
project_IsPart = every-IsPart (codes "p") refl refl refl refl

abbrev write_env : Input
write_env = record read_main { file_path = some (codes "/p/.env"); content = some (codes "KEY=1") }

abbrev on_disk : Written
on_disk = record { full = some (codes "KEY=1"); start = some (codes "KEY=1") }

env_IsPart : IsPart (codes ".env")
unfolding equal
env_IsPart = every-IsPart (codes ".env") refl refl refl refl

post_write-eq_example : post_write env (some write_env) on_disk working ≡ working
unfolding join
post_write-eq_example =
    post_write-eq env (codes "p" ∷ []) (codes ".env") write_env on_disk working (project_IsPart, tt)
      env_IsPart refl (inl refl)
