-- ===== src/Hooks/PreRead.antt =====
-- .wolf/hooks/pre-read.js: before a file is read.
use efipix.Prelude.{◌+◌, Option, none, some, [], ◌∷◌, ◌++◌, if◌then◌else◌}
use efipix.Text.{Text, codes}
use efipix.Text.Decimal.{show}
use efipix.NodePath.{normalize_path, basename}
use efipix.Anatomy.{Entry, Sections, parse_anatomy}
use efipix.Object.{Object, get, find_own, is_inherited, set, inherited, own, absent}
use efipix.World.{
  Env, Session, World, Input, ReadInfo, Number, num, inc, warn, input_path, or_default,
}
use efipix.Hooks.Common.{is_internal, find_entry, write_session, saved_session}

abbrev pub new_session : Session
new_session = record {
  session_id = some [];
  started = none;
  files_read = some [];
  files_written = none;
  edit_counts = none;
  anatomy_hits = num 0;
  anatomy_misses = num 0;
  repeated_reads_warned = num 0;
  cerebrum_warnings = Number.absent;
  stop_count = Number.absent;
}

-- the outer loop over the sections
unfoldable pub find_section_entry : Text → Sections → Option Entry
find_section_entry file [] = none
find_section_entry file ((key, es) ∷ m) = elim (find_entry file key es) [
  | some e ↦ some e
  | none ↦ find_section_entry file m
]

unfoldable pub already_read : Text → Text → Text
already_read file tokens =
    codes "⚡ OpenWolf: "
    ++ (basename file
        ++ (codes " was already read this session (~"
            ++ (tokens
                ++ codes " tokens). Consider using your existing knowledge of this file.\n")))

unfoldable pub known_entry : Entry → Text
known_entry e =
    codes "📋 OpenWolf anatomy: "
    ++ (e.file
        ++ (codes " — " ++ (e.description ++ (codes " (~" ++ (show e.tokens ++ codes " tok)\n")))))

abbrev pub first_read : Env → ReadInfo
first_read env = record { count = 1; tokens = 0; first_read = env.now.iso }

-- The file is read for the first time in this session.
unfoldable pub on_first_read : Env → Text → Session → Object ReadInfo → World → World
on_first_read env file s reads w =
    let sections = parse_anatomy (or_default [] w.anatomy) in
    let reads' = some (set file (first_read env) reads) in
    elim (find_section_entry file sections) [
      | some e ↦
          write_session (record s { anatomy_hits = inc s.anatomy_hits; files_read = reads' })
            (warn (known_entry e) w)
      | none ↦
          write_session (record s { anatomy_misses = inc s.anatomy_misses; files_read = reads' }) w
    ]

-- The file was read before. An inherited property is truthy too: its `count` and `tokens` are
-- not the session's.
unfoldable pub on_read : Env → Text → Session → Object ReadInfo → World → World
on_read env file s reads w = elim (get file reads) [
  | own r ↦
      write_session
        (record s {
          files_read = some (set file (record r { count = r.count + 1 }) reads);
          repeated_reads_warned = inc s.repeated_reads_warned;
        })
        (warn (already_read file (show r.tokens)) w)
  | inherited ↦
      write_session (record s { repeated_reads_warned = inc s.repeated_reads_warned })
        (warn (already_read file (codes "undefined")) w)
  | absent ↦ on_first_read env file s reads w
]

-- Reading a property of a missing `files_read` throws, and the hook exits.
unfoldable pub in_session : Env → Text → Session → World → World
in_session env file s w = elim s.files_read [ none ↦ w | some reads ↦ on_read env file s reads w ]

unfoldable pub on_path : Env → Text → World → World
on_path env [] w = w
on_path env (c ∷ p) w =
    let file = normalize_path (c ∷ p) in
    if is_internal env file then w else in_session env file (or_default new_session w.session) w

-- `none` stands for input that is no JSON.
unfoldable pub pre_read : Env → Option Input → World → World
unfolding on_path in_session on_read on_first_read already_read known_entry find_section_entry
    find_entry is_internal normalize_path get find_own is_inherited set show parse_anatomy basename
    saved_session
pre_read env none w = w
pre_read env (some i) w = if w.wolf_dir then on_path env (input_path i) w else w
