-- ===== src/Hooks/Common.antt =====
-- What the read hooks share: the skipping of .wolf/ itself, the search of anatomy.md for a file,
-- and `writeJSON` of the session.
use efipix.Prelude.{
  Bool, ◌||◌, Option, none, some, List, [], ◌∷◌, ◌++◌, ◌==◌, if◌then◌else◌, length, drop,
}
use efipix.Text.{Text, codes, starts_with, ends_with}
use efipix.NodePath.{normalize_path, join_path}
use efipix.Anatomy.{Entry}
use efipix.World.{Env, Session, World, project_root, saved}

-- The warning sign, followed by the variation selector U+FE0F.
abbrev pub warning_sign : Text
warning_sign = codes "⚠" ++ 65039 ∷ []

abbrev pub strip_slash : Text → Text
strip_slash [] = []
strip_slash (c ∷ s) = if c == b'/' then s else c ∷ s

-- `relToProject`
unfoldable pub rel_to_project : Env → Text → Text
unfolding starts_with
rel_to_project env file =
    let dir = normalize_path (project_root env) in
    if starts_with file dir then strip_slash (drop (length dir) file) else []

unfoldable pub is_internal : Env → Text → Bool
unfolding rel_to_project starts_with
is_internal env file =
    let rel = rel_to_project env file in
    starts_with rel (codes ".wolf/") || starts_with rel (codes ".wolf\\")

-- `entryRelPath`
unfoldable pub entry_path : Text → Entry → Text
unfolding normalize_path join_path
entry_path key e = normalize_path (join_path key e.file)

unfoldable pub is_entry_of : Text → Text → Entry → Bool
unfolding entry_path ends_with
is_entry_of file key e =
    ends_with file (entry_path key e) || ends_with file (codes "/" ++ entry_path key e)

-- the inner loop, up to its `break`
unfoldable pub find_entry : Text → Text → List Entry → Option Entry
unfolding is_entry_of
find_entry file key [] = none
find_entry file key (e ∷ es) = if is_entry_of file key e then some e else find_entry file key es

unfoldable pub saved_session : Session → Session
saved_session s = record s {
  anatomy_hits = saved s.anatomy_hits;
  anatomy_misses = saved s.anatomy_misses;
  repeated_reads_warned = saved s.repeated_reads_warned;
  cerebrum_warnings = saved s.cerebrum_warnings;
  stop_count = saved s.stop_count;
}

-- `writeJSON(sessionFile, session)`
abbrev pub write_session : Session → World → World
write_session s w = record w { session = some (saved_session s) }
