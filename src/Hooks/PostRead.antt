-- ===== src/Hooks/PostRead.antt =====
-- .wolf/hooks/post-read.js: after a file was read.
use efipix.Prelude.{ℕ, Option, none, some, List, [], ◌∷◌, ◌==◌, ltb, if◌then◌else◌}
use efipix.Text.{Text, codes, is_empty, to_lower}
use efipix.NodePath.{normalize_path, extname}
use efipix.Tokens.{Kind, code, prose, mixed, one_of, estimate_tokens}
use efipix.Anatomy.{Sections, parse_anatomy}
use efipix.Object.{Object, get, find_own, is_inherited, set, inherited, own, absent}
use efipix.World.{Env, Session, World, Input, ReadInfo, Number, input_path, or_default}
use efipix.Hooks.Common.{is_internal, find_entry, write_session, saved_session}

abbrev code_exts : List Text
code_exts =
    codes ".ts"
    ∷ codes ".js"
    ∷ codes ".tsx"
    ∷ codes ".jsx"
    ∷ codes ".py"
    ∷ codes ".rs"
    ∷ codes ".go"
    ∷ codes ".java"
    ∷ codes ".c"
    ∷ codes ".cpp"
    ∷ codes ".css"
    ∷ codes ".json"
    ∷ codes ".yaml"
    ∷ codes ".yml"
    ∷ []

abbrev prose_exts : List Text
prose_exts = codes ".md" ∷ codes ".txt" ∷ codes ".rst" ∷ []

unfoldable pub kind_of : Text → Kind
kind_of path =
    let ext = to_lower (extname path) in
    if one_of code_exts ext then code else if one_of prose_exts ext then prose else mixed

-- The loop over the sections goes on past a match whose estimate is 0.
unfoldable pub anatomy_tokens : Text → Sections → ℕ
anatomy_tokens file [] = 0
anatomy_tokens file ((key, es) ∷ m) = elim (find_entry file key es) [
  | some e ↦ if ltb 0 e.tokens then e.tokens else anatomy_tokens file m
  | none ↦ anatomy_tokens file m
]

unfoldable pub read_tokens : Text → Text → Text → World → ℕ
read_tokens path file content w =
    let own_estimate = if is_empty content then 0 else estimate_tokens content (kind_of path) in
    if own_estimate == 0
    then anatomy_tokens file (parse_anatomy (or_default [] w.anatomy))
    else own_estimate

abbrev pub new_session : Session
new_session = record {
  session_id = none;
  started = none;
  files_read = some [];
  files_written = none;
  edit_counts = none;
  anatomy_hits = Number.absent;
  anatomy_misses = Number.absent;
  repeated_reads_warned = Number.absent;
  cerebrum_warnings = Number.absent;
  stop_count = Number.absent;
}

-- Writing to an inherited property's `tokens` leaves the session as it is.
unfoldable pub record_tokens : Env → Text → ℕ → Object ReadInfo → Object ReadInfo
record_tokens env file n reads = elim (get file reads) [
  | own r ↦ set file (record r { tokens = n }) reads
  | inherited ↦ reads
  | absent ↦ set file (record { count = 1; tokens = n; first_read = env.now.iso }) reads
]

unfoldable pub in_session : Env → Text → ℕ → Session → World → World
in_session env file n s w = elim s.files_read [
  | none ↦ w
  | some reads ↦ write_session (record s { files_read = some (record_tokens env file n reads) }) w
]

unfoldable pub on_path : Env → Text → Text → World → World
on_path env [] content w = w
on_path env (c ∷ p) content w =
    let file = normalize_path (c ∷ p) in
    if is_internal env file
    then w
    else in_session env file (read_tokens (c ∷ p) file content w) (or_default new_session w.session)
        w

unfoldable pub post_read : Env → Option Input → World → World
unfolding on_path in_session record_tokens read_tokens anatomy_tokens kind_of find_entry is_internal
    normalize_path get find_own is_inherited set parse_anatomy extname to_lower estimate_tokens
    one_of saved_session
post_read env none w = w
post_read env (some i) w =
    if w.wolf_dir then on_path env (input_path i) (or_default [] i.output_content) w else w
