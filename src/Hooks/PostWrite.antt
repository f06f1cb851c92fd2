-- ===== src/Hooks/PostWrite.antt =====
-- .wolf/hooks/post-write.js: after a file was written or edited. The `try` blocks of the source are
-- the parts of `on_write`, in their order; what throws leaves the state as it was.
pub mod Listing
unfoldable pub use Listing.{
  absolute_path, relative_path, kind_of, section_key, upsert, count_entries, update_sections,
  update_anatomy,
}
pub use Listing.{
  code_exts, is_env_file, no_anatomy, Written, description_of, part_anatomy, new_entry, or_text,
}
use efipix.Prelude.{
  ℕ, ◌+◌, Bool, not, ◌&&◌, ◌||◌, Option, none, some, [], ◌∷◌, ◌++◌, leb, if◌then◌else◌,
}
use efipix.Text.{Text, codes, equal, starts_with, is_empty, to_lower}
use efipix.Text.Decimal.{show}
use efipix.NodePath.{normalize_path, basename, extname}
use efipix.Tokens.{Kind, code, mixed, one_of, estimate_tokens}
use efipix.Object.{Object, get, set, inherited, own, absent}
use efipix.World.{
  Env, Session, World, Input, WriteInfo, Edits, times, spoiled, Number, warn, append_memory,
  input_path, or_default, time_short,
}
use efipix.Hooks.Common.{write_session, warning_sign}
use efipix.Edit.Summary.{summarize_edit}
use efipix.Edit.Detect.{detect_fix_pattern}
use efipix.BugLog.{log_fix}

-- `const type = codeExts.has(ext) ? "code" : "mixed"`, of the memory entry
abbrev memory_kind : Text → Kind
memory_kind path = if one_of code_exts (to_lower (extname path)) then code else mixed

abbrev pub old_of : Input → Text
old_of i = or_default [] i.old_string

abbrev pub new_of : Input → Text
new_of i = or_default [] i.new_string

abbrev pub tool_of : Input → Text
tool_of i = or_default (codes "Write") i.tool_name

abbrev pub is_edit : Input → Bool
is_edit i = not (is_empty (old_of i)) && not (is_empty (new_of i))

abbrev pub written_text : Input → Text
written_text i = or_text (or_default [] i.content) (new_of i)

unfoldable pub memory_line : Env → Text → Input → Text
memory_line env p i =
    let action =
      if equal (tool_of i) (codes "Write")
      then codes "Created"
      else if equal (tool_of i) (codes "MultiEdit")
      then codes "Multi-edited"
      else codes "Edited" in
    let change =
      if is_edit i
      then summarize_edit (old_of i) (new_of i) (basename (absolute_path env p))
      else [] in
    let tokens = estimate_tokens (written_text i) (memory_kind (absolute_path env p)) in
    codes "| "
    ++ (time_short env.now
        ++ (codes " | "
            ++ (action
                ++ (codes " "
                    ++ (relative_path env p
                        ++ (codes " | "
                            ++ (or_text change (codes "—")
                                ++ (codes " | ~" ++ (show tokens ++ codes " |\n")))))))))

abbrev pub part_memory : Env → Text → Input → World → World
part_memory env p i w = append_memory (memory_line env p i) w

abbrev pub new_session : Session
new_session = record {
  session_id = none;
  started = none;
  files_read = none;
  files_written = some [];
  edit_counts = some [];
  anatomy_hits = Number.absent;
  anatomy_misses = Number.absent;
  repeated_reads_warned = Number.absent;
  cerebrum_warnings = Number.absent;
  stop_count = Number.absent;
}

-- `(counts[k] || 0) + 1`. Assigning a text to `__proto__` does nothing.
unfoldable pub count_edit : Text → Object Edits → Object Edits
count_edit k o = elim (get k o) [
  | own (times n) ↦ set k (times (n + 1)) o
  | own spoiled ↦ o
  | inherited ↦ if equal k (codes "__proto__") then o else set k spoiled o
  | absent ↦ set k (times 1) o
]

abbrev pub edit_warning : Text → ℕ → Text
edit_warning name n =
    warning_sign
    ++ (codes " OpenWolf: "
        ++ (name
            ++ (codes " has been edited "
                ++ (show n
                    ++ codes
                        " times this session. If you're fixing a bug, remember to log it to .wolf/buglog.json.\n"))))

abbrev pub warn_often : Text → Text → Object Edits → World → World
warn_often name k o w = elim (get k o) [
  | own (times n) ↦ if leb 3 n then warn (edit_warning name n) w else w
  | own spoiled ↦ w
  | inherited ↦ w
  | absent ↦ w
]

abbrev pub write_info : Env → Text → Input → WriteInfo
write_info env p i = record {
  file = normalize_path p;
  action = if equal (tool_of i) (codes "Write") then codes "create" else codes "edit";
  tokens = estimate_tokens (written_text i) code;
  at = env.now.iso;
}

unfoldable pub in_session : Env → Text → Input → Session → World → World
in_session env p i s w = elim s.files_written [
  | none ↦ w
  | some writes ↦
      let key = relative_path env p in
      let counts = count_edit key (or_default [] s.edit_counts) in
      let s' = record s {
        files_written = some (writes ++ write_info env p i ∷ []);
        edit_counts = some counts;
      } in
      warn_often (basename (absolute_path env p)) key counts (write_session s' w)
]

abbrev pub part_session : Env → Text → Input → World → World
part_session env p i w = in_session env p i (or_default new_session w.session) w

abbrev pub part_buglog : Env → Text → Input → World → World
part_buglog env p i w =
    let abs = absolute_path env p in
    let ext = to_lower (extname (basename abs)) in
    if is_edit i
    then elim (detect_fix_pattern (old_of i) (new_of i) ext) [
      | none ↦ w
      | some d ↦ record w {
        buglog =
            some
              (log_fix env.now (relative_path env p) (basename abs) ext d (or_default [] w.buglog));
      }
    ]
    else w

unfoldable pub on_write : Env → Text → Input → Written → World → World
on_write env p i d w =
    part_buglog env p i (part_session env p i (part_memory env p i (part_anatomy env p i d w)))

abbrev pub is_skipped : Env → Text → Bool
is_skipped env p =
    starts_with (relative_path env p) (codes ".wolf/")
    || is_env_file (basename (absolute_path env p))

abbrev pub on_path : Env → Text → Input → Written → World → World
on_path env [] i d w = w
on_path env (c ∷ p) i d w = if is_skipped env (c ∷ p) then w else on_write env (c ∷ p) i d w

unfoldable pub post_write : Env → Option Input → Written → World → World
post_write env none d w = w
post_write env (some i) d w = if w.wolf_dir then on_path env (input_path i) i d w else w
