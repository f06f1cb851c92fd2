-- ===== src/World.antt =====
-- The state that the hooks share: the files of .wolf/ that they read and write, and what they
-- print to stderr. A JSON file is the value that it decodes to, or `none` where `readJSON` of
-- .wolf/hooks/shared.js returns its fallback: the file is missing or no JSON.
pub mod Numbers
pub use Numbers.{Number, absent, null, nan, num, plus, inc, times_num, saved}
use efipix.Prelude.{
  ℕ, ◌+◌, Bool, true, false, Option, none, some, List, [], ◌∷◌, ◌++◌, if◌then◌else◌,
}
use efipix.Text.{Text, codes, is_empty}
use efipix.Text.Decimal.{show, pad_start}
use efipix.Object.{Object}

-- A Date: its ISO text, its milliseconds, and the local time of the day.
pub record Time : Type 0 where
  pub iso : Text
  pub ms : ℕ
  pub hours : ℕ
  pub minutes : ℕ

-- The process: `CLAUDE_PROJECT_DIR`, empty when it is not set, the working directory, the time, and
-- the locale's `a.localeCompare(b) > 0`.
pub record Env : Type 0 where
  pub locale_gt : Text → Text → Bool
  pub claude_project_dir : Text
  pub cwd : Text
  pub now : Time

-- `process.env.CLAUDE_PROJECT_DIR || process.cwd()`
unfoldable pub project_root : Env → Text
project_root env = if is_empty env.claude_project_dir then env.cwd else env.claude_project_dir

-- `timeShort()`
unfoldable pub time_short : Time → Text
unfolding show pad_start
time_short t = pad_start (show t.hours) 2 ++ (codes ":" ++ pad_start (show t.minutes) 2)

pub record ReadInfo : Type 0 where
  pub count : ℕ
  pub tokens : ℕ
  pub first_read : Text

pub record WriteInfo : Type 0 where
  pub file : Text
  pub action : Text
  pub tokens : ℕ
  pub at : Text

-- A count of edits. `spoiled` is the text that an inherited property plus one gives.
pub data Edits : Type 0 where
  times : ℕ → Edits
  spoiled : Edits

-- _session.json; a field is `none` or `absent` where the object has no such property
pub record Session : Type 0 where
  pub session_id : Option Text
  pub started : Option Text
  pub files_read : Option (Object ReadInfo)
  pub files_written : Option (List WriteInfo)
  pub edit_counts : Option (Object Edits)
  pub anatomy_hits : Number
  pub anatomy_misses : Number
  pub repeated_reads_warned : Number
  pub cerebrum_warnings : Number
  pub stop_count : Number

-- buglog.json
pub record Bug : Type 0 where
  pub id : Text
  pub timestamp : Text
  pub error_message : Text
  pub file : Text
  pub root_cause : Text
  pub fix : Text
  pub tags : List Text
  pub related_bugs : List Text
  pub occurrences : ℕ
  pub last_seen : Time

-- token-ledger.json
pub record LedgerRead : Type 0 where
  pub file : Text
  pub tokens_estimated : ℕ
  pub was_repeated : Bool

pub record LedgerWrite : Type 0 where
  pub file : Text
  pub tokens_estimated : ℕ
  pub action : Text

pub record SessionEntry : Type 0 where
  pub id : Option Text
  pub started : Option Text
  pub ended : Text
  pub reads : List LedgerRead
  pub writes : List LedgerWrite
  pub input_tokens_estimated : ℕ
  pub output_tokens_estimated : ℕ
  pub reads_count : ℕ
  pub writes_count : ℕ
  pub repeated_reads_blocked : Number
  pub anatomy_lookups : Number

pub record Lifetime : Type 0 where
  pub total_tokens_estimated : Number
  pub total_reads : Number
  pub total_writes : Number
  pub total_sessions : Number
  pub anatomy_hits : Number
  pub anatomy_misses : Number
  pub repeated_reads_blocked : Number
  pub estimated_savings_vs_bare_cli : Number

pub record Ledger : Type 0 where
  pub lifetime : Lifetime
  pub sessions : Option (List SessionEntry)

pub record Cerebrum : Type 0 where
  pub content : Text
  pub mtime : ℕ

pub record World : Type 0 where
  -- whether .wolf/ exists
  pub wolf_dir : Bool
  pub session : Option Session
  pub anatomy : Option Text
  pub memory : Text
  pub cerebrum : Option Cerebrum
  pub buglog : Option (List Bug)
  pub ledger : Option Ledger
  pub stderr : List Text

-- `process.stderr.write(text)`
abbrev pub warn : Text → World → World
warn text w = record w { stderr = w.stderr ++ text ∷ [] }

-- `appendMarkdown(memoryPath, text)`
abbrev pub append_memory : Text → World → World
append_memory text w = record w { memory = w.memory ++ text }

abbrev pub or_default {ℓ} : {A : Type ℓ} → A → Option A → A
or_default d none = d
or_default d (some a) = a

-- The input of a hook: the fields of the tool call, each `none` where it is missing.
pub record Input : Type 0 where
  pub tool_name : Option Text
  pub file_path : Option Text
  pub path : Option Text
  pub content : Option Text
  pub old_string : Option Text
  pub new_string : Option Text
  pub output_content : Option Text

abbrev or_else : Option Text → Option Text → Option Text
or_else (some t) o = some t
or_else none o = o

-- `input.tool_input?.file_path ?? input.tool_input?.path ?? ""`
abbrev pub input_path : Input → Text
input_path i = or_default [] (or_else i.file_path i.path)
