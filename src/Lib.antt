-- ===== src/Lib.antt =====
-- The agent hooks of the repository, .wolf/hooks/*.js. An editor's agent runs one of them before and
-- after each read and write of a file, when a session starts and when the agent stops. They share
-- the files of .wolf/: the session (hooks/_session.json), the list of the project's files
-- (anatomy.md), the diary (memory.md), the notes (cerebrum.md), the log of bugs (buglog.json) and the
-- ledger of tokens (token-ledger.json); and they print hints to stderr.
--
-- The parts:
--   * Prelude, Text, Sorting: lists and numbers; a text as a list of UTF-16 units with the methods
--     of JavaScript's String that the hooks call; a stable insertion sort for Array.sort.
--   * Regex: the regular expressions of the hooks as a data type with a backtracking matcher.
--     Regex/Paths relates the matcher to the paths of an expression, Regex/Found says what exec and
--     test find, Regex/Ends what fuel a search for all matches needs, and Regex/Build has the notation
--     of the expressions. Globals lists those with the flag g.
--   * NodePath: the functions of node:path that the hooks call, for POSIX paths; the modules
--     below it say what they do to a path of plain parts, which are neither `.` nor `..` and have no
--     slash or backslash.
--   * Tokens: estimateTokens of .wolf/hooks/shared.js.
--   * Anatomy: parseAnatomy and serializeAnatomy of .wolf/hooks/shared.js; the modules below it lead
--     to the round trip in Anatomy/RoundTrip.
--   * Describe: the beginning of extractDescription of .wolf/hooks/shared.js, up to the header comment.
--     Languages: the function as a whole, with a child for each group of languages.
--   * Files: readJSON, writeJSON, readMarkdown and appendMarkdown of .wolf/hooks/shared.js, the saving
--     of anatomy.md in .wolf/hooks/post-write.js and the removal of .tmp files in
--     .wolf/hooks/session-start.js, over a disk whose calls may be refused or torn. Files/Stdin is
--     readStdin, over the events that arrive.
--   * Object: an object that serves as a dictionary, with inherited properties and with canonical
--     indices first.
--   * World: the state that the hooks share, as a record of the decoded files. A number of a JSON
--     object may be missing, null or NaN (World/Numbers).
--   * Edit: summarizeEdit, detectFixPattern and their helpers of .wolf/hooks/post-write.js.
--   * BugLog: autoDetectBugFix of .wolf/hooks/post-write.js.
--   * Hooks: main of each hook. Hooks/PreRead is .wolf/hooks/pre-read.js, Hooks/PostRead
--     .wolf/hooks/post-read.js, Hooks/PreWrite .wolf/hooks/pre-write.js, Hooks/PostWrite
--     .wolf/hooks/post-write.js (Hooks/PostWrite/Listing its part for anatomy.md), Hooks/Stop
--     .wolf/hooks/stop.js and Hooks/SessionStart .wolf/hooks/session-start.js. Each is a function from
--     state to state, in whose definition the early exits of the source are branches that return the
--     state. Hooks/Reachable has the relation of one hook's run to the next, Hooks/Tracks the invariant
--     of the session, Hooks/Log the abstract view of it, Hooks/KnownFile and Hooks/Warned what one hook
--     leaves for the next, and Hooks/Overlap two runs at the same time.
--   * Tests: runs on concrete inputs.
--
-- Bounds and fuel: numbers are natural numbers, as the counts of the hooks are. The star of an
-- expression refuses an iteration that reads nothing, so the length of the text is fuel enough; the
-- search for all matches takes it as fuel too (Globals says when more changes nothing). The
-- quotient of estimateTokens is a fraction of naturals, rounded up. Times are natural milliseconds: a
-- file's time that lies in the future counts as now.
--
-- Parameters: the locale's order of names (localeCompare), the environment and the clock are a record
-- that each hook takes; what the disk holds at a written path, and its first 12,288 bytes decoded, are
-- an argument of post_write; what each call to the disk comes to, and JSON.parse and JSON.stringify,
-- are arguments of the definitions of Files.
--
-- Not modelled: the letters outside ASCII under the flag i and in toLowerCase, JSON's text, the
-- decoding of bytes, the time that passes, and the Go server of cmd and internal. Hooks that run at
-- the same time are modelled for .wolf/hooks/pre-read.js only (Hooks/Overlap). The definitions of
-- Hooks work on the decoded files of World; Files has the way from there to the disk.

pub mod Anatomy
pub mod BugLog
pub mod Describe
pub mod Edit
pub mod Files
pub mod Globals
pub mod Hooks
pub mod Languages
pub mod NodePath
pub mod Object
pub mod Prelude
pub mod Regex
pub mod Sorting
pub mod Tests
pub mod Text
pub mod Tokens
pub mod World
