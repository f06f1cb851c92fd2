-- ===== src/Hooks.antt =====
-- The hooks of .wolf/hooks: one function of the shared state for each hook's `main`. Each ends by
-- `process.exit(0)`, whatever happens, so a hook is a function from state to state.
pub mod Common
pub mod Tracks
pub mod Keeps
pub mod KeepsWrites
pub mod KeepsEnds
pub mod Reachable
pub mod Counting
pub mod Warned
pub mod Ledgers
pub mod Lost
pub mod Diary
pub mod Secrets
pub mod Known
pub mod KnownFile
pub mod Overlap
pub mod Log
pub mod Often
pub mod Upserts
pub mod Prints
pub mod PreRead
pub mod PostRead
pub mod SessionStart
pub mod Stop
pub mod PostWrite
pub mod PreWrite
