-- ===== src/Edit.antt =====
-- What .wolf/hooks/post-write.js says of an edit from its old and new text.
pub mod Bounds
pub mod Unchanged
pub mod Summary
pub mod Words
pub mod Detect
