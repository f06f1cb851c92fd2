-- ===== src/Tests/Listed.antt =====
-- A file that .wolf/hooks/post-write.js lists and .wolf/hooks/pre-read.js finds.
use efipix.Prelude.{some, [], ◌∷◌}
use efipix.Text.{Text, codes, join}
use efipix.Tests.Sessions.{env, read_main}
use efipix.Hooks.PostWrite.{Written, new_entry}
use efipix.World.{Input}
use efipix.Anatomy.{Entry}

-- a new file of the project that the table of known names describes
abbrev write_module : Input
write_module = record read_main { file_path = some (codes "/p/src/go.mod") }

abbrev on_disk : Written
on_disk = record { full = some (codes "module p"); start = some (codes "module p") }

abbrev module_entry : Entry
module_entry =
    new_entry env (codes "/p/src/go.mod") write_module on_disk (codes "Go module definition")

abbrev src_path : Text
src_path = join (codes "src" ∷ codes "go.mod" ∷ []) (codes "/")
