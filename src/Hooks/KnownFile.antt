-- ===== src/Hooks/KnownFile.antt =====
-- The file that .wolf/hooks/post-write.js enters in anatomy.md is found there by
-- .wolf/hooks/pre-read.js: the path by which the one lists it is the path that the other looks for.
use efipix.Prelude.{List, [], ◌∷◌, ◌++◌}
use efipix.Text.{Text, codes}
use efipix.NodePath.Parts.{slashed}
use efipix.World.{World}
use efipix.Hooks.PostWrite
use efipix.Hooks.PostWrite.{kind_of}

-- what stands in front of the path below the directories `rs`
ahead : List Text → Text
ahead [] = codes "/"
ahead (r ∷ rs) = slashed (r ∷ rs) ++ codes "/"
