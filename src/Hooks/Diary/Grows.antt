-- ===== src/Hooks/Diary/Grows.antt =====
-- The hooks in any order append to memory.md.
use efipix.Prelude.{ap}
use efipix.World.{World}
use efipix.Hooks.Prints.{pre_write-OnlyPrints}
use efipix.Hooks.Reachable.{
  Step, reading, has_read, writing, has_written, stopping, starting, Reachable, begun, after,
}
use efipix.Hooks.Diary.{
  Appends, kept, Appends-trans, pre_read-memory, post_read-memory, post_write-Appends,
}
use efipix.Hooks.Diary.Ends.{stop-Appends, session_start-Appends}

Step-Appends : (w w' : World) → Step w w' → Appends w w'
Step-Appends w _ (reading env i _) = kept w _ (pre_read-memory env i w)
Step-Appends w _ (has_read env i _) = kept w _ (post_read-memory env i w)
Step-Appends w _ (writing i _) = kept w _ (ap (λ v. v.memory) (pre_write-OnlyPrints i w).1)
Step-Appends w _ (has_written env i d _) = post_write-Appends env i d w
Step-Appends w _ (stopping env _) = stop-Appends env w
Step-Appends w _ (starting env _) = session_start-Appends env w

-- Whatever the hooks do from the start of a session, in any order and with any inputs, memory.md keeps
-- its text and has a text behind it.
pub Reachable-Appends : (start w : World) → Reachable start w → Appends start w
Reachable-Appends start _ (begun env) = session_start-Appends env start
Reachable-Appends start w (after v _ r s) =
    Appends-trans start v w (Reachable-Appends start v r) (Step-Appends v w s)
