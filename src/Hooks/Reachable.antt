-- ===== src/Hooks/Reachable.antt =====
-- The runs of the hooks of .wolf/hooks, in any order and with any input, from the start of a session.
use efipix.Prelude.{Option, true, ◌≡◌}
use efipix.World.{Env, World, Input}
use efipix.Hooks.PreRead.{pre_read}
use efipix.Hooks.PostRead.{post_read}
use efipix.Hooks.PreWrite.{pre_write}
use efipix.Hooks.PostWrite.{post_write, Written}
use efipix.Hooks.Stop.{stop}
use efipix.Hooks.SessionStart.{session_start}
use efipix.Hooks.Tracks.{IsTracked}
use efipix.Hooks.Keeps.{pre_read-IsTracked, post_read-IsTracked}
use efipix.Hooks.KeepsWrites.{pre_write-IsTracked, post_write-IsTracked}
use efipix.Hooks.KeepsEnds.{session_start-IsTracked, stop-IsTracked}

-- One hook is run: before or after a read, before or after a write, when the agent stops, or when
-- another session starts.
pub data Step : World → World → Type 0 where
  reading : (env : Env) (i : Option Input) (w : World) → Step w (pre_read env i w)
  has_read : (env : Env) (i : Option Input) (w : World) → Step w (post_read env i w)
  writing : (i : Option Input) (w : World) → Step w (pre_write i w)
  has_written :
      (env : Env) (i : Option Input) (d : Written) (w : World) → Step w (post_write env i d w)
  stopping : (env : Env) (w : World) → Step w (stop env w)
  starting : (env : Env) (w : World) → Step w (session_start env w)

-- the states that a session comes to
pub data Reachable (start : World) : World → Type 0 where
  begun : (env : Env) → Reachable start (session_start env start)
  after : (w w' : World) → Reachable start w → Step w w' → Reachable start w'

Step-IsTracked : (w w' : World) → Step w w' → IsTracked w → IsTracked w'
Step-IsTracked w _ (reading env i _) k = pre_read-IsTracked env w k i
Step-IsTracked w _ (has_read env i _) k = post_read-IsTracked env w k i
Step-IsTracked w _ (writing i _) k = pre_write-IsTracked i w k
Step-IsTracked w _ (has_written env i d _) k = post_write-IsTracked env i d w k
Step-IsTracked w _ (stopping env _) k = stop-IsTracked env w k
Step-IsTracked w _ (starting env _) k = session_start-IsTracked env w k.wolf

-- Where .wolf/ exists, every state that the hooks reach from the start of a session, in any order
-- and with any inputs, has a session whose lists of reads, writes and edit counts exist and whose
-- counters are numbers. In it the anatomy hits and misses together are at most the files read, each
-- file read has a count of at least one, the reads beyond the first of each file are at most the
-- repeated reads warned of, and the edits counted are at most the writes.
pub Reachable-IsTracked :
    (start w : World) → start.wolf_dir ≡ true → Reachable start w → IsTracked w
Reachable-IsTracked start _ h (begun env) = session_start-IsTracked env start h
Reachable-IsTracked start w h (after v _ r s) =
    Step-IsTracked v w s (Reachable-IsTracked start v h r)
