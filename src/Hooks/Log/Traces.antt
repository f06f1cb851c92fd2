-- ===== src/Hooks/Log/Traces.antt =====
-- Whole sessions of the hooks of .wolf/hooks as runs of the abstract log.
use efipix.Prelude.{◌+◌, true, List, [], ◌∷◌, ◌≡◌, refl, ap, ◌∙◌, if◌then◌else◌}
use efipix.Text.{equal}
use efipix.World.{World}
use efipix.Hooks.Reachable.{Reachable, begun, after, Reachable-IsTracked}
use efipix.Hooks.Log.{Log, Event, idle, wrote, began, one_read, apply, Agree, log_of}
use efipix.Hooks.Log.Ends.{session_start-Follows}
use efipix.Hooks.Log.Refines.{IsOf, Step-refines}

abbrev pub empty : Log
empty = record { reads = λ j. 0; writes = 0 }

-- the log after the events, the latest of which comes first
abbrev pub replay : List Event → Log
replay [] = empty
replay (e ∷ es) = apply e (replay es)

-- The events are those of the runs, one for each.
abbrev pub Traces : (start w : World) → Reachable start w → List Event → Type 0
Traces start _ (begun env) es = es ≡ began ∷ []
Traces start w (after v _ r s) es =
    (e : Event) × (rest : List Event) × (es ≡ e ∷ rest) × IsOf v w s e × Traces start v r rest

apply-Agree : (e : Event) (a b : Log) → Agree a b → Agree (apply e a) (apply e b)
apply-Agree idle a b (r, w) = (r, w)
apply-Agree wrote a b (r, w) = (r, ap (λ n. n + 1) w)
apply-Agree began a b (r, w) = ((λ j. refl), refl)
apply-Agree (one_read f) a b (r, w) = ((λ j. ap (λ n. n + (if equal f j then 1 else 0)) (r j)), w)

Agree-trans : (a b c : Log) → Agree a b → Agree b c → Agree a c
Agree-trans a b c (r, w) (r', w') = ((λ j. r j ∙ r' j), w ∙ w')

-- Where .wolf/ exists, every state that the hooks reach from the start of a session, in any order and with
-- any inputs, has the counts of reads and the number of writes that the abstract log has after one
-- event for each run, which is an event that the run may be.
pub Reachable-replay :
    (start w : World) (r : Reachable start w)
    → start.wolf_dir ≡ true
    → (es : List Event) × Traces start w r es × Agree (log_of w) (replay es)
Reachable-replay start _ (begun env) h = (began ∷ [], refl, session_start-Follows empty env start h)
Reachable-replay start w (after v _ r s) h =
    let (es, traced, agree) = Reachable-replay start v r h in
    let (e, is, follows) = Step-refines v w s (Reachable-IsTracked start v h r) in
    (
      e ∷ es,
      (e, es, refl, is, traced),
      Agree-trans (log_of w) (apply e (log_of v)) (replay (e ∷ es)) follows
          (apply-Agree e (log_of v) (replay es) agree),
    )
