-- ===== src/Hooks/Log/Refines.antt =====
-- Each run of a hook of .wolf/hooks is one event of the log.
use efipix.Prelude.{none, some, [], ◌∷◌, ◌≡◌, ◌⊎◌, inl, inr, refl, ap, sym, Bool-cases, subst}
use efipix.Text.{Text}
use efipix.NodePath.{normalize_path}
use efipix.World.{Env, World, Input, input_path, or_default}
use efipix.Hooks.Common.{is_internal}
use efipix.Hooks.Tracks.{IsTracked}
use efipix.Hooks.Keeps.{pre_read_lem, pre_read-none, post_read_lem, post_read-none}
use efipix.Hooks.PreWrite.{pre_write}
use efipix.Hooks.PreRead
use efipix.Hooks.PreRead.{pre_read}
use efipix.Hooks.PostRead
use efipix.Hooks.PostRead.{post_read, read_tokens}
use efipix.Hooks.Log.{Log, Event, idle, wrote, began, apply, Agree, Follows, log_of}
use efipix.Hooks.Log.Ends.{
  old, log-tracked, session-Follows, post_write-Writes, stop-Follows, session_start-Follows,
  post_write-none,
}
use efipix.Hooks.Prints.{pre_write-OnlyPrints}
use efipix.Hooks.PostWrite.{post_write}
use efipix.Hooks.Reachable.{Step, reading, has_read, writing, has_written, stopping, starting}
use efipix.Hooks.Log.Reads.{IsReadOf, Reads, pre_session-Reads, post_session-Reads}

module _ (w : World) (k : IsTracked w) where
  idle-Reads : (f : Text) → Reads f (old w k) w
  idle-Reads f = (idle, inl refl, session-Follows w k w refl)

  module _ (env : Env) where
    pre_path-Reads : (p : Text) → Reads (normalize_path p) (old w k) (PreRead.on_path env p w)
    unfolding PreRead.on_path
    pre_path-Reads [] = idle-Reads _
    pre_path-Reads (c ∷ p) = elim (Bool-cases (is_internal env (normalize_path (c ∷ p)))) [
      | inl e ↦ rw e (idle-Reads _)
      | inr e ↦
          simp (e, k.has_session)
            (pre_session-Reads (normalize_path (c ∷ p)) k.session k.tracks env w)
    ]

    post_path-Reads :
        (p content : Text) → Reads (normalize_path p) (old w k) (PostRead.on_path env p content w)
    unfolding PostRead.on_path
    post_path-Reads [] content = idle-Reads _
    post_path-Reads (c ∷ p) content = elim (Bool-cases (is_internal env (normalize_path (c ∷ p)))) [
      | inl e ↦ rw e (idle-Reads _)
      | inr e ↦
          simp (e, k.has_session)
            (post_session-Reads (normalize_path (c ∷ p)) k.session k.tracks env w
              (read_tokens (c ∷ p) (normalize_path (c ∷ p)) content w))
    ]

    pre_read-Reads :
        (i : Input) → Reads (normalize_path (input_path i)) (old w k) (pre_read env (some i) w)
    pre_read-Reads i = simp (pre_read_lem env w i, k.wolf) (pre_path-Reads (input_path i))

    post_read-Reads :
        (i : Input) → Reads (normalize_path (input_path i)) (old w k) (post_read env (some i) w)
    post_read-Reads i =
        simp (post_read_lem env w i, k.wolf)
          (post_path-Reads (input_path i) (or_default [] i.output_content))

-- What a run of a hook may be: a read of its file or nothing, a write or nothing, nothing, or the
-- start of a session.
abbrev pub IsOf : (w w' : World) → Step w w' → Event → Type 0
IsOf w _ (reading env none _) e = e ≡ idle
IsOf w _ (reading env (some i) _) e = IsReadOf (normalize_path (input_path i)) e
IsOf w _ (has_read env none _) e = e ≡ idle
IsOf w _ (has_read env (some i) _) e = IsReadOf (normalize_path (input_path i)) e
IsOf w _ (writing i _) e = e ≡ idle
IsOf w _ (has_written env none d _) e = e ≡ idle
IsOf w _ (has_written env (some i) d _) e = (e ≡ idle) ⊎ (e ≡ wrote)
IsOf w _ (stopping env _) e = e ≡ idle
IsOf w _ (starting env _) e = e ≡ began

abbrev Is : (w w' : World) → Step w w' → Log → Type 0
Is w w' s l = (e : Event) × IsOf w w' s e × Follows e l w'

Step-Is : (w w' : World) (s : Step w w') (k : IsTracked w) → Is w w' s (old w k)
Step-Is w _ (reading env none _) k = (
  idle,
  refl,
  session-Follows w k (pre_read env none w) (ap (λ v. v.session) (pre_read-none env w)),
)
Step-Is w _ (reading env (some i) _) k = pre_read-Reads w k env i
Step-Is w _ (has_read env none _) k = (
  idle,
  refl,
  session-Follows w k (post_read env none w) (ap (λ v. v.session) (post_read-none env w)),
)
Step-Is w _ (has_read env (some i) _) k = post_read-Reads w k env i
Step-Is w _ (writing i _) k = (
  idle,
  refl,
  session-Follows w k (pre_write i w) (ap (λ v. v.session) (pre_write-OnlyPrints i w).1),
)
Step-Is w _ (has_written env none d _) k = (
  idle,
  refl,
  session-Follows w k (post_write env none d w) (ap (λ v. v.session) (post_write-none env d w)),
)
Step-Is w _ (has_written env (some i) d _) k = post_write-Writes w k env i d
Step-Is w _ (stopping env _) k = (idle, refl, stop-Follows w k env)
Step-Is w _ (starting env _) k = (began, refl, session_start-Follows (old w k) env w k.wolf)

-- In a tracked state each run of a hook, whatever its input, is one event of the log, as far as the
-- session's counts of reads and its number of writes go: the hooks before and after a read add one to the
-- reads of their file alone, or change nothing; the hook after a write adds one write, or changes
-- nothing; a start sets all back to nothing; the others change nothing.
pub Step-refines :
    (w w' : World) (s : Step w w')
    → IsTracked w
    → (e : Event) × IsOf w w' s e × Agree (log_of w') (apply e (log_of w))
Step-refines w w' s k = subst (λ l. Is w w' s l) (sym (log-tracked w k)) (Step-Is w w' s k)
