-- ===== src/Hooks/Log/Reads.antt =====
-- The reads as events: .wolf/hooks/pre-read.js and .wolf/hooks/post-read.js.
use efipix.Prelude.{ℕ, ◌+◌, some, [], ◌≡◌, ◌⊎◌, inl, inr, refl, ap, Option-cases, Bool-cases}
use efipix.Text.{Text, equal}
use efipix.Anatomy.{parse_anatomy}
use efipix.Object.{Object, get, find_own, set, absent}
use efipix.Text.Laws.{equal_iff}
use efipix.Object.Laws.{Property-cases, find_own-set}
use efipix.Object.Sizes.{get-eq-own, get-eq-absent}
use efipix.World.{Env, Session, World, ReadInfo, or_default}
use efipix.Hooks.Common.{write_session}
use efipix.Hooks.Tracks.{Tracks}
use efipix.Hooks.Counting.{count_in, count-set}
use efipix.Hooks.PreRead
use efipix.Hooks.PreRead.{on_read, on_first_read, find_section_entry, first_read}
use efipix.Hooks.PostRead
use efipix.Hooks.PostRead.{record_tokens}
use efipix.Hooks.Log.{Log, Event, idle, one_read, apply, Agree, Follows, log_with, saved-Follows}

-- a read of the file is what happens, or nothing
abbrev pub IsReadOf : Text → Event → Type 0
IsReadOf f e = (e ≡ idle) ⊎ (e ≡ one_read f)

abbrev pub Reads : Text → Log → World → Type 0
Reads f l w = (e : Event) × IsReadOf f e × Follows e l w

count-kept :
    (file j : Text) (r r' : ReadInfo) (o : Object ReadInfo)
    → find_own file o ≡ some r
    → r'.count ≡ r.count
    → count_in (find_own j (set file r' o)) ≡ count_in (find_own j o)
count-kept file j r r' o e h = elim (Bool-cases (equal file j)) [
  | inl b ↦ rw (find_own-set file r' j o, b, h, ← ((equal_iff file j).0 b), e) refl
  | inr b ↦ rw (find_own-set file r' j o, b) refl
]

module _ (file : Text) (s : Session) (t : Tracks s) where
  abbrev old : Log
  old = log_with t.reads t.writes

  idle-Agree : Agree (log_with t.reads t.writes) (apply idle old)
  idle-Agree = ((λ j. refl), refl)

  set-Agree :
      (r : ReadInfo) (n : ℕ)
      → r.count ≡ n + 1
      → count_in (find_own file t.reads) ≡ n
      → Agree (log_with (set file r t.reads) t.writes) (apply (one_read file) old)
  set-Agree r n h e = ((λ j. count-set file j r t.reads n h e), refl)

  module _ (env : Env) (w : World) where
    on_first_read-Reads :
        get file t.reads ≡ absent → Reads file old (on_first_read env file s t.reads w)
    unfolding on_first_read
    on_first_read-Reads e =
        let a = set-Agree (first_read env) 0 refl (ap count_in (get-eq-absent file t.reads e)) in
        elim (Option-cases (find_section_entry file (parse_anatomy (or_default [] w.anatomy)))) [
          | inl m ↦
              simp (on_first_read, m)
                (
                  one_read file,
                  inr refl,
                  saved-Follows (one_read file) old _ w _ _ refl t.has_writes a,
                )
          | inr (x, m) ↦
              simp (on_first_read, m)
                (
                  one_read file,
                  inr refl,
                  saved-Follows (one_read file) old _ w _ _ refl t.has_writes a,
                )
        ]

    on_read-Reads : Reads file old (on_read env file s t.reads w)
    unfolding on_read
    on_read-Reads = elim (Property-cases (get file t.reads)) [
      | inl (r, e) ↦
          rw (on_read, e)
            (
              one_read file,
              inr refl,
              saved-Follows (one_read file) old _ w _ _ refl t.has_writes (
                  set-Agree (record r { count = r.count + 1 }) r.count refl
                    (ap count_in (get-eq-own file t.reads r e))),
            )
      | inr (inl e) ↦
          rw (on_read, e)
            (idle, inl refl, saved-Follows idle old _ w _ _ t.has_reads t.has_writes idle-Agree)
      | inr (inr e) ↦ rw (on_read, e) (on_first_read-Reads e)
    ]

    pub pre_session-Reads : Reads file old (PreRead.in_session env file s w)
    unfolding PreRead.in_session
    pre_session-Reads = rw (PreRead.in_session, t.has_reads) on_read-Reads

    tokens-Reads :
        (n : ℕ)
        → Reads file old
            (write_session (record s { files_read = some (record_tokens env file n t.reads) }) w)
    unfolding record_tokens
    tokens-Reads n = elim (Property-cases (get file t.reads)) [
      | inl (r, e) ↦
          simp (record_tokens, e)
            (
              idle,
              inl refl,
              saved-Follows idle old _ w _ _ refl t.has_writes (
                (λ j.
                    count-kept file j r (record r { tokens = n }) t.reads
                      (get-eq-own file t.reads r e) refl),
                refl,
              ),
            )
      | inr (inl e) ↦
          simp (record_tokens, e)
            (idle, inl refl, saved-Follows idle old _ w _ _ refl t.has_writes idle-Agree)
      | inr (inr e) ↦
          simp (record_tokens, e)
            (
              one_read file,
              inr refl,
              saved-Follows (one_read file) old _ w _ _ refl t.has_writes (
                  set-Agree (record { count = 1; tokens = n; first_read = env.now.iso }) 0 refl
                    (ap count_in (get-eq-absent file t.reads e))),
            )
    ]

    pub post_session-Reads : (n : ℕ) → Reads file old (PostRead.in_session env file n s w)
    unfolding PostRead.in_session
    post_session-Reads n = rw (PostRead.in_session, t.has_reads) (tokens-Reads n)
