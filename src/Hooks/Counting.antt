-- ===== src/Hooks/Counting.antt =====
-- What .wolf/hooks/pre-read.js counts: the reads of each file.
use efipix.Prelude.{
  ℕ, ◌+◌, false, Option, none, some, [], ◌∷◌, ◌≡◌, refl, ap, ◌∙◌, sym, arith, Option-cases,
  Bool-cases, inl, inr, if◌then◌else◌,
}
use efipix.Text.{Text, equal}
use efipix.Text.Laws.{equal_iff}
use efipix.NodePath.{normalize_path}
use efipix.Anatomy.{parse_anatomy}
use efipix.Object.{Object, get, find_own, set, is_inherited}
use efipix.Object.Laws.{find_own-set}
use efipix.World.{Env, Session, World, Input, ReadInfo, or_default, input_path}
use efipix.Hooks.Common.{is_internal, saved_session}
use efipix.Hooks.Tracks.{IsTracked}
use efipix.Hooks.PreRead
use efipix.Hooks.PreRead.{
  already_read, pre_read, on_read, on_first_read, find_section_entry, first_read,
}
use efipix.Hooks.Keeps.{pre_read_lem}

-- `session.files_read`
abbrev pub reads_of : World → Object ReadInfo
reads_of w = elim w.session [ none ↦ [] | some s ↦ or_default [] s.files_read ]

-- how often a file was read
abbrev pub count_in : Option ReadInfo → ℕ
count_in none = 0
count_in (some r) = r.count

abbrev pub reads_counted : Text → World → ℕ
reads_counted file w = count_in (find_own file (reads_of w))

pub count-set :
    (file j : Text) (r : ReadInfo) (o : Object ReadInfo) (n : ℕ)
    → r.count ≡ n + 1
    → count_in (find_own file o) ≡ n
    → count_in (find_own j (set file r o))
      ≡ count_in (find_own j o) + (if equal file j then 1 else 0)
count-set file j r o n h e = elim (Bool-cases (equal file j)) [
  | inl b ↦ rw (find_own-set file r j o, b, h, ← ((equal_iff file j).0 b), e) refl
  | inr b ↦ rw (find_own-set file r j o, b) (omega arith)
]

module _ (env : Env) (file j : Text) (s : Session) (reads : Object ReadInfo) (w : World) where
  on_first_read-count :
      find_own file reads ≡ none
      → reads_counted j (on_first_read env file s reads w)
        ≡ count_in (find_own j reads) + (if equal file j then 1 else 0)
  unfolding on_first_read saved_session
  on_first_read-count e =
      elim (Option-cases (find_section_entry file (parse_anatomy (or_default [] w.anatomy)))) [
        | inl m ↦
            simp (on_first_read, m) (count-set file j (first_read env) reads 0 refl (ap count_in e))
        | inr (x, m) ↦
            simp (on_first_read, m) (count-set file j (first_read env) reads 0 refl (ap count_in e))
      ]

  pub on_read-count :
      is_inherited file ≡ false
      → reads_counted j (on_read env file s reads w)
        ≡ count_in (find_own j reads) + (if equal file j then 1 else 0)
  unfolding on_read get saved_session
  on_read-count h = elim (Option-cases (find_own file reads)) [
    | inl e ↦ simp (on_read, get, e, h) (on_first_read-count e)
    | inr (r, e) ↦
        simp (on_read, get, e)
          (count-set file j (record r { count = r.count + 1 }) reads r.count refl (ap count_in e))
  ]

pub reads_of-eq : (w : World) (k : IsTracked w) → reads_of w ≡ k.tracks.reads
reads_of-eq w k = simp (reads_of, k.has_session, k.tracks.has_reads) refl

-- In a tracked state, pre-read.js adds one to the count of the file that is about to be read, where it
-- is outside .wolf/ and not named like a property that every object inherits, and leaves the count
-- of each other file as it is.
pub pre_read-counts :
    (env : Env) (i : Input) (w : World) (c : ℕ) (p file j : Text)
    → IsTracked w
    → input_path i ≡ c ∷ p
    → normalize_path (c ∷ p) ≡ file
    → is_internal env file ≡ false
    → is_inherited file ≡ false
    → reads_counted j (pre_read env (some i) w)
      ≡ reads_counted j w + (if equal file j then 1 else 0)
unfolding PreRead.on_path PreRead.in_session
pre_read-counts env i w c p file j k e e' outside ordinary =
    let go : reads_counted j (pre_read env (some i) w)
        ≡ count_in (find_own j k.tracks.reads) + (if equal file j then 1 else 0) =
      simp
        (
          pre_read_lem env w i,
          e,
          k.wolf,
          e',
          outside,
          k.has_session,
          PreRead.in_session,
          k.tracks.has_reads,
        )
        (on_read-count env file j k.session k.tracks.reads w ordinary) in
    go ∙ ap (λ o. count_in (find_own j o) + (if equal file j then 1 else 0)) (sym (reads_of-eq w k))
