-- ===== src/BugLog/Ids.antt =====
-- The numbers of the bugs that .wolf/hooks/post-write.js logs in .wolf/buglog.json.
use efipix.Prelude.{
  ℕ, ◌+◌, ◌<◌, some, List, [], ◌∷◌, ◌++◌, ◌≡◌, ◌≢◌, sym, ap, ◌∙◌, arith, length, drop, All,
  Option-cases, Bool-cases, inl, inr, some-injective, none-ne-some,
}
use efipix.Text.{Text, codes}
use efipix.Text.Decimal.{show, pad_start, parse_int, parse_int-show, parse_int-pad_start}
use efipix.World.{Bug, Time}
use efipix.Edit.Detect.{Detection}
use efipix.BugLog.{is_recent_dupe, count_again, new_bug, log_fix}

abbrev pub bug_id : ℕ → Text
bug_id n = codes "bug-" ++ pad_start (show n) 3

read_id : (n : ℕ) → parse_int (drop 4 (bug_id n)) ≡ n
read_id n = parse_int-pad_start (show n) 3 ∙ parse_int-show n

-- The bugs have the ids from `k` on, in their order.
abbrev pub IsNumbered : ℕ → List Bug → Type 0
IsNumbered k [] = Unit
IsNumbered k (b ∷ bs) = (b.id ≡ bug_id k) × IsNumbered (k + 1) bs

IsNumbered-append :
    (k : ℕ) (bs : List Bug) (x : Bug)
    → IsNumbered k bs
    → x.id ≡ bug_id (k + length bs)
    → IsNumbered k (bs ++ x ∷ [])
IsNumbered-append k [] x h e = (e ∙ ap bug_id (omega arith), tt)
IsNumbered-append k (b ∷ bs) x (a, h) e =
    (a, IsNumbered-append (k + 1) bs x h (e ∙ ap bug_id (omega arith)))

module _ (now : Time) (name : Text) (d : Detection) where
  count_again-IsNumbered :
      (k : ℕ) (bs bs' : List Bug)
      → IsNumbered k bs
      → count_again now name d bs ≡ some bs'
      → IsNumbered k bs'
  unfolding count_again
  count_again-IsNumbered k [] bs' n h = absurd (none-ne-some _ h)
  count_again-IsNumbered k (b ∷ bs) bs' (a, n) h = elim (Bool-cases (is_recent_dupe now name d b)) [
    | inl e ↦ rw (← some-injective _ _ (rw (count_again, e) at h)) (a, n)
    | inr e ↦ elim (Option-cases (count_again now name d bs)) [
      | inl e' ↦ absurd (none-ne-some _ (rw (count_again, e, e') at h))
      | inr (cs, e') ↦
          rw (← some-injective _ _ (rw (count_again, e, e') at h))
            (a, count_again-IsNumbered (k + 1) bs cs n e')
    ]
  ]

  log_fix-IsNumbered :
      (rel ext : Text) (bs : List Bug)
      → IsNumbered 1 bs
      → IsNumbered 1 (log_fix now rel name ext d bs)
  unfolding log_fix new_bug
  log_fix-IsNumbered rel ext bs n = elim (Option-cases (count_again now name d bs)) [
    | inl e ↦
        rw (log_fix, e)
          (IsNumbered-append 1 bs (new_bug now rel ext d bs) n (ap bug_id (omega arith)))
    | inr (bs', e) ↦ rw (log_fix, e) (count_again-IsNumbered 1 bs bs' n e)
  ]

-- no two bugs have the same id
abbrev pub Distinct : List Bug → Type 0
Distinct [] = Unit
Distinct (b ∷ bs) = All (λ c. c.id ≢ b.id) bs × Distinct bs

later-differs :
    (j k : ℕ) (i : Text) (bs : List Bug)
    → i ≡ bug_id j
    → j < k
    → IsNumbered k bs
    → All (λ c. c.id ≢ i) bs
later-differs j k i [] e l n = tt
later-differs j k i (b ∷ bs) e l (a, n) = (
  (λ f. other (sym (read_id k) ∙ (ap (λ t. parse_int (drop 4 t)) (sym a ∙ (f ∙ e)) ∙ read_id j))),
  later-differs j (k + 1) i bs e (omega arith) n,
)
  where
    other : k ≡ j → ⊥
    other f = omega arith

IsNumbered-Distinct : (k : ℕ) (bs : List Bug) → IsNumbered k bs → Distinct bs
IsNumbered-Distinct k [] n = tt
IsNumbered-Distinct k (b ∷ bs) (a, n) =
    (later-differs k (k + 1) b.id bs a (omega arith) n, IsNumbered-Distinct (k + 1) bs n)

-- a fix that is logged: when, of which file, and what was detected
pub record Fix : Type 0 where
  pub now : Time
  pub rel : Text
  pub name : Text
  pub ext : Text
  pub detection : Detection

abbrev pub log_all : List Fix → List Bug → List Bug
log_all [] bs = bs
log_all (f ∷ fs) bs = log_all fs (log_fix f.now f.rel f.name f.ext f.detection bs)

log_all-IsNumbered :
    (fs : List Fix) (bs : List Bug) → IsNumbered 1 bs → IsNumbered 1 (log_all fs bs)
log_all-IsNumbered [] bs n = n
log_all-IsNumbered (f ∷ fs) bs n =
    log_all-IsNumbered fs _ (log_fix-IsNumbered f.now f.name f.detection f.rel f.ext bs n)

-- A log that the hook has filled alone, from an empty one on, by any fixes, has no two bugs with the same
-- id, however many there are.
pub log_all-Distinct : (fs : List Fix) → Distinct (log_all fs [])
log_all-Distinct fs = IsNumbered-Distinct 1 (log_all fs []) (log_all-IsNumbered fs [] tt)
