-- ===== src/BugLog/Laws.antt =====
-- How the log of .wolf/buglog.json grows: `autoDetectBugFix` of .wolf/hooks/post-write.js.
use efipix.Prelude.{
  ℕ, ◌+◌, ◌-◌, ◌≤◌, ◌<◌, Bool, true, false, ◌&&◌, ◌||◌, some, List, [], ◌∷◌, ◌++◌, ◌≡◌, refl, arith,
  ltb, lt→ltb, length, length-append, any, Option-cases, Bool-cases, inl, inr, some-injective,
  none-ne-some,
}
use efipix.Text.{Text, equal}
use efipix.Text.Laws.{equal_refl}
use efipix.NodePath.{basename}
use efipix.Tokens.{one_of}
use efipix.World.{Bug, Time}
use efipix.Edit.Detect.{Detection}
use efipix.BugLog.{
  is_recent_dupe, again, count_again, new_bug, log_fix, window, auto_detected, category_text,
}

-- the sum of the occurrences
abbrev pub occurrences : List Bug → ℕ
occurrences [] = 0
occurrences (b ∷ bs) = b.occurrences + occurrences bs

occurrences-append :
    (bs : List Bug) (b : Bug) → occurrences (bs ++ b ∷ []) ≡ occurrences bs + b.occurrences
occurrences-append [] b = omega arith
occurrences-append (x ∷ bs) b = omega (arith, occurrences-append bs b)

module _ (now : Time) (name : Text) (d : Detection) where
  -- Counting a duplicate once more changes the one bug only.
  count_again-counts :
      (bs bs' : List Bug)
      → count_again now name d bs ≡ some bs'
      → (occurrences bs' ≡ occurrences bs + 1) × (length bs' ≡ length bs)
  unfolding count_again
  count_again-counts [] bs' h = absurd (none-ne-some _ h)
  count_again-counts (b ∷ bs) bs' h = elim (Bool-cases (is_recent_dupe now name d b)) [
    | inl e ↦ rw (← some-injective _ _ (rw (count_again, e) at h)) (omega arith, refl)
    | inr e ↦ elim (Option-cases (count_again now name d bs)) [
      | inl e' ↦ absurd (none-ne-some _ (rw (count_again, e, e') at h))
      | inr (cs, e') ↦
          let (o, l) = count_again-counts bs cs e' in
          rw (← some-injective _ _ (rw (count_again, e, e') at h))
            (omega (arith, o), omega (arith, l))
    ]
  ]

  any-count_again :
      (bs : List Bug)
      → any (is_recent_dupe now name d) bs ≡ true
      → (bs' : List Bug) × (count_again now name d bs ≡ some bs')
  unfolding count_again
  any-count_again [] h = absurd (false-ne-true h)
    where
      false-ne-true : false ≡ true → ⊥
      false-ne-true e = cc
  any-count_again (b ∷ bs) h = elim (Bool-cases (is_recent_dupe now name d b)) [
    | inl e ↦ (again now d b ∷ bs, rw (count_again, e) refl)
    | inr e ↦
        let (cs, e') = any-count_again bs (rw e at h) in (b ∷ cs, rw (count_again, e, e') refl)
  ]

-- Logging a fix adds one occurrence to the log, be it to a recent duplicate or by a new bug, and at
-- most one bug.
pub log_fix-occurrences :
    (now : Time) (rel name ext : Text) (d : Detection) (bugs : List Bug)
    → (occurrences (log_fix now rel name ext d bugs) ≡ occurrences bugs + 1)
      × (length (log_fix now rel name ext d bugs) ≤ length bugs + 1)
unfolding log_fix new_bug
log_fix-occurrences now rel name ext d bugs = elim (Option-cases (count_again now name d bugs)) [
  | inl e ↦
      rw (log_fix, e)
        (
          occurrences-append bugs (new_bug now rel ext d bugs),
          omega (arith, length-append bugs (new_bug now rel ext d bugs ∷ [])),
        )
  | inr (bs, e) ↦
      let (o, l) = count_again-counts now name d bugs bs e in rw (log_fix, e) (o, omega (arith, l))
]

and-true : (a b : Bool) → (a && b) ≡ true → (a ≡ true) × (b ≡ true)
and-true a b h = ground arith

any-append {ℓ} :
    {A : Type ℓ} (p : A → Bool) (xs : List A) (y : A) → p y ≡ true → any p (xs ++ y ∷ []) ≡ true
any-append p [] y h = rw h refl
any-append p (x ∷ xs) y h = elim (Bool-cases (p x)) [
  | inl e ↦ rw e refl
  | inr e ↦ rw e (any-append p xs y h)
]

module _ (now later : Time) (name : Text) (d : Detection) (soon : later.ms - now.ms < window) where
  again-dupe :
      (b : Bug)
      → is_recent_dupe now name d b ≡ true
      → is_recent_dupe later name d (again now d b) ≡ true
  unfolding is_recent_dupe
  again-dupe b h =
      let (e, h1) = and-true (equal (basename b.file) name) _ h in
      let (e', h2) = and-true (one_of b.tags auto_detected) _ h1 in
      let (e'', h3) =
        and-true (one_of b.tags (category_text d.category)) (ltb (now.ms - b.last_seen.ms) window)
          h2 in
      rw (e, e', e'', lt→ltb _ _ soon) refl

  count_again-dupe :
      (bs bs' : List Bug)
      → count_again now name d bs ≡ some bs'
      → any (is_recent_dupe later name d) bs' ≡ true
  unfolding count_again
  count_again-dupe [] bs' h = absurd (none-ne-some _ h)
  count_again-dupe (b ∷ bs) bs' h = elim (Bool-cases (is_recent_dupe now name d b)) [
    | inl e ↦ rw (← some-injective _ _ (rw (count_again, e) at h), again-dupe b e) refl
    | inr e ↦ elim (Option-cases (count_again now name d bs)) [
      | inl e' ↦ absurd (none-ne-some _ (rw (count_again, e, e') at h))
      | inr (cs, e') ↦
          rw (← some-injective _ _ (rw (count_again, e, e') at h))
            (or-true (is_recent_dupe later name d b) (count_again-dupe bs cs e'))
    ]
  ]
    where
      or-true : (a : Bool) {b : Bool} → b ≡ true → (a || b) ≡ true
      or-true true h = refl
      or-true false h = h

  module _ (rel ext : Text) (named : basename rel ≡ name) where
    new_bug-dupe :
        (bugs : List Bug) → is_recent_dupe later name d (new_bug now rel ext d bugs) ≡ true
    unfolding is_recent_dupe new_bug one_of
    new_bug-dupe bugs =
        rw
          (
            named,
            equal_refl name,
            equal_refl auto_detected,
            equal_refl (category_text d.category),
            lt→ltb _ _ soon,
          )
          (tag (equal auto_detected (category_text d.category)))
      where
        tag : (a : Bool) → ((a || true) && true) ≡ true
        tag true = refl
        tag false = refl

    log_fix-dupe :
        (bugs : List Bug)
        → any (is_recent_dupe later name d) (log_fix now rel name ext d bugs) ≡ true
    unfolding log_fix
    log_fix-dupe bugs = elim (Option-cases (count_again now name d bugs)) [
      | inl e ↦ rw (log_fix, e) (any-append _ bugs (new_bug now rel ext d bugs) (new_bug-dupe bugs))
      | inr (bs, e) ↦ rw (log_fix, e) (count_again-dupe bugs bs e)
    ]

length-log_fix_dupe :
    (later : Time) (rel name ext : Text) (d : Detection) (bugs : List Bug)
    → any (is_recent_dupe later name d) bugs ≡ true
    → length (log_fix later rel name ext d bugs) ≡ length bugs
unfolding log_fix
length-log_fix_dupe later rel name ext d bugs h =
    let (bs, e) = any-count_again later name d bugs h in
    rw (log_fix, e) (count_again-counts later name d bugs bs e).1

-- The same fix of the same file, logged again less than five minutes later, adds no bug to the log.
pub length-log_fix_again :
    (now later : Time) (rel name ext : Text) (d : Detection) (bugs : List Bug)
    → later.ms - now.ms < window
    → basename rel ≡ name
    → length (log_fix later rel name ext d (log_fix now rel name ext d bugs))
      ≡ length (log_fix now rel name ext d bugs)
length-log_fix_again now later rel name ext d bugs soon named =
    length-log_fix_dupe later rel name ext d (log_fix now rel name ext d bugs)
      (log_fix-dupe now later name d soon rel ext named bugs)
