-- ===== src/Hooks/Overlap.antt =====
-- Two runs of .wolf/hooks/pre-read.js that overlap: both read the session before either saves it.
use efipix.Prelude.{ℕ, Bool, ◌+◌, true, false, ◌≡◌, refl, ap, ◌∙◌, sym, arith, if◌then◌else◌}
use efipix.Text.{Text, equal}
use efipix.Text.Laws.{equal_refl}
use efipix.Object.{find_own, is_inherited}
use efipix.World.{Env, Session, World}
use efipix.Hooks.Tracks.{IsTracked}
use efipix.Hooks.PreRead
use efipix.Hooks.Counting.{reads_counted, count_in, on_read-count, reads_of-eq}

not_one : (n : ℕ) (b : Bool) → b ≡ false → n + (if b then 1 else 0) ≡ n
not_one n true e = absurd (cc)
not_one n false e = omega arith

one : (n : ℕ) (b : Bool) → b ≡ true → n + (if b then 1 else 0) ≡ n + 1
one n true e = refl
one n false e = absurd (cc)

-- the first hook saves, and then the second one, which knows the session from before
abbrev pub overlap : Env → Text → Text → Session → World → World
overlap env f g s w = PreRead.in_session env g s (PreRead.in_session env f s w)

-- Where the session is tracked, and two runs of the hook for different files both read it before either
-- saves it, the later one, if its file is not named like a property that every object inherits, counts
-- its own file's read, and the read of the other file is lost: its count is what it was.
pub overlap-loses :
    (env : Env) (f g : Text) (w : World) (k : IsTracked w)
    → is_inherited g ≡ false
    → equal g f ≡ false
    → (reads_counted f (overlap env f g k.session w) ≡ reads_counted f w)
      × (reads_counted g (overlap env f g k.session w) ≡ reads_counted g w + 1)
unfolding PreRead.in_session
overlap-loses env f g w k h e =
    let kept = λ (j : Text). ap (λ o. count_in (find_own j o)) (sym (reads_of-eq w k)) in
    (
      counts f ∙ (not_one (count_in (find_own f k.tracks.reads)) (equal g f) e ∙ kept f),
      counts g
          ∙ (one (count_in (find_own g k.tracks.reads)) (equal g g) (equal_refl g)
              ∙ ap (λ n. n + 1) (kept g)),
    )
  where
    counts :
        (j : Text)
        → reads_counted j (overlap env f g k.session w)
          ≡ count_in (find_own j k.tracks.reads) + (if equal g j then 1 else 0)
    counts j =
        simp (PreRead.in_session, k.tracks.has_reads)
          (on_read-count env g j k.session k.tracks.reads _ h)
