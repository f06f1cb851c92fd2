-- ===== src/Regex/Runs.antt =====
-- Runs of the matcher over a text whose beginning is known: a class repeated, greedily and lazily,
-- a literal, a capture. `r` is the text behind, and `k` the continuation.
use efipix.Prelude.{
  ℕ, zero, suc, ◌-◌, ◌≤◌, Bool, true, false, Option, none, some, List, [], ◌∷◌, ◌++◌, ◌≡◌, ◌≢◌,
  refl, arith, ltb, lt→ltb, length, take-length-append, length-append, All,
}
use efipix.Text.{Text}
use efipix.Regex.{
  Regex, chr, seq, star, lazy, bol, At, Cont, Match, at_bol, star_loop, lazy_loop, between, capture,
  run, exec_from, exec,
}

abbrev pub at : Option ℕ → Text → List (ℕ × Text) → At
at p r c = record { prev = p; rest = r; caps = c }

-- the unit before the place behind `w`
abbrev pub last : Option ℕ → Text → Option ℕ
last p [] = p
last p (c ∷ w) = last (some c) w

abbrev pub Are : (ℕ → Bool) → Text → Type 0
Are p = All (λ c. p c ≡ true)

-- The class ends here.
abbrev pub Stops : (ℕ → Bool) → Text → Type 0
Stops p [] = Unit
Stops p (c ∷ r) = p c ≡ false

lt_length-cons : (x : ℕ) (r : Text) → ltb (length r) (length (x ∷ r)) ≡ true
lt_length-cons x r = lt→ltb _ _ (omega arith)

module _ (p : ℕ → Bool) (c : List (ℕ × Text)) (k : Cont) where
  star_eats :
      (n x : ℕ) (r : Text) (q : Option ℕ) {t : At}
      → p x ≡ true
      → star_loop (run (chr p)) n (at (some x) r c) k ≡ some t
      → star_loop (run (chr p)) (suc n) (at q (x ∷ r) c) k ≡ some t
  unfolding star_loop run
  star_eats n x r q px h = rw (star_loop, run, px, lt_length-cons x r, h)

  star-Stops :
      (n : ℕ) (r : Text) (q : Option ℕ) {t : At}
      → Stops p r
      → k (at q r c) ≡ some t
      → star_loop (run (chr p)) n (at q r c) k ≡ some t
  unfolding star_loop run
  star-Stops zero r q s h = h
  star-Stops (suc n) [] q s h = h
  star-Stops (suc n) (x ∷ r) q s h = rw s h

  lazy_hits : (n : ℕ) (s : At) {t : At} → k s ≡ some t → lazy_loop (run (chr p)) n s k ≡ some t
  unfolding lazy_loop
  lazy_hits zero s h = h
  lazy_hits (suc n) s h = rw (h, lazy_loop)

  lazy_eats :
      (n x : ℕ) (r : Text) (q : Option ℕ) {t : At}
      → p x ≡ true
      → k (at q (x ∷ r) c) ≡ none
      → lazy_loop (run (chr p)) n (at (some x) r c) k ≡ some t
      → lazy_loop (run (chr p)) (suc n) (at q (x ∷ r) c) k ≡ some t
  unfolding lazy_loop run
  lazy_eats n x r q px miss h = rw (lazy_loop, miss, run, px, lt_length-cons x r, h)

module _ (p : ℕ → Bool) (r : Text) (c : List (ℕ × Text)) (k : Cont) (t : At) where
  star_loop-Are :
      (n : ℕ) (w : Text) (q : Option ℕ)
      → Are p w
      → Stops p r
      → length w ≤ n
      → k (at (last q w) r c) ≡ some t
      → star_loop (run (chr p)) n (at q (w ++ r) c) k ≡ some t
  star_loop-Are n [] q a s l h = star-Stops p c k n r q s h
  star_loop-Are zero (x ∷ w) q a s l h = absurd (omega arith)
  star_loop-Are (suc n) (x ∷ w) q (px, a) s l h =
      star_eats p c k n x (w ++ r) q px (star_loop-Are n w (some x) a s (omega arith) h)

  -- A greedy repetition takes the longest run of its class, if the rest succeeds behind it.
  pub run-star :
      (w : Text) (q : Option ℕ)
      → Are p w
      → Stops p r
      → k (at (last q w) r c) ≡ some t
      → run (star (chr p)) (at q (w ++ r) c) k ≡ some t
  unfolding run
  run-star w q a s h = star_loop-Are _ w q a s (omega (arith, length-append w r)) h

  -- `k` fails in front of each end of `w`.
  abbrev pub FailsIn : Option ℕ → Text → Type 0
  FailsIn q [] = Unit
  FailsIn q (x ∷ w) = (k (at q (x ∷ (w ++ r)) c) ≡ none) × FailsIn (some x) w

  lazy_loop-Are :
      (n : ℕ) (w : Text) (q : Option ℕ)
      → Are p w
      → FailsIn q w
      → length w ≤ n
      → k (at (last q w) r c) ≡ some t
      → lazy_loop (run (chr p)) n (at q (w ++ r) c) k ≡ some t
  lazy_loop-Are n [] q a f l h = lazy_hits p c k n (at q r c) h
  lazy_loop-Are zero (x ∷ w) q a f l h = absurd (omega arith)
  lazy_loop-Are (suc n) (x ∷ w) q (px, a) (miss, f) l h =
      lazy_eats p c k n x (w ++ r) q px miss (lazy_loop-Are n w (some x) a f (omega arith) h)

  -- A lazy repetition takes what stands before the first place where the rest succeeds.
  pub run-lazy :
      (w : Text) (q : Option ℕ)
      → Are p w
      → FailsIn q w
      → k (at (last q w) r c) ≡ some t
      → run (lazy (chr p)) (at q (w ++ r) c) k ≡ some t
  unfolding run
  run-lazy w q a f h = lazy_loop-Are _ w q a f (omega (arith, length-append w r)) h

pub between-append : (w r : Text) → between (w ++ r) r ≡ w
unfolding between
between-append w r =
    let e : length (w ++ r) - length r ≡ length w = omega (arith, length-append w r) in
    rw (e, take-length-append w r)

-- A group captures the text that its expression has taken.
pub capture_lem :
    (i : ℕ) (w r : Text) (q q' : Option ℕ) (c : List (ℕ × Text))
    → capture i (at q (w ++ r) c) (at q' r c) ≡ at q' r ((i, w) ∷ c)
unfolding capture
capture_lem i w r q q' c = rw between-append

module _ (a : Regex) where
  exec_from-bol : (s : Text) (x : ℕ) → exec_from (seq bol a) (some x) s ≡ none
  unfolding exec_from run at_bol
  exec_from-bol [] x = refl
  exec_from-bol (y ∷ s) x = rw (exec_from-bol s y)

  -- An expression that begins with `^` matches at the beginning or nowhere.
  pub exec-eq-none : (s : Text) → run a (at none s []) some ≡ none → exec (seq bol a) s ≡ none
  unfolding exec exec_from run at_bol
  exec-eq-none [] h = rw h
  exec-eq-none (y ∷ s) h = rw (h, exec_from-bol s y)

  pub exec-eq-some :
      (s : Text) (q : Option ℕ) (c : List (ℕ × Text))
      → s ≢ []
      → run a (at none s []) some ≡ some (at q [] c)
      → (m : Match) × (exec (seq bol a) s ≡ some m) × (m.groups ≡ c)
  unfolding exec exec_from run at_bol
  exec-eq-some [] q c ne h = absurd (ne refl)
  exec-eq-some (y ∷ s) q c ne h = (
    record { before = []; found = between (y ∷ s) []; after = []; last = q; groups = c },
    rw h,
    refl,
  )
