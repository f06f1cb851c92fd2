-- ===== src/Regex/Paths.antt =====
-- The matcher of Regex against an inductive relation: it tries exactly the paths of the relation.
use efipix.Prelude.{
  ℕ, zero, suc, ◌≤◌, ◌<◌, Bool, true, false, Option, none, some, [], ◌∷◌, ◌≡◌, refl, ◌∙◌, ◌⊎◌, inl,
  inr, arith, ltb, length, Bool-cases, Option-cases, none-ne-some,
}
use efipix.Text.{Text}
use efipix.Regex.{
  Regex, eps, bol, eol, line_bol, line_eol, edge, chr, seq, alt, star, lazy, group, At, Cont,
  at_bol, at_eol, at_line_bol, at_line_eol, at_edge, only_if, step, eat, star_loop, lazy_loop,
  capture, run,
}

-- Repetitions of a relation, each of which reads something.
pub data Many (R : At → At → Type 0) : At → At → Type 0 where
  stop : {s : At} → Many R s s
  more : {s u t : At} → R s u → length u.rest < length s.rest → Many R u t → Many R s t

-- `Reaches r s t`: the expression can lead from the place `s` to the place `t`.
abbrev pub Reaches : Regex → At → At → Type 0
Reaches eps s t = s ≡ t
Reaches bol s t = (at_bol s ≡ true) × (s ≡ t)
Reaches eol s t = (at_eol s ≡ true) × (s ≡ t)
Reaches line_bol s t = (at_line_bol s ≡ true) × (s ≡ t)
Reaches line_eol s t = (at_line_eol s ≡ true) × (s ≡ t)
Reaches edge s t = (at_edge s ≡ true) × (s ≡ t)
Reaches (chr p) s t = (c : ℕ) × (r : Text) × (s.rest ≡ c ∷ r) × (p c ≡ true) × (step c r s ≡ t)
Reaches (seq a b) s t = (u : At) × Reaches a s u × Reaches b u t
Reaches (alt a b) s t = Reaches a s t ⊎ Reaches b s t
Reaches (star a) s t = Many (Reaches a) s t
Reaches (lazy a) s t = Many (Reaches a) s t
Reaches (group i a) s t = (u : At) × Reaches a s u × (capture i s u ≡ t)

-- `m` succeeds only by a place that `R` reaches, where the continuation succeeds.
abbrev pub Sound : (At → At → Type 0) → (At → Cont → Option At) → Type 0
Sound R m = (s : At) (k : Cont) (t : At) → m s k ≡ some t → (u : At) × R s u × (k u ≡ some t)

-- `m` fails only if the continuation fails at every place that `R` reaches.
abbrev pub Complete : (At → At → Type 0) → (At → Cont → Option At) → Type 0
Complete R m = (s u : At) (k : Cont) → R s u → m s k ≡ none → k u ≡ none

abbrev if_read : At → At → Option At → Option At
if_read s u o = elim (ltb (length u.rest) (length s.rest)) [ true ↦ o | false ↦ none ]

if_read-eq-some :
    (s u t : At) (o : Option At)
    → if_read s u o ≡ some t
    → (length u.rest < length s.rest) × (o ≡ some t)
if_read-eq-some s u t o h = ground arith

if_read-eq-none :
    (s u : At) (o : Option At) → length u.rest < length s.rest → if_read s u o ≡ none → o ≡ none
if_read-eq-none s u o l h = ground arith

module _ (R : At → At → Type 0) (m : At → Cont → Option At) (sound : Sound R m) where
  star_loop-Sound : (n : ℕ) → Sound (Many R) (star_loop m n)
  unfolding star_loop
  star_loop-Sound zero s k t h = (s, stop, h)
  star_loop-Sound (suc n) s k t h =
      elim (Option-cases (m s (λ u. if_read s u (star_loop m n u k)))) [
        | inl e ↦ (s, stop, rw (e, star_loop) at h)
        | inr (t', e) ↦
            let (u, r, e') = sound s _ t' e in
            let (l, e'') = if_read-eq-some s u t' _ e' in
            let (v, rs, kv) = star_loop-Sound n u k t' e'' in
            (v, more r l rs, kv ∙ rw (e, star_loop) at h)
      ]

  lazy_loop-Sound : (n : ℕ) → Sound (Many R) (lazy_loop m n)
  unfolding lazy_loop
  lazy_loop-Sound zero s k t h = (s, stop, h)
  lazy_loop-Sound (suc n) s k t h = elim (Option-cases (k s)) [
    | inl e ↦
        let (u, r, e') = sound s _ t (rw (e, lazy_loop) at h) in
        let (l, e'') = if_read-eq-some s u t _ e' in
        let (v, rs, kv) = lazy_loop-Sound n u k t e'' in (v, more r l rs, kv)
    | inr (t', e) ↦ (s, stop, e ∙ rw (e, lazy_loop) at h)
  ]

only_if-Sound :
    (b : Bool) (s : At) (k : Cont) (t : At) → only_if b s k ≡ some t → (b ≡ true) × (k s ≡ some t)
only_if-Sound true s k t h = (refl, h)
only_if-Sound false s k t h = cc

eat-Sound :
    (p : ℕ → Bool) (l : Text) (s : At) (k : Cont) (t : At)
    → eat p l s k ≡ some t
    → (c : ℕ) × (r : Text) × (l ≡ c ∷ r) × (p c ≡ true) × (k (step c r s) ≡ some t)
eat-Sound p [] s k t h = cc
eat-Sound p (c ∷ r) s k t h = elim (Bool-cases (p c)) [
  | inl e ↦ (c, r, refl, e, rw (e, eat) at h)
  | inr e ↦ absurd (none-ne-some _ (rw (e, eat) at h))
]

-- The matcher is sound: its result is the continuation's, at a place that the expression reaches.
pub run-Sound : (r : Regex) → Sound (Reaches r) (run r)
unfolding run
run-Sound eps s k t h = (s, refl, h)
run-Sound bol s k t h = let (b, e) = only_if-Sound (at_bol s) s k t h in (s, (b, refl), e)
run-Sound eol s k t h = let (b, e) = only_if-Sound (at_eol s) s k t h in (s, (b, refl), e)
run-Sound line_bol s k t h = let (b, e) = only_if-Sound (at_line_bol s) s k t h in (s, (b, refl), e)
run-Sound line_eol s k t h = let (b, e) = only_if-Sound (at_line_eol s) s k t h in (s, (b, refl), e)
run-Sound edge s k t h = let (b, e) = only_if-Sound (at_edge s) s k t h in (s, (b, refl), e)
run-Sound (chr p) s k t h =
    let (c, r, l, pc, e) = eat-Sound p s.rest s k t h in (step c r s, (c, r, l, pc, refl), e)
run-Sound (seq a b) s k t h =
    let (u, ra, e) = run-Sound a s (λ u. run b u k) t h in
    let (v, rb, e') = run-Sound b u k t e in (v, (u, ra, rb), e')
run-Sound (alt a b) s k t h = elim (Option-cases (run a s k)) [
  | inl e ↦ let (u, r, e') = run-Sound b s k t (rw e at h) in (u, inr r, e')
  | inr (t', e) ↦ let (u, r, e') = run-Sound a s k t' e in (u, inl r, e' ∙ rw e at h)
]
run-Sound (star a) s k t h =
    star_loop-Sound (Reaches a) (run a) (run-Sound a) (length s.rest) s k t h
run-Sound (lazy a) s k t h =
    lazy_loop-Sound (Reaches a) (run a) (run-Sound a) (length s.rest) s k t h
run-Sound (group i a) s k t h =
    let (u, r, e) = run-Sound a s (λ u. k (capture i s u)) t h in (capture i s u, (u, r, refl), e)

module _ (m : At → Cont → Option At) (n : ℕ) (s : At) (k : Cont) where
  star_loop-eq-none :
      star_loop m (suc n) s k ≡ none
      → (m s (λ u. if_read s u (star_loop m n u k)) ≡ none) × (k s ≡ none)
  unfolding star_loop
  star_loop-eq-none h = ground arith

  lazy_loop-eq-none :
      lazy_loop m (suc n) s k ≡ none
      → (m s (λ u. if_read s u (lazy_loop m n u k)) ≡ none) × (k s ≡ none)
  unfolding lazy_loop
  lazy_loop-eq-none h = ground arith

module _ (R : At → At → Type 0) (m : At → Cont → Option At) (complete : Complete R m) where
  star_loop-Complete :
      (n : ℕ) (s u : At) (k : Cont)
      → length s.rest ≤ n
      → Many R s u
      → star_loop m n s k ≡ none
      → k u ≡ none
  star_loop-Complete zero s _ k le stop h = unfold star_loop in h
  star_loop-Complete zero s t k le (more r l rs) h = absurd (omega arith)
  star_loop-Complete (suc n) s _ k le stop h = (star_loop-eq-none m n s k h).1
  star_loop-Complete (suc n) s t k le (more {u = u} r l rs) h =
      let e = complete s u _ r (star_loop-eq-none m n s k h).0 in
      star_loop-Complete n u t k (omega arith) rs (if_read-eq-none s u _ l e)

  lazy_loop-Complete :
      (n : ℕ) (s u : At) (k : Cont)
      → length s.rest ≤ n
      → Many R s u
      → lazy_loop m n s k ≡ none
      → k u ≡ none
  lazy_loop-Complete zero s _ k le stop h = unfold lazy_loop in h
  lazy_loop-Complete zero s t k le (more r l rs) h = absurd (omega arith)
  lazy_loop-Complete (suc n) s _ k le stop h = (lazy_loop-eq-none m n s k h).1
  lazy_loop-Complete (suc n) s t k le (more {u = u} r l rs) h =
      let e = complete s u _ r (lazy_loop-eq-none m n s k h).0 in
      lazy_loop-Complete n u t k (omega arith) rs (if_read-eq-none s u _ l e)

only_if-Complete : (b : Bool) (s : At) (k : Cont) → b ≡ true → only_if b s k ≡ none → k s ≡ none
only_if-Complete b s k e h = ground arith

eat-Complete :
    (p : ℕ → Bool) (c : ℕ) (r l : Text) (s : At) (k : Cont)
    → l ≡ c ∷ r
    → p c ≡ true
    → eat p l s k ≡ none
    → k (step c r s) ≡ none
eat-Complete p c r l s k e pc h = ground arith

alt-eq-none :
    (a b : Regex) (s : At) (k : Cont)
    → run (alt a b) s k ≡ none
    → (run a s k ≡ none) × (run b s k ≡ none)
unfolding run
alt-eq-none a b s k h = ground arith

-- The matcher is complete: where it fails, the continuation fails at every place that the
-- expression reaches.
pub run-Complete : (r : Regex) → Complete (Reaches r) (run r)
unfolding run
run-Complete eps s t k e h = rw (← e) h
run-Complete bol s t k (b, e) h = rw (← e) (only_if-Complete (at_bol s) s k b h)
run-Complete eol s t k (b, e) h = rw (← e) (only_if-Complete (at_eol s) s k b h)
run-Complete line_bol s t k (b, e) h = rw (← e) (only_if-Complete (at_line_bol s) s k b h)
run-Complete line_eol s t k (b, e) h = rw (← e) (only_if-Complete (at_line_eol s) s k b h)
run-Complete edge s t k (b, e) h = rw (← e) (only_if-Complete (at_edge s) s k b h)
run-Complete (chr p) s t k (c, r, l, pc, e) h = rw (← e) (eat-Complete p c r s.rest s k l pc h)
run-Complete (seq a b) s t k (u, ra, rb) h =
    run-Complete b u t k rb (run-Complete a s u (λ u. run b u k) ra h)
run-Complete (alt a b) s t k (inl r) h = run-Complete a s t k r (alt-eq-none a b s k h).0
run-Complete (alt a b) s t k (inr r) h = run-Complete b s t k r (alt-eq-none a b s k h).1
run-Complete (star a) s t k r h =
    star_loop-Complete (Reaches a) (run a) (run-Complete a) (length s.rest) s t k (omega arith) r h
run-Complete (lazy a) s t k r h =
    lazy_loop-Complete (Reaches a) (run a) (run-Complete a) (length s.rest) s t k (omega arith) r h
run-Complete (group i a) s t k (u, r, e) h =
    rw (← e) (run-Complete a s u (λ u. k (capture i s u)) r h)
