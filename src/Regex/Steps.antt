-- ===== src/Regex/Steps.antt =====
-- One lemma for each way to build an expression: what a run of it comes to over a text whose
-- beginning is known. `r` is the text behind, and `k` the continuation.
use efipix.Prelude.{
  ℕ, Bool, true, false, Option, none, some, List, [], ◌∷◌, ◌++◌, ◌≡◌, ◌≢◌, refl, ◌∙◌, ◌==◌, ==_refl,
}
use efipix.Text.{Text}
use efipix.Regex.{
  Regex, eps, chr, seq, alt, star, group, eol, At, Cont, capture, run, lit, plus, at_eol,
}
use efipix.Regex.Runs.{at, last, Are, Stops, run-star, capture_lem}

module _ (a b : Regex) (s : At) (k : Cont) where
  pub run-seq : {o : Option At} → run a s (λ u. run b u k) ≡ o → run (seq a b) s k ≡ o
  unfolding run
  run-seq h = h

  pub run-alt_first : {t : At} → run a s k ≡ some t → run (alt a b) s k ≡ some t
  unfolding run
  run-alt_first h = rw h

  pub run-alt_second : {o : Option At} → run a s k ≡ none → run b s k ≡ o → run (alt a b) s k ≡ o
  unfolding run
  run-alt_second h h' = rw (h, h')

pub run-group :
    (i : ℕ) (a : Regex) (s : At) (k : Cont) {o : Option At}
    → run a s (λ u. k (capture i s u)) ≡ o
    → run (group i a) s k ≡ o
unfolding run
run-group i a s k h = h

pub run-eps : (s : At) (k : Cont) → run eps s k ≡ k s
unfolding run
run-eps s k = refl

pub run-eol :
    (q : Option ℕ) (c : List (ℕ × Text)) (k : Cont) → run eol (at q [] c) k ≡ k (at q [] c)
unfolding run at_eol
run-eol q c k = refl

module _ (p : ℕ → Bool) (c : List (ℕ × Text)) where
  pub run-chr :
      (x : ℕ) (r : Text) (q : Option ℕ) (k : Cont)
      → p x ≡ true
      → run (chr p) (at q (x ∷ r) c) k ≡ k (at (some x) r c)
  unfolding run
  run-chr x r q k h = rw h

  pub run-chr_fails :
      (x : ℕ) (r : Text) (q : Option ℕ) (k : Cont)
      → p x ≡ false
      → run (chr p) (at q (x ∷ r) c) k ≡ none
  unfolding run
  run-chr_fails x r q k h = rw h

  pub run-plus :
      (w r : Text) (q : Option ℕ) (k : Cont) {t : At}
      → w ≢ []
      → Are p w
      → Stops p r
      → k (at (last q w) r c) ≡ some t
      → run (plus (chr p)) (at q (w ++ r) c) k ≡ some t
  run-plus [] r q k ne a s h = absurd (ne refl)
  run-plus (x ∷ w) r q k {t} ne (px, a) s h =
      run-seq (chr p) (star (chr p)) (at q (x ∷ (w ++ r)) c) k
        (run-chr x (w ++ r) q _ px ∙ run-star p r c k t w (some x) a s h)

  pub run-group_plus :
      (i : ℕ) (w r : Text) (q : Option ℕ) (k : Cont) {t : At}
      → w ≢ []
      → Are p w
      → Stops p r
      → k (at (last q w) r ((i, w) ∷ c)) ≡ some t
      → run (group i (plus (chr p))) (at q (w ++ r) c) k ≡ some t
  unfolding run
  run-group_plus i w r q k ne a s h =
      run-plus w r q (λ u. k (capture i (at q (w ++ r) c) u)) ne a s (rw capture_lem h)

pub run-lit :
    (w r : Text) (q : Option ℕ) (c : List (ℕ × Text)) (k : Cont)
    → run (lit w) (at q (w ++ r) c) k ≡ k (at (last q w) r c)
run-lit [] r q c k = run-eps (at q r c) k
run-lit (x ∷ []) r q c k = run-chr (λ y. y == x) c x r q k (==_refl x)
run-lit (x ∷ y ∷ w) r q c k =
    run-seq (chr (λ z. z == x)) (lit (y ∷ w)) (at q (x ∷ y ∷ (w ++ r)) c) k
      (run-chr (λ z. z == x) c x (y ∷ (w ++ r)) q _ (==_refl x) ∙ run-lit (y ∷ w) r (some x) c k)
