-- ===== src/Regex/Reads.antt =====
-- What an expression reads: a beginning of the text, made of units that its classes allow.
use efipix.Prelude.{
  ℕ, Bool, true, [], ◌∷◌, ◌++◌, ◌≡◌, refl, sym, ap, ◌∙◌, append_assoc, All-append, inl, inr,
}
use efipix.Text.{Text}
use efipix.Regex.{
  Regex, eps, bol, eol, line_bol, line_eol, edge, chr, seq, alt, star, lazy, group, At, capture,
}
use efipix.Regex.Paths.{Many, stop, more, Reaches}
use efipix.Regex.Runs.{Are}

-- Each class of the expression lies within `p`.
abbrev pub Only : (ℕ → Bool) → Regex → Type 0
Only p eps = Unit
Only p bol = Unit
Only p eol = Unit
Only p line_bol = Unit
Only p line_eol = Unit
Only p edge = Unit
Only p (chr q) = (c : ℕ) → q c ≡ true → p c ≡ true
Only p (seq a b) = Only p a × Only p b
Only p (alt a b) = Only p a × Only p b
Only p (star a) = Only p a
Only p (lazy a) = Only p a
Only p (group i a) = Only p a

-- Between the two places stands a text whose units satisfy `p`.
pub record Reads (p : ℕ → Bool) (s t : At) : Type 0 where
  pub text : Text
  pub splits : s.rest ≡ text ++ t.rest
  pub are : Are p text

module _ {p : ℕ → Bool} where
  Reads-refl : (s : At) → Reads p s s
  Reads-refl s = record { text = []; splits = refl; are = tt }

  Reads-trans : {s t u : At} → Reads p s t → Reads p t u → Reads p s u
  Reads-trans {u} a b = record {
    text = a.text ++ b.text;
    splits = a.splits ∙ ap (λ x. a.text ++ x) b.splits ∙ sym (append_assoc a.text b.text u.rest);
    are = All-append (λ c. p c ≡ true) a.text b.text a.are b.are;
  }

  Reads-eq : {s t : At} → s ≡ t → Reads p s t
  Reads-eq {s} e = rw (← e) (Reads-refl s)

  Many-Reads :
      {R : At → At → Type 0} {s t : At}
      → ((s t : At) → R s t → Reads p s t)
      → Many R s t
      → Reads p s t
  Many-Reads {s} h stop = Reads-refl s
  Many-Reads {s} h (more {u} r l rs) = Reads-trans (h s u r) (Many-Reads h rs)

  pub Reaches-Reads : (r : Regex) → Only p r → (s t : At) → Reaches r s t → Reads p s t
  Reaches-Reads eps o s t e = Reads-eq e
  Reaches-Reads bol o s t (b, e) = Reads-eq e
  Reaches-Reads eol o s t (b, e) = Reads-eq e
  Reaches-Reads line_bol o s t (b, e) = Reads-eq e
  Reaches-Reads line_eol o s t (b, e) = Reads-eq e
  Reaches-Reads edge o s t (b, e) = Reads-eq e
  Reaches-Reads (chr q) o s t (c, r, l, qc, e) =
      rw (← e) (record { text = c ∷ []; splits = l; are = (o c qc, tt) })
  Reaches-Reads (seq a b) o s t (u, ra, rb) =
      Reads-trans (Reaches-Reads a o.0 s u ra) (Reaches-Reads b o.1 u t rb)
  Reaches-Reads (alt a b) o s t (inl r) = Reaches-Reads a o.0 s t r
  Reaches-Reads (alt a b) o s t (inr r) = Reaches-Reads b o.1 s t r
  Reaches-Reads (star a) o s t r = Many-Reads (Reaches-Reads a o) r
  Reaches-Reads (lazy a) o s t r = Many-Reads (Reaches-Reads a o) r
  Reaches-Reads (group i a) o s t (u, r, e) = rw (← e) (behind i s u (Reaches-Reads a o s u r))
    where
      behind : (i : ℕ) (s u : At) → Reads p s u → Reads p s (capture i s u)
      behind i s u h = unfold capture in record { text = h.text; splits = h.splits; are = h.are }
