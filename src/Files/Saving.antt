-- ===== src/Files/Saving.antt =====
-- What writeJSON of .wolf/hooks/shared.js leaves on the disk, whatever its calls come to.
use efipix.Prelude.{
  ℕ, Bool, true, false, ◌&&◌, Option, none, some, List, [], ◌∷◌, ◌++◌, ◌≡◌, ◌⊎◌, inl, inr, All,
  arith, refl, length, length-append, if◌then◌else◌, ap, sym, ◌∙◌, Bool-cases, subst,
}
use efipix.Text.{Text, codes, equal, prefix}
use efipix.Text.Laws.{equal_refl, equal_iff}
use efipix.Files.{
  Disk, put, Outcome, written, refused, torn, Host, write_file, returned, rename, unlink, tmp_of,
  fall_back, save_as, Json, write_json,
}

-- What a state may hold at the path: the old text, the new one, or a part of the new one, the last
-- only where the file could not be replaced and writing over it then failed as well.
abbrev pub Keeps : Host → Text → Option Text → Option Text → Type 0
Keeps h t old new =
    (new ≡ old)
    ⊎ ((new ≡ some t)
        ⊎ ((n : ℕ) × (new ≡ some (prefix n t))
            × (h.to_target ≡ torn n)
            × ((returned h.to_tmp && h.renames) ≡ false)))

pub tmp_other : (p hex : Text) → equal (tmp_of p hex) p ≡ false
tmp_other p hex = elim (Bool-cases (equal (tmp_of p hex) p)) [
  | inl e ↦ absurd (longer (ap length ((equal_iff (tmp_of p hex) p).0 e)))
  | inr e ↦ e
]
  where
    longer : length (tmp_of p hex) ≡ length p → ⊥
    longer e = omega (arith, length-append p (codes "." ++ (hex ++ codes ".tmp")))

pub put-same : (p : Text) (o : Option Text) (d : Disk) → put p o d p ≡ o
put-same p o d = simp (equal_refl p)

module _ (p q : Text) (e : equal p q ≡ false) where
  pub put-other : (o : Option Text) (d : Disk) → put p o d q ≡ d q
  put-other o d = simp e

  pub write-other : (o : Outcome) (t : Text) (d : Disk) → write_file o p t d q ≡ d q
  unfolding write_file
  write-other written t d = put-other _ d
  write-other refused t d = refl
  write-other (torn n) t d = put-other _ d

  pub unlink-other : (u : Bool) (d : Disk) → unlink u p d q ≡ d q
  unfolding unlink
  unlink-other true d = put-other none d
  unlink-other false d = refl

module _ (h : Host) (p tmp t : Text) (e : equal tmp p ≡ false) (d : Disk) where
  target-Keeps :
      (o : Outcome) (d' : Disk)
      → h.to_target ≡ o
      → (returned h.to_tmp && h.renames) ≡ false
      → d' p ≡ d p
      → Keeps h t (d p) (write_file o p t d' p)
  unfolding write_file
  target-Keeps written d' w lost s = inr (inl (put-same p _ d'))
  target-Keeps refused d' w lost s = inl s
  target-Keeps (torn n) d' w lost s = inr (inr (n, put-same p _ d', w, lost))

  fall_back-Keeps :
      (d' : Disk)
      → (returned h.to_tmp && h.renames) ≡ false
      → d' p ≡ d p
      → All (λ d''. Keeps h t (d p) (d'' p)) (fall_back h p tmp t d')
  fall_back-Keeps d' lost s =
      let k = target-Keeps h.to_target d' refl lost s in
      (k, (subst (Keeps h t (d p)) (sym (unlink-other tmp p e h.unlinks _)) k, tt))

  replaced-Keeps : (d' : Disk) → d' tmp ≡ some t → Keeps h t (d p) (rename true tmp p d' p)
  unfolding rename
  replaced-Keeps d' s =
      inr (inl (put-other tmp p e none (put p (d' tmp) d') ∙ (put-same p _ d' ∙ s)))

  rest-Keeps :
      (o : Outcome) (r : Bool)
      → h.to_tmp ≡ o
      → h.renames ≡ r
      → All
          (λ d'. Keeps h t (d p) (d' p))
          (if returned o
            then (if r
                then rename true tmp p (write_file o tmp t d) ∷ []
                else fall_back h p tmp t (write_file o tmp t d))
            else fall_back h p tmp t (write_file o tmp t d))
  unfolding write_file
  rest-Keeps written true a b = (replaced-Keeps _ (put-same tmp _ d), tt)
  rest-Keeps written false a b = fall_back-Keeps _ (rw (a, b) refl) (put-other tmp p e _ d)
  rest-Keeps refused r a b = fall_back-Keeps _ (rw a refl) refl
  rest-Keeps (torn n) r a b = fall_back-Keeps _ (rw a refl) (put-other tmp p e _ d)

  save_as-Keeps : All (λ d'. Keeps h t (d p) (d' p)) (save_as h p tmp t d)
  unfolding save_as
  save_as-Keeps = (inl (write-other tmp p e h.to_tmp t d), rest-Keeps h.to_tmp h.renames refl refl)

pub if_All {ℓ} :
    (P : Disk → Type ℓ) (l : List Disk) (b : Bool) → All P l → All P (if b then l else [])
if_All P l true k = k
if_All P l false k = tt

-- Whatever the calls of writeJSON come to, each state that the disk goes through holds at the path
-- the old text or the new one, or, only where the temporary file could not take its place and the
-- write over the target was torn as well, a part of the new one.
pub write_json-Keeps {ℓ} :
    {V : Type ℓ} (json : Json V) (h : Host) (p hex : Text) (v : V) (d : Disk)
    → All (λ d'. Keeps h (json.stringify v) (d p) (d' p)) (write_json json h p hex v d)
unfolding write_json
write_json-Keeps json h p hex v d =
    if_All _ _ h.has_dir (save_as-Keeps h p (tmp_of p hex) (json.stringify v) (tmp_other p hex) d)
