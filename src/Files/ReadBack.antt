-- ===== src/Files/ReadBack.antt =====
-- What readJSON of .wolf/hooks/shared.js reads after writeJSON, and the files that it leaves alone.
use efipix.Prelude.{
  Bool, true, false, ◌&&◌, ◌||◌, some, none, [], ◌∷◌, ◌≡◌, All, refl, ◌∙◌, if◌then◌else◌,
}
use efipix.Text.{Text, equal}
use efipix.Files.{
  Disk, put, Outcome, written, refused, torn, Host, write_file, returned, rename, tmp_of, fall_back,
  save_as, Json, write_json, read_json, final,
}
use efipix.Files.Saving.{tmp_other, put-same, put-other, write-other, unlink-other, if_All}

-- the text comes to the path: as the temporary file, or written over the old one
abbrev pub succeeds : Host → Bool
succeeds h = h.has_dir && ((returned h.to_tmp && h.renames) || returned h.to_target)

returned-put :
    (o : Outcome) (p t : Text) (d : Disk) → returned o ≡ true → write_file o p t d p ≡ some t
unfolding write_file
returned-put written p t d s = put-same p _ d
returned-put refused p t d s = absurd (cc)
returned-put (torn n) p t d s = absurd (cc)

module _ (h : Host) (p tmp t : Text) (e : equal tmp p ≡ false) (d : Disk) where
  replaced-put : (d' : Disk) → d' tmp ≡ some t → rename true tmp p d' p ≡ some t
  unfolding rename
  replaced-put d' s = put-other tmp p e none (put p (d' tmp) d') ∙ (put-same p _ d' ∙ s)

  fall_back-put :
      (d' : Disk) → returned h.to_target ≡ true → final d (fall_back h p tmp t d') p ≡ some t
  fall_back-put d' s =
      unlink-other tmp p e h.unlinks (write_file h.to_target p t d')
      ∙ returned-put h.to_target p t d' s

  rest-put :
      (o : Outcome) (r : Bool) (d' : Disk)
      → ((returned o && r) || returned h.to_target) ≡ true
      → final d
          (write_file o tmp t d
            ∷ (if returned o
                then (if r
                    then rename true tmp p (write_file o tmp t d) ∷ []
                    else fall_back h p tmp t (write_file o tmp t d))
                else fall_back h p tmp t (write_file o tmp t d)))
          p
        ≡ some t
  unfolding write_file
  rest-put written true d' s = replaced-put _ (put-same tmp _ d)
  rest-put written false d' s = fall_back-put _ s
  rest-put refused r d' s = fall_back-put _ s
  rest-put (torn n) r d' s = fall_back-put _ s

  save_as-put :
      ((returned h.to_tmp && h.renames) || returned h.to_target) ≡ true
      → final d (save_as h p tmp t d) p ≡ some t
  unfolding save_as
  save_as-put s = rest-put h.to_tmp h.renames d s

and-left : (a b : Bool) → (a && b) ≡ true → a ≡ true
and-left true b e = refl
and-left false b e = e

and-right : (a b : Bool) → (a && b) ≡ true → b ≡ true
and-right true b e = e
and-right false b e = absurd (cc)

-- Where JSON.parse reads back what JSON.stringify prints, a save that succeeds, by the temporary file
-- or by writing over the old one, is read back by readJSON, whatever its fallback is.
pub read_json-write_json {ℓ} :
    {V : Type ℓ} (json : Json V)
    → ((v : V) → json.parse (json.stringify v) ≡ some v)
    → (h : Host) (p hex : Text) (v fallback : V) (d : Disk) → succeeds h ≡ true
    → read_json json p fallback (final d (write_json json h p hex v d)) ≡ v
unfolding write_json read_json
read_json-write_json json law h p hex v fallback d s =
    rw
      (
        and-left h.has_dir _ s,
        save_as-put h p (tmp_of p hex) (json.stringify v) (tmp_other p hex) d
            (and-right h.has_dir _ s),
        law v,
      )
      refl

module _ (q : Text) (h : Host) (p tmp t : Text) (e : equal p q ≡ false)
    (f : equal tmp q ≡ false) where
  fall_back-others : (d d' : Disk) → d' q ≡ d q → All (λ d''. d'' q ≡ d q) (fall_back h p tmp t d')
  fall_back-others d d' s =
      let k = write-other p q e h.to_target t d' ∙ s in
      (k, (unlink-other tmp q f h.unlinks (write_file h.to_target p t d') ∙ k, tt))

  replaced-others : (d d' : Disk) → d' q ≡ d q → rename true tmp p d' q ≡ d q
  unfolding rename
  replaced-others d d' s = put-other tmp q f none (put p (d' tmp) d') ∙ (put-other p q e _ d' ∙ s)

  rest-others :
      (b r : Bool) (d d' : Disk)
      → d' q ≡ d q
      → All
          (λ d''. d'' q ≡ d q)
          (if b
            then (if r then rename true tmp p d' ∷ [] else fall_back h p tmp t d')
            else fall_back h p tmp t d')
  rest-others true true d d' s = (replaced-others d d' s, tt)
  rest-others true false d d' s = fall_back-others d d' s
  rest-others false r d d' s = fall_back-others d d' s

  save_as-others : (d : Disk) → All (λ d'. d' q ≡ d q) (save_as h p tmp t d)
  unfolding save_as
  save_as-others d =
      let k = write-other tmp q f h.to_tmp t d in
      (k, rest-others (returned h.to_tmp) h.renames d (write_file h.to_tmp tmp t d) k)

-- No state that writeJSON goes through changes a file other than the target and its temporary file.
pub write_json-others {ℓ} :
    {V : Type ℓ} (json : Json V) (h : Host) (p hex : Text) (v : V) (d : Disk) (q : Text)
    → equal p q ≡ false
    → equal (tmp_of p hex) q ≡ false
    → All (λ d'. d' q ≡ d q) (write_json json h p hex v d)
unfolding write_json
write_json-others json h p hex v d q e f =
    if_All _ _ h.has_dir (save_as-others q h p (tmp_of p hex) (json.stringify v) e f d)
