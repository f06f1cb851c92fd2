-- ===== src/Hooks/KeepsWrites.antt =====
-- The write hooks .wolf/hooks/pre-write.js and .wolf/hooks/post-write.js keep the session tracked.
use efipix.Prelude.{
  ◌+◌, ◌≤◌, Bool, true, false, Option, none, some, [], ◌∷◌, ◌++◌, leb, ◌≡◌, refl, ap, ◌∙◌, arith,
  length-append, Option-cases, Bool-cases, inl, inr, if◌then◌else◌,
}
use efipix.Text.{to_lower, Text, codes, equal}
use efipix.NodePath.{basename, extname}
use efipix.Edit.Detect.{detect_fix_pattern}
use efipix.Object.{Object, get, find_own, inherited}
use efipix.Object.Laws.{Property-cases}
use efipix.Object.Sizes.{total, total-set_own, total-set_new, get-eq-own, get-eq-absent}
use efipix.World.{Env, Session, World, Input, WriteInfo, Edits, times, spoiled, warn, input_path}
use efipix.Hooks.Tracks.{Tracks, IsTracked, edits, write_session-IsTracked}
use efipix.Hooks.PostWrite
use efipix.Hooks.PostWrite.{
  post_write, count_edit, warn_often, is_edit, old_of, new_of, part_anatomy, part_session,
  part_buglog, is_skipped, on_write, write_info, relative_path, absolute_path, Written,
  description_of,
}
use efipix.Hooks.PreWrite.{pre_write}
use efipix.Hooks.Prints.{pre_write-OnlyPrints}

-- A change of the other files and of stderr keeps the session tracked.
pub same-IsTracked :
    (w w' : World) → w'.wolf_dir ≡ w.wolf_dir → w'.session ≡ w.session → IsTracked w → IsTracked w'
same-IsTracked w w' d e k = record {
  wolf = d ∙ k.wolf;
  session = k.session;
  has_session = e ∙ k.has_session;
  tracks = k.tracks;
}

pub if-IsTracked :
    (b : Bool) (w v : World) → IsTracked w → IsTracked v → IsTracked (if b then w else v)
if-IsTracked true w v p q = p
if-IsTracked false w v p q = q

pub pre_write-IsTracked : (i : Option Input) (w : World) → IsTracked w → IsTracked (pre_write i w)
pre_write-IsTracked i w k =
    let (out, e) = pre_write-OnlyPrints i w in
    same-IsTracked w _ (ap (λ v. v.wolf_dir) e) (ap (λ v. v.session) e) k

get-eq-inherited {ℓ} :
    {V : Type ℓ} (k : Text) (o : Object V) → get k o ≡ inherited → find_own k o ≡ none
unfolding get
get-eq-inherited k o h = ground arith

-- One edit adds at most one to the counts.
pub count_edit_bound :
    (k : Text) (o : Object Edits) → total edits (count_edit k o) ≤ total edits o + 1
unfolding count_edit
count_edit_bound k o = elim (Property-cases (get k o)) [
  | inl (times n, e) ↦
      rw (count_edit, e)
        (omega (arith, total-set_own edits k (times (n + 1)) o (times n) (get-eq-own k o _ e)))
  | inl (spoiled, e) ↦ rw (count_edit, e) (omega arith)
  | inr (inl e) ↦ elim (Bool-cases (equal k (codes "__proto__"))) [
    | inl b ↦ rw (count_edit, e, b) (omega arith)
    | inr b ↦
        rw (count_edit, e, b)
          (omega (arith, total-set_new edits k spoiled o (get-eq-inherited k o e)))
  ]
  | inr (inr e) ↦
      rw (count_edit, e) (omega (arith, total-set_new edits k (times 1) o (get-eq-absent k o e)))
]

Tracks-written :
    (s : Session) (t : Tracks s) (x : WriteInfo) (k : Text)
    → Tracks (record s {
      files_written = some (t.writes ++ x ∷ []);
      edit_counts = some (count_edit k t.counts);
    })
Tracks-written s t x k = record {
  reads = t.reads;
  writes = t.writes ++ x ∷ [];
  counts = count_edit k t.counts;
  hits = t.hits;
  misses = t.misses;
  warned = t.warned;
  stops = t.stops;
  has_reads = t.has_reads;
  has_writes = refl;
  has_counts = refl;
  has_hits = t.has_hits;
  has_misses = t.has_misses;
  has_warned = t.has_warned;
  has_stops = t.has_stops;
  looked_up = t.looked_up;
  counted = t.counted;
  repeated = t.repeated;
  edited = omega (arith, t.edited, count_edit_bound k t.counts, length-append t.writes (x ∷ []));
}

warn_often-IsTracked :
    (name k : Text) (o : Object Edits) (w : World) → IsTracked w → IsTracked (warn_often name k o w)
warn_often-IsTracked name k o w h = elim (Property-cases (get k o)) [
  | inl (times n, e) ↦
      rw (warn_often, e)
        (if-IsTracked (leb 3 n) (warn _ w) w (same-IsTracked w (warn _ w) refl refl h) h)
  | inl (spoiled, e) ↦ rw (warn_often, e) h
  | inr (inl e) ↦ rw (warn_often, e) h
  | inr (inr e) ↦ rw (warn_often, e) h
]

module _ (env : Env) (p : Text) (i : Input) where
  in_session-IsTracked :
      (s : Session) (t : Tracks s) (w : World)
      → w.wolf_dir ≡ true
      → IsTracked (PostWrite.in_session env p i s w)
  unfolding PostWrite.in_session
  in_session-IsTracked s t w h =
      simp (PostWrite.in_session, t.has_writes, t.has_counts)
        (warn_often-IsTracked _ _ _ _ (
          write_session-IsTracked _ w h
            (Tracks-written s t (write_info env p i) (relative_path env p))))

pub part_anatomy-IsTracked :
    (env : Env) (p : Text) (i : Input) (d : Written) (w : World)
    → IsTracked w
    → IsTracked (part_anatomy env p i d w)
part_anatomy-IsTracked env p i d w k = elim (Option-cases (description_of env p d)) [
  | inl e ↦ simp (part_anatomy, e) k
  | inr (t, e) ↦ simp (part_anatomy, e) (same-IsTracked w _ refl refl k)
]

pub part_session-IsTracked :
    (env : Env) (p : Text) (i : Input) (w : World)
    → IsTracked w
    → IsTracked (part_session env p i w)
part_session-IsTracked env p i w k =
    simp k.has_session (in_session-IsTracked env p i k.session k.tracks w k.wolf)

pub part_buglog-IsTracked :
    (env : Env) (p : Text) (i : Input) (w : World) → IsTracked w → IsTracked (part_buglog env p i w)
part_buglog-IsTracked env p i w k =
    if-IsTracked (is_edit i) _ w
      (elim (Option-cases (
        detect_fix_pattern (old_of i) (new_of i)
          (to_lower (extname (basename (absolute_path env p)))))) [
            | inl e ↦ simp e k
            | inr (d, e) ↦ simp e (same-IsTracked w _ refl refl k)
          ])
      k

pub on_path-IsTracked :
    (env : Env) (p : Text) (i : Input) (d : Written) (w : World)
    → IsTracked w
    → IsTracked (PostWrite.on_path env p i d w)
unfolding on_write
on_path-IsTracked env [] i d w k = k
on_path-IsTracked env (c ∷ p) i d w k =
    let path = c ∷ p in
    if-IsTracked (is_skipped env path) w _ k (
      part_buglog-IsTracked env path i _ (
        part_session-IsTracked env path i _ (
          same-IsTracked (part_anatomy env path i d w) _ refl refl
            (part_anatomy-IsTracked env path i d w k))))

pub post_write-IsTracked :
    (env : Env) (i : Option Input) (d : Written) (w : World)
    → IsTracked w
    → IsTracked (post_write env i d w)
unfolding post_write
post_write-IsTracked env none d w k = k
post_write-IsTracked env (some i) d w k =
    if-IsTracked w.wolf_dir (PostWrite.on_path env (input_path i) i d w) w
      (on_path-IsTracked env (input_path i) i d w k) k
