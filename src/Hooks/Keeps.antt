-- ===== src/Hooks/Keeps.antt =====
-- Each hook keeps the session tracked.
use efipix.Prelude.{
  ℕ, true, Option, none, some, [], ◌∷◌, ◌≡◌, refl, Option-cases, Bool-cases, inl, inr,
  if◌then◌else◌,
}
use efipix.Text.{Text}
use efipix.NodePath.{normalize_path}
use efipix.Anatomy.{parse_anatomy}
use efipix.Object.{get, absent}
use efipix.Object.Laws.{Property-cases}
use efipix.Object.Sizes.{find_Values, get-eq-own}
use efipix.World.{Env, Session, World, Input, warn, input_path, or_default}
use efipix.Hooks.Common.{is_internal}
use efipix.Hooks.Tracks.{Tracks, IsTracked, IsCounted, write_session-IsTracked}
use efipix.Hooks.Tracks.Reads.{
  Tracks-hit, Tracks-miss, Tracks-recorded, Tracks-again, Tracks-estimated, Tracks-inherited,
}
use efipix.Hooks.PostRead
use efipix.Hooks.PostRead.{post_read, record_tokens, read_tokens}
use efipix.Hooks.PreRead
use efipix.Hooks.PreRead.{pre_read, on_first_read, on_read, find_section_entry, first_read}

module _ (env : Env) (file : Text) (s : Session) (t : Tracks s) (w : World)
    (h : w.wolf_dir ≡ true) where
  on_first_read-IsTracked :
      get file t.reads ≡ absent → IsTracked (on_first_read env file s t.reads w)
  unfolding on_first_read
  on_first_read-IsTracked free =
      elim (Option-cases (find_section_entry file (parse_anatomy (or_default [] w.anatomy)))) [
        | inr (e, found) ↦
            rw (on_first_read, found)
              (write_session-IsTracked _ (warn _ w) h
                (Tracks-hit s t file (first_read env) free refl))
        | inl found ↦
            rw (on_first_read, found)
              (write_session-IsTracked _ w h (Tracks-miss s t file (first_read env) free refl))
      ]

  on_read-IsTracked : IsTracked (on_read env file s t.reads w)
  unfolding on_read
  on_read-IsTracked = elim (Property-cases (get file t.reads)) [
    | inl (r, e) ↦
        rw (on_read, e) (write_session-IsTracked _ (warn _ w) h (Tracks-again s t file r e))
    | inr (inl e) ↦ rw (on_read, e) (write_session-IsTracked _ (warn _ w) h (Tracks-inherited s t))
    | inr (inr e) ↦ rw (on_read, e) (on_first_read-IsTracked e)
  ]

  in_session-IsTracked : IsTracked (PreRead.in_session env file s w)
  unfolding PreRead.in_session
  in_session-IsTracked = rw (PreRead.in_session, t.has_reads) on_read-IsTracked

module _ (env : Env) (file : Text) (n : ℕ) (s : Session) (t : Tracks s) where
  record_tokens-Tracks : Tracks (record s { files_read = some (record_tokens env file n t.reads) })
  unfolding record_tokens
  record_tokens-Tracks = elim (Property-cases (get file t.reads)) [
    | inl (r, e) ↦
        rw (record_tokens, e)
          (Tracks-estimated s t file r e n
            (find_Values IsCounted file t.reads r t.counted (get-eq-own file t.reads r e)))
    | inr (inl e) ↦ rw (record_tokens, e, ← t.has_reads) t
    | inr (inr e) ↦ rw (record_tokens, e) (Tracks-recorded s t file _ e refl)
  ]

  post_session-IsTracked :
      (w : World) → w.wolf_dir ≡ true → IsTracked (PostRead.in_session env file n s w)
  unfolding PostRead.in_session
  post_session-IsTracked w h =
      rw (PostRead.in_session, t.has_reads) (write_session-IsTracked _ w h record_tokens-Tracks)

pub post_read-none : (env : Env) (w : World) → post_read env none w ≡ w
unfolding post_read
post_read-none env w = refl

pub post_read_lem :
    (env : Env) (w : World) (i : Input)
    → post_read env (some i) w ≡ (
        if w.wolf_dir
        then PostRead.on_path env (input_path i) (or_default [] i.output_content) w
        else w)
unfolding post_read
post_read_lem env w i = refl

pub pre_read-none : (env : Env) (w : World) → pre_read env none w ≡ w
unfolding pre_read
pre_read-none env w = refl

pub pre_read_lem :
    (env : Env) (w : World) (i : Input)
    → pre_read env (some i) w ≡ (if w.wolf_dir then PreRead.on_path env (input_path i) w else w)
unfolding pre_read
pre_read_lem env w i = refl

-- a state that keeps everything but the session and stderr keeps being tracked
module _ (env : Env) (w : World) (k : IsTracked w) where
  pre_read-path : (p : Text) → IsTracked (PreRead.on_path env p w)
  unfolding PreRead.on_path
  pre_read-path [] = k
  pre_read-path (c ∷ p) = elim (Bool-cases (is_internal env (normalize_path (c ∷ p)))) [
    | inl e ↦ rw e k
    | inr e ↦
        simp (e, k.has_session)
          (in_session-IsTracked env (normalize_path (c ∷ p)) k.session k.tracks w k.wolf)
  ]

  pub pre_read-IsTracked : (i : Option Input) → IsTracked (pre_read env i w)
  pre_read-IsTracked none = rw (pre_read-none env w) k
  pre_read-IsTracked (some i) = simp (pre_read_lem env w i, k.wolf) (pre_read-path (input_path i))

  post_read-path : (p content : Text) → IsTracked (PostRead.on_path env p content w)
  unfolding PostRead.on_path
  post_read-path [] content = k
  post_read-path (c ∷ p) content = elim (Bool-cases (is_internal env (normalize_path (c ∷ p)))) [
    | inl e ↦ rw e k
    | inr e ↦
        let file = normalize_path (c ∷ p) in
        simp (e, k.has_session)
          (post_session-IsTracked env file (read_tokens (c ∷ p) file content w) k.session k.tracks w
            k.wolf)
  ]

  pub post_read-IsTracked : (i : Option Input) → IsTracked (post_read env i w)
  post_read-IsTracked none = rw (post_read-none env w) k
  post_read-IsTracked (some i) =
      simp (post_read_lem env w i, k.wolf)
        (post_read-path (input_path i) (or_default [] i.output_content))
