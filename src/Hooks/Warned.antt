-- ===== src/Hooks/Warned.antt =====
-- What .wolf/hooks/pre-read.js prints of a file after .wolf/hooks/post-read.js has recorded its tokens.
use efipix.Prelude.{◌++◌, ℕ, false, some, [], ◌∷◌, ◌≡◌, refl, ap, ◌∙◌, sym}
use efipix.Text.{Text, codes}
use efipix.Text.Laws.{equal_refl}
use efipix.Text.Decimal.{show}
use efipix.NodePath.{normalize_path, basename}
use efipix.Object.{get, find_own}
use efipix.Object.Laws.{find_own-set}
use efipix.World.{Env, World, Input, ReadInfo, or_default, input_path}
use efipix.Hooks.Common.{is_internal, saved_session}
use efipix.Hooks.Tracks.{IsTracked}
use efipix.Hooks.PreRead
use efipix.Hooks.PreRead.{already_read, pre_read, on_read}
use efipix.Hooks.PostRead
use efipix.Hooks.PostRead.{post_read, read_tokens, record_tokens}
use efipix.Hooks.Keeps.{pre_read_lem, post_read_lem, post_read-IsTracked}
use efipix.Hooks.Counting.{reads_of, reads_of-eq}

warns_of_read :
    (env : Env) (i : Input) (w : World) (c : ℕ) (p file : Text) (r : ReadInfo)
    → IsTracked w
    → input_path i ≡ c ∷ p
    → normalize_path (c ∷ p) ≡ file
    → is_internal env file ≡ false
    → find_own file (reads_of w) ≡ some r
    → (pre_read env (some i) w).stderr ≡ w.stderr ++ already_read file (show r.tokens) ∷ []
unfolding PreRead.on_path PreRead.in_session on_read get
warns_of_read env i w c p file r k e e' outside known =
    simp
      (
        pre_read_lem env w i,
        e,
        k.wolf,
        e',
        outside,
        k.has_session,
        PreRead.in_session,
        k.tracks.has_reads,
        on_read,
        get,
        ap (find_own file) (sym (reads_of-eq w k)) ∙ known,
      )
      refl

module _ (env : Env) (i : Input) (w : World) (c : ℕ) (p file : Text) (r : ReadInfo)
    (k : IsTracked w) (e : input_path i ≡ c ∷ p) (e' : normalize_path (c ∷ p) ≡ file)
    (outside : is_internal env file ≡ false) (known : find_own file (reads_of w) ≡ some r) where
  known_in : find_own file k.tracks.reads ≡ some r
  known_in = ap (find_own file) (sym (reads_of-eq w k)) ∙ known

  -- post-read.js records the tokens of a file that the session knows
  read_after :
      find_own file (reads_of (post_read env (some i) w))
      ≡ some (record r { tokens = read_tokens (c ∷ p) file (or_default [] i.output_content) w })
  unfolding PostRead.on_path PostRead.in_session record_tokens get saved_session
  read_after =
      simp
        (
          post_read_lem env w i,
          e,
          k.wolf,
          e',
          outside,
          k.has_session,
          PostRead.in_session,
          k.tracks.has_reads,
          record_tokens,
          get,
          known_in,
        )
        (find_own-set file
            (record r { tokens = read_tokens (c ∷ p) file (or_default [] i.output_content) w }) file
            k.tracks.reads
          ∙ rw (equal_refl file) refl)

  stderr_after : (post_read env (some i) w).stderr ≡ w.stderr
  unfolding PostRead.on_path PostRead.in_session
  stderr_after =
      simp
        (
          post_read_lem env w i,
          e,
          k.wolf,
          e',
          outside,
          k.has_session,
          PostRead.in_session,
          k.tracks.has_reads,
        )
        refl

-- In a tracked state, where a file outside .wolf/, known to the session, has been read and post-read.js has run, the next
-- read of it prints one text more, which names the file and the tokens that post-read.js came to from
-- what was read, or else from anatomy.md.
pub pre_read-warns :
    (env : Env) (i j : Input) (w : World) (c : ℕ) (p file : Text) (r : ReadInfo)
    → IsTracked w
    → input_path i ≡ c ∷ p
    → input_path j ≡ c ∷ p
    → normalize_path (c ∷ p) ≡ file
    → is_internal env file ≡ false
    → find_own file (reads_of w) ≡ some r
    → (pre_read env (some j) (post_read env (some i) w)).stderr
      ≡ w.stderr
        ++ (codes "⚡ OpenWolf: "
            ++ (basename file
                ++ (codes " was already read this session (~"
                    ++ (show (read_tokens (c ∷ p) file (or_default [] i.output_content) w)
                        ++ codes
                            " tokens). Consider using your existing knowledge of this file.\n"))))
          ∷ []
unfolding already_read
pre_read-warns env i j w c p file r k e f e' outside known =
    warns_of_read env j (post_read env (some i) w) c p file _ (post_read-IsTracked env w k (some i))
      f e' outside (read_after env i w c p file r k e e' outside known)
    ∙ ap
        (λ l.
          l
          ++ already_read file (show (read_tokens (c ∷ p) file (or_default [] i.output_content) w))
            ∷ [])
        (stderr_after env i w c p file r k e e' outside known)
