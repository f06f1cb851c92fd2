-- ===== src/Files.antt =====
-- How the hooks of .wolf/hooks read and write their files: readJSON, writeJSON, readMarkdown and
-- appendMarkdown of shared.js, the same writing of anatomy.md in post-write.js, and the removal of
-- temporary files in session-start.js. What the host makes of each call is an argument.
pub mod Saving
pub mod ReadBack
pub mod Cleaning
pub mod Stdin
use efipix.Prelude.{ℕ, Bool, true, false, Option, none, some, List, [], ◌∷◌, ◌++◌, if◌then◌else◌}
use efipix.Text.{Text, codes, equal, ends_with, prefix}
use efipix.NodePath.{join_path}
use efipix.World.{or_default}

-- the contents of the files by their paths
abbrev pub Disk : Type 0
Disk = Text → Option Text

abbrev pub put : Text → Option Text → Disk → Disk
put p o d q = if equal p q then o else d q

-- `fs.writeFileSync`: it writes the text, throws before it touches the file, or throws when it has
-- written a part of the text.
pub data Outcome : Type 0 where
  written refused : Outcome
  torn : ℕ → Outcome

unfoldable pub write_file : Outcome → Text → Text → Disk → Disk
write_file written p t d = put p (some t) d
write_file refused p t d = d
write_file (torn n) p t d = put p (some (prefix n t)) d

abbrev pub returned : Outcome → Bool
returned written = true
returned refused = false
returned (torn n) = false

-- `fs.renameSync` and `fs.unlinkSync`, or that they throw
unfoldable pub rename : Bool → Text → Text → Disk → Disk
rename true a b d = put a none (put b (d a) d)
rename false a b d = d

unfoldable pub unlink : Bool → Text → Disk → Disk
unlink true p d = put p none d
unlink false p d = d

-- What the calls of one save come to.
pub record Host : Type 0 where
  -- the directory exists, or could be made
  pub has_dir : Bool
  pub to_tmp : Outcome
  pub renames : Bool
  pub to_target : Outcome
  pub unlinks : Bool

-- `path + "." + crypto.randomBytes(4).toString("hex") + ".tmp"`
abbrev pub tmp_of : Text → Text → Text
tmp_of p hex = p ++ (codes "." ++ (hex ++ codes ".tmp"))

-- the `catch` block
abbrev pub fall_back : Host → Text → Text → Text → Disk → List Disk
fall_back h p tmp t d =
    let written = write_file h.to_target p t d in written ∷ unlink h.unlinks tmp written ∷ []

-- The states that the disk goes through, one after each call.
unfoldable pub save_as : Host → Text → Text → Text → Disk → List Disk
unfolding write_file rename unlink
save_as h p tmp t d =
    let d' = write_file h.to_tmp tmp t d in
    d'
    ∷ (if returned h.to_tmp
        then if h.renames then rename true tmp p d' ∷ [] else fall_back h p tmp t d'
        else fall_back h p tmp t d')

-- the saving of anatomy.md
abbrev pub save_anatomy : Host → Text → Text → Text → Disk → List Disk
save_anatomy h p hex t d = save_as h p (tmp_of p hex) t d

-- `JSON.stringify(data, null, 2)` and `JSON.parse`, which may throw
pub record Json {ℓ} (V : Type ℓ) : Type ℓ where
  pub stringify : V → Text
  pub parse : Text → Option V

module _ {ℓ} {V : Type ℓ} (json : Json V) where
  -- Without a directory the call throws before it writes.
  unfoldable pub write_json : Host → Text → Text → V → Disk → List Disk
  unfolding save_as
  write_json h p hex v d = if h.has_dir then save_as h p (tmp_of p hex) (json.stringify v) d else []

  abbrev parsed : V → Option Text → V
  parsed fallback none = fallback
  parsed fallback (some t) = or_default fallback (json.parse t)

  unfoldable pub read_json : Text → V → Disk → V
  read_json p fallback d = parsed fallback (d p)

unfoldable pub read_markdown : Text → Disk → Text
read_markdown p d = or_default [] (d p)

-- `fs.appendFileSync`, behind the making of the directory
unfoldable pub append_markdown : Bool → Outcome → Text → Text → Disk → Disk
unfolding write_file
append_markdown has_dir o p line d =
    if has_dir
    then elim o [
      | written ↦ put p (some (or_default [] (d p) ++ line)) d
      | refused ↦ d
      | torn n ↦ put p (some (or_default [] (d p) ++ prefix n line)) d
    ]
    else d

-- The removal of temporary files when a session starts: `names` is what `fs.readdirSync` lists,
-- `none` where it throws, and `unlinks` says which files can be removed.
unfoldable pub remove_tmp : (Text → Bool) → Text → List Text → Disk → Disk
unfolding unlink ends_with
remove_tmp unlinks dir [] d = d
remove_tmp unlinks dir (f ∷ fs) d = remove_tmp unlinks dir fs (
    if ends_with f (codes ".tmp")
    then unlink (unlinks (join_path dir f)) (join_path dir f) d
    else d)

abbrev pub clean_up : (Text → Bool) → Text → Option (List Text) → Disk → Disk
clean_up unlinks dir none d = d
clean_up unlinks dir (some names) d = remove_tmp unlinks dir names d

abbrev pub final : Disk → List Disk → Disk
final d [] = d
final d (e ∷ es) = final e es
