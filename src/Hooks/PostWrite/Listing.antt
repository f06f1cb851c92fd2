-- ===== src/Hooks/PostWrite/Listing.antt =====
-- The part of .wolf/hooks/post-write.js that enters the written file in anatomy.md.
use efipix.Prelude.{
  ℕ, ◌+◌, Bool, ◌||◌, Option, none, some, List, [], ◌∷◌, ◌++◌, if◌then◌else◌, length,
}
use efipix.Text.{Text, codes, equal, starts_with, to_lower, prefix}
use efipix.NodePath.{normalize_path, is_absolute, join_path, relative, basename, dirname, extname}
use efipix.Tokens.{Kind, code, prose, mixed, one_of, estimate_tokens}
use efipix.Anatomy.{
  Entry, Sections, parse_anatomy, serialize_anatomy, ensure_section, change_section,
}
use efipix.World.{Env, World, Input, or_default, project_root}
use efipix.Languages.{describe}

-- What the paths come to: the absolute path, and the path relative to the project.
unfoldable pub absolute_path : Env → Text → Text
absolute_path env p = if is_absolute p then p else join_path (project_root env) p

unfoldable pub relative_path : Env → Text → Text
relative_path env p = normalize_path (relative env.cwd (project_root env) (absolute_path env p))

abbrev pub is_env_file : Text → Bool
is_env_file name = equal name (codes ".env") || starts_with name (codes ".env.")

abbrev pub code_exts : List Text
code_exts =
    codes ".ts"
    ∷ codes ".js"
    ∷ codes ".tsx"
    ∷ codes ".jsx"
    ∷ codes ".py"
    ∷ codes ".json"
    ∷ codes ".yaml"
    ∷ codes ".yml"
    ∷ codes ".css"
    ∷ []

abbrev prose_exts : List Text
prose_exts = codes ".md" ∷ codes ".txt" ∷ codes ".rst" ∷ []

unfoldable pub kind_of : Text → Kind
kind_of path =
    let ext = to_lower (extname path) in
    if one_of code_exts ext then code else if one_of prose_exts ext then prose else mixed

unfoldable pub section_key : Text → Text
section_key rel =
    let dir = dirname rel in if equal dir (codes ".") then codes "./" else dir ++ codes "/"

-- the entry of the same name replaced, or the new entry at the end
unfoldable pub upsert : Entry → List Entry → List Entry
upsert e [] = e ∷ []
upsert e (x ∷ es) = if equal x.file e.file then e ∷ es else x ∷ upsert e es

unfoldable pub count_entries : Sections → ℕ
count_entries [] = 0
count_entries ((k, es) ∷ m) = length es + count_entries m

unfoldable pub update_sections : Text → Entry → Sections → Sections
update_sections key e m = change_section key (upsert e) (ensure_section key m)

abbrev pub no_anatomy : Text
no_anatomy = codes "# anatomy.md\n\n> Auto-maintained by OpenWolf.\n"

-- The new text of anatomy.md.
unfoldable pub update_anatomy : Env → Text → Entry → Option Text → Text
update_anatomy env key e old =
    let m = update_sections key e (parse_anatomy (or_default no_anatomy old)) in
    serialize_anatomy env.locale_gt m
      (record { last_scanned = env.now.iso; file_count = count_entries m; hits = 0; misses = 0 })

-- `x || y` of two texts
abbrev pub or_text : Text → Text → Text
or_text [] y = y
or_text (c ∷ x) y = c ∷ x

-- What the disk has at the written path: the whole file, and its first 12,288 bytes as text, which
-- `extractDescription` reads; each is `none` where it cannot be read.
pub record Written : Type 0 where
  pub full : Option Text
  pub start : Option Text

-- `none` where `extractDescription` returns no text, since the file is named like a property that
-- every object inherits: `slice` then throws.
abbrev pub description_of : Env → Text → Written → Option Text
description_of env p d = describe (absolute_path env p) d.start

-- The entry of the written file.
abbrev pub new_entry : Env → Text → Input → Written → Text → Entry
new_entry env p i d description =
    let content = or_default (or_default [] i.content) d.full in
    record {
      file = basename (relative_path env p);
      description = prefix 100 description;
      tokens = estimate_tokens content (kind_of (absolute_path env p));
    }

abbrev pub part_anatomy : Env → Text → Input → Written → World → World
part_anatomy env p i d w = elim (description_of env p d) [
  | none ↦ w
  | some description ↦
      let e = new_entry env p i d description in
      record w {
        anatomy = some (update_anatomy env (section_key (relative_path env p)) e w.anatomy);
      }
]
