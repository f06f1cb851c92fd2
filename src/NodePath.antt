-- ===== src/NodePath.antt =====
-- The functions of node:path that the hooks call, for POSIX paths, and `normalizePath` of
-- .wolf/hooks/shared.js.
pub mod Parts
pub mod Plain
pub mod Sections
use efipix.Prelude.{
  Bool, false, not, ◌&&◌, Option, none, some, List, [], ◌∷◌, ◌++◌, map, ◌==◌, if◌then◌else◌, keep,
}
use mathlib.Core.List.{reverse}
use efipix.Text.{Text, codes, equal, split, join, starts_with, ends_with, is_empty}

-- the parts between slashes, without the empty ones
unfoldable pub segments : Text → List Text
unfolding split
segments p = keep (λ s. not (is_empty s)) (split p b'/')

-- One part onto the parts before it, which stand in reverse; `up` tells whether `..` may lead out.
abbrev add_segment : Bool → List Text → Text → List Text
add_segment up [] s =
    if equal s (codes ".") then [] else if equal s (codes "..") && not up then [] else s ∷ []
add_segment up (l ∷ ls) s =
    if equal s (codes ".")
    then l ∷ ls
    else if equal s (codes "..") && not (equal l (codes ".."))
    then ls
    else s ∷ l ∷ ls

abbrev resolve_onto : Bool → List Text → List Text → List Text
resolve_onto up acc [] = acc
resolve_onto up acc (s ∷ ss) = resolve_onto up (add_segment up acc s) ss

unfoldable pub resolve_segments : Bool → List Text → List Text
unfolding equal
resolve_segments up ss = reverse (resolve_onto up [] ss)

-- `path.isAbsolute(p)`
unfoldable pub is_absolute : Text → Bool
unfolding starts_with
is_absolute p = starts_with p (codes "/")

abbrev closed : Bool → Bool → Text → Text
closed absolute trailing [] =
    if absolute then codes "/" else if trailing then codes "./" else codes "."
closed absolute trailing (c ∷ s) =
    (if absolute then codes "/" else []) ++ ((c ∷ s) ++ (if trailing then codes "/" else []))

-- `path.normalize(p)`
unfoldable pub normalize : Text → Text
unfolding is_absolute resolve_segments segments ends_with join
normalize [] = codes "."
normalize (c ∷ s) =
    let p = c ∷ s in
    closed (is_absolute p) (ends_with p (codes "/"))
      (join (resolve_segments (not (is_absolute p)) (segments p)) (codes "/"))

-- `path.join(a, b)`, which leaves out empty arguments
unfoldable pub join_path : Text → Text → Text
unfolding normalize
join_path [] b = normalize b
join_path (c ∷ a) [] = normalize (c ∷ a)
join_path (c ∷ a) (d ∷ b) = normalize ((c ∷ a) ++ (codes "/" ++ (d ∷ b)))

-- `path.resolve(p)` as parts, in the working directory `cwd`
unfoldable pub resolve : Text → Text → List Text
unfolding is_absolute resolve_segments segments
resolve cwd p =
    resolve_segments false (if is_absolute p then segments p else segments cwd ++ segments p)

abbrev relative_parts : List Text → List Text → List Text
relative_parts [] to' = to'
relative_parts (f ∷ from) [] = map (λ _. codes "..") (f ∷ from)
relative_parts (f ∷ from) (t ∷ to') =
    let rest = relative_parts from to' in
    if equal f t then rest else map (λ _. codes "..") (f ∷ from) ++ (t ∷ to')

-- `path.relative(from, to)`
unfoldable pub relative : Text → Text → Text → Text
unfolding resolve equal join
relative cwd from to' = join (relative_parts (resolve cwd from) (resolve cwd to')) (codes "/")

abbrev last_or : Text → List Text → Text
last_or d [] = d
last_or d (s ∷ ss) = last_or s ss

-- `path.basename(p)`
unfoldable pub basename : Text → Text
unfolding segments
basename p = last_or [] (segments p)

-- What follows the last dot, with the dot, and whether something stands before that dot.
abbrev dot_onto : Text → Option Text → Text → Option Text
dot_onto seen best [] = best
dot_onto seen best (c ∷ s) =
    dot_onto (c ∷ seen) (if c == b'.' then (if is_empty seen then none else some (c ∷ s)) else best)
      s

-- `path.extname(p)`: a name that begins with its only dot has no extension, nor has `..`.
unfoldable pub extname : Text → Text
unfolding basename equal
extname p =
    let b = basename p in
    if equal b (codes "..") then [] else elim (dot_onto [] none b) [ none ↦ [] | some e ↦ e ]

abbrev all_but_last : List Text → List Text
all_but_last [] = []
all_but_last (s ∷ []) = []
all_but_last (s ∷ t ∷ ss) = s ∷ all_but_last (t ∷ ss)

-- `path.dirname(p)` of a normalized path, such as `path.relative` returns
unfoldable pub dirname : Text → Text
unfolding is_absolute segments join
dirname p =
    let parts = all_but_last (segments p) in
    if is_absolute p
    then codes "/" ++ join parts (codes "/")
    else elim parts [ [] ↦ codes "." | s ∷ ss ↦ join (s ∷ ss) (codes "/") ]

-- `p.replace(/\\/g, "/")`
unfoldable pub normalize_path : Text → Text
normalize_path [] = []
normalize_path (c ∷ p) = (if c == b'\\' then b'/' else c) ∷ normalize_path p
