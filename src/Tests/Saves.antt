-- ===== src/Tests/Saves.antt =====
-- Runs of the saving of files, as .wolf/hooks/shared.js does it: the second one on a full disk.
use efipix.Prelude.{true, false, none, some, List, [], ◌∷◌, ◌≡◌, refl, All, any, if◌then◌else◌}
use efipix.Text.{Text, codes, equal}
use efipix.Files.{Disk, Host, written, torn, Json, write_json, read_json, remove_tmp, final, tmp_of}
use efipix.Prelude.{map, ◌++◌}
use efipix.Files.Stdin.{
  Bytes, chunk, ended, timed_out, read_stdin, read_stdin-whole, read_stdin-settles,
}
use efipix.Files.Saving.{Keeps, write_json-Keeps}
use efipix.Files.ReadBack.{read_json-write_json, write_json-others}
use efipix.Files.Cleaning.{removes, remove_tmp-eq}

-- values that are texts, printed as they are
abbrev texts : Json Text
texts = record { stringify = λ t. t; parse = λ t. some t }

abbrev disk : Disk
disk p = if equal p (codes "s.json") then some (codes "{}") else none

-- the rename fails, as it may on Windows
abbrev held : Host
held = record {
  has_dir = true;
  to_tmp = written;
  renames = false;
  to_target = written;
  unlinks = true;
}

abbrev full : Host
full = record held { to_tmp = torn 0; to_target = torn 0 }

abbrev saved_text : Text
saved_text = codes "[1]"

write_json-Keeps_example :
    All
      (λ d. Keeps full saved_text (disk (codes "s.json")) (d (codes "s.json")))
      (write_json texts full (codes "s.json") (codes "0a") saved_text disk)
write_json-Keeps_example = write_json-Keeps texts full (codes "s.json") (codes "0a") saved_text disk

read_json-write_json_example :
    read_json texts
      (codes "s.json")
      []
      (final disk (write_json texts held (codes "s.json") (codes "0a") saved_text disk))
    ≡ saved_text
read_json-write_json_example =
    read_json-write_json texts (λ v. refl) held (codes "s.json") (codes "0a") saved_text [] disk
      refl

-- the old text is lost: the file is empty
emptied :
    final disk
      (write_json texts full (codes "s.json") (codes "0a") saved_text disk)
      (codes "s.json")
    ≡ some []
unfolding write_json equal
emptied = refl

other_path : equal (codes "s.json") (codes "b.json") ≡ false
unfolding equal
other_path = refl

other_tmp : equal (tmp_of (codes "s.json") (codes "0a")) (codes "b.json") ≡ false
unfolding equal
other_tmp = refl

write_json-others_example :
    All
      (λ d. d (codes "b.json") ≡ disk (codes "b.json"))
      (write_json texts held (codes "s.json") (codes "0a") saved_text disk)
write_json-others_example =
    write_json-others texts held (codes "s.json") (codes "0a") saved_text disk (codes "b.json")
      other_path other_tmp

abbrev listed : List Text
listed = codes "anatomy.md" ∷ codes "a.tmp" ∷ codes "hooks" ∷ []

remove_tmp-eq_example :
    remove_tmp (λ p. true) (codes "/p/.wolf") listed disk (codes "/p/.wolf/a.tmp") ≡ (
      if any (removes (λ p. true) (codes "/p/.wolf") (codes "/p/.wolf/a.tmp")) listed
      then none
      else disk (codes "/p/.wolf/a.tmp"))
remove_tmp-eq_example =
    remove_tmp-eq (λ p. true) (codes "/p/.wolf") listed disk (codes "/p/.wolf/a.tmp")

-- one unit for each byte
abbrev latin : Bytes → Text
latin b = b

abbrev pieces : List Bytes
pieces = codes "{\"a\"" ∷ codes ":1}" ∷ []

read_stdin-whole_example :
    read_stdin latin (map chunk pieces ++ ended ∷ timed_out ∷ []) ≡ some (codes "{\"a\":1}")
read_stdin-whole_example = read_stdin-whole latin pieces (timed_out ∷ [])

read_stdin-settles_example :
    (t : Text) × (read_stdin latin (timed_out ∷ []) ≡ some t)
    × (read_stdin latin ((timed_out ∷ []) ++ chunk (codes "{}") ∷ []) ≡ some t)
read_stdin-settles_example =
    read_stdin-settles latin (timed_out ∷ []) (chunk (codes "{}") ∷ []) refl
