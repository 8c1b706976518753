-- ===== src/Tests/Archive.antt =====
-- The properties of archives at a concrete archive.
use mgdf.Prelude.Int.{pos}
use mgdf.Archive.Reader.{size, remaining, read, set_position, new_reader, copy_to}
use mgdf.Archive.Reader.Pieces.{read_all, total, at, read_all-take, read-set_position}
use mgdf.Archive.Reader.Copying.{IsCopyOf, copy_to-IsCopyOf}
use mgdf.Archive.{
  file, folder, no_child, child, Children, split_path, map_entries, lookup, get, add_child,
  set_child,
}
use mgdf.Archive.Lookup.{map_entries-lookup}
use mgdf.Prelude.{
  ℕ, ◌-◌, ◌^◌, min, ◌≡◌, refl, none, some, List, [], ◌∷◌, arith, length, take, Text, codes,
  same_text,
}

-- A file in a folder, next to it a file in a deeper folder, and the folder as an entry of its own.
abbrev later : List (Text × ℕ)
later = (codes "a/c/x.txt", 3) ∷ (codes "a/", 0) ∷ []

abbrev tree : Children
tree =
    child (codes "a")
      (folder (
        child (codes "b") (file 7)
          (child (codes "c") (folder (child (codes "x.txt") (file 3) no_child)) no_child)))
      no_child

map_entries-lookup_example : lookup (codes "a" ∷ codes "b" ∷ []) (folder tree) ≡ some (file 7)
unfolding map_entries split_path lookup get set_child same_text add_child
map_entries-lookup_example =
    map_entries-lookup (codes "a/b") 7 later no_child tree (omega arith) refl refl

abbrev stored : List ℕ
stored = 80 ∷ 75 ∷ 3 ∷ 4 ∷ 20 ∷ []

read_all-take_example :
    read_all (2 ∷ 1 ∷ 9 ∷ []) (new_reader stored)
    ≡ some (
      take (total (2 ∷ 1 ∷ 9 ∷ [])) stored,
      at stored (min (total (2 ∷ 1 ∷ 9 ∷ [])) (length stored)),
    )
read_all-take_example = read_all-take (2 ∷ 1 ∷ 9 ∷ []) stored (omega arith)

read-set_position_example :
    (remaining (size (new_reader stored)) (pos 6) ≡ 2 ^ 32 - (6 - size (new_reader stored)))
    × (read 4 (set_position (pos 6) (new_reader stored)) ≡ none)
read-set_position_example =
    read-set_position 4 6 (new_reader stored) (omega arith) (omega arith) (omega arith)

copy_to-IsCopyOf_example : IsCopyOf (λ i. 3) stored (copy_to (λ i. 3) stored)
copy_to-IsCopyOf_example = copy_to-IsCopyOf (λ i. 3) stored (omega arith)
