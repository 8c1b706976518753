-- ===== src/Archive.antt =====
-- ZipArchiveHandlerImpl of src/core/vfs/archive/zip/ZipArchiveHandlerImpl.cpp: the tree of folders and
-- files that is made of the entries of an archive. What minizip reads is an argument: the entries, with
-- their path and size. Parent pointers and the shared context are not modelled.
pub mod Entry
pub mod Lookup
pub mod Reader
use mgdf.Prelude.{
  ℕ, zero, suc, ◌+◌, ◌-◌, ◌*◌, ◌/◌, ◌%◌, ◌^◌, ◌≤◌, ◌<◌, min, max, ◌≡◌, refl, sym, ap, ◌∙◌, ◌≢◌, ◌↔◌,
  ◌⊎◌, inl, inr, Bool, true, false, not, ◌&&◌, ◌||◌, Option, none, some, List, [], ◌∷◌, ◌++◌, map,
  append-nil, append_assoc, arith, ltb, leb, ◌==◌, if◌then◌else◌, ltb→lt, lt→ltb, ==_iff, ==_refl,
  Bool-cases, Option-cases, length, get_elem?, take, drop, keep, any, all, null, length-append,
  length-take, length-drop, length-keep-le, keep-append, Text, codes, same_text, same_text_refl,
  same_text→eq, same_text_ne, find, insert, assign, find-insert, find-assign,
}

mutual
  -- `ZipFileImpl` with its size, and `ZipFolderImpl` with its children.
  pub data Node : Type 0 where
    file : ℕ → Node
    folder : Children → Node

  pub data Children : Type 0 where
    no_child : Children
    child : Text → Node → Children → Children

-- `ZipFolderImpl::GetChild`.
unfoldable pub get : Text → Children → Option Node
get name no_child = none
get name (child n node cs) = let rest = get name cs in if same_text n name then some node else rest

-- `AddChild`: `map::insert` keeps a child that is there.
unfoldable pub add_child : Text → Node → Children → Children
add_child name node no_child = child name node no_child
add_child name node (child n other cs) =
    let rest = add_child name node cs in
    if same_text n name then child n other cs else child n other rest

-- A folder that was changed in place.
unfoldable pub set_child : Text → Node → Children → Children
set_child name node no_child = child name node no_child
set_child name node (child n other cs) =
    let rest = set_child name node cs in
    if same_text n name then child n node cs else child n other rest

-- The components of a path before its last slash, without empty ones, and what comes after it.
split_from : Text → Text → List Text × Text
split_from current [] = ([], current)
split_from current (c ∷ cs) =
    let (folders, name) = split_from [] cs in
    let longer = split_from (current ++ c ∷ []) cs in
    if c == b'/' then (if null current then folders else current ∷ folders, name) else longer

unfoldable pub split_path : Text → List Text × Text
unfolding split_from
split_path path = split_from [] path

-- The folder below a component: made if it is missing, and `none` if a file is in its place, where the
-- source gets a null pointer from its cast.
pub children_of : Option Node → Option Children
children_of none = some no_child
children_of (some (file size)) = none
children_of (some (folder cs)) = some cs

descend : (Children → Option Children) → Option Children → Option Children
descend f none = none
descend f (some cs) = f cs

put_back : Text → Children → Option Children → Option Children
put_back name cs none = none
put_back name cs (some below) = some (set_child name (folder below) cs)

-- Below a file nothing can be added: the source goes wrong with its null pointer, unless the entry has
-- no size and there is nothing to add.
when_blocked : ℕ → Option Node → Children → Option Children → Option Children
when_blocked size none cs added = added
when_blocked size (some (file n)) cs added = if ltb 0 size then none else some cs
when_blocked size (some (folder c)) cs added = added

-- An entry of no size is not added.
add_file : Text → ℕ → Children → Children
add_file name size cs = if ltb 0 size then add_child name (file size) cs else cs

-- The loop of `CreateParentFolder`, and the file at its end.
pub add_entry : List Text → Text → ℕ → Children → Option Children
unfolding children_of descend put_back add_file when_blocked
add_entry [] name size cs = some (add_file name size cs)
add_entry (p ∷ ps) name size cs =
    when_blocked size (get p cs) cs
      (put_back p cs (descend (λ below. add_entry ps name size below) (children_of (get p cs))))

add_path : List Text × Text → ℕ → Children → Option Children
unfolding add_entry
add_path (folders, name) size cs = add_entry folders name size cs

-- The loop of `MapArchive` over the entries.
unfoldable pub map_entries : List (Text × ℕ) → Children → Option Children
unfolding add_path split_path
map_entries [] cs = some cs
map_entries ((path, size) ∷ es) cs =
    descend (λ next. map_entries es next) (add_path (split_path path) size cs)

get_child : Text → Node → Option Node
get_child name (file size) = none
get_child name (folder cs) = get name cs

walk : (Node → Option Node) → Option Node → Option Node
walk f none = none
walk f (some n) = f n

-- The last loop of `MapArchive`: the segments of a path within the archive.
unfoldable pub lookup : List Text → Node → Option Node
unfolding get_child walk
lookup [] n = some n
lookup (p ∷ ps) n = walk (λ m. lookup ps m) (get_child p n)
