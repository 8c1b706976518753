-- ===== src/Saves.antt =====
-- PendingSave, GameState and SaveManager of src/core/core.impl/MGDFSaveManagerImpl.cpp: how a save is
-- begun, committed, read back and deleted. A directory's content is a number; the file system's errors
-- are arguments. A rename is done or not done; it needs its source, and no directory at its target.
pub mod Recovery
use mgdf.Prelude.{
  ℕ, zero, suc, ◌+◌, ◌-◌, ◌*◌, ◌/◌, ◌%◌, ◌^◌, ◌≤◌, ◌<◌, min, max, ◌≡◌, refl, sym, ap, ◌∙◌, ◌≢◌, ◌↔◌,
  ◌⊎◌, inl, inr, Bool, true, false, not, ◌&&◌, ◌||◌, Option, none, some, List, [], ◌∷◌, ◌++◌, map,
  append-nil, append_assoc, arith, ltb, leb, ◌==◌, if◌then◌else◌, ltb→lt, lt→ltb, ==_iff, ==_refl,
  Bool-cases, Option-cases, length, get_elem?, take, drop, keep, any, all, null, length-append,
  length-take, length-drop, length-keep-le, keep-append, Text, codes, same_text, same_text_refl,
  same_text→eq, same_text_ne, find, insert, assign, find-insert, find-assign,
}

-- A directory: whole, or what a failed `remove_all` left of it.
pub data Dir : Type 0 where
  whole : ℕ → Dir
  damaged : Dir

-- The `data` and `backup` directories of one save.
pub record Disk : Type 0 where
  pub data_dir : Option Dir
  pub backup : Option Dir

-- What `remove_all` does: all of it, nothing, or a part and then an error.
pub data Removal : Type 0 where
  removes stays breaks : Removal

-- The errors that may come in the destructor of `PendingSave`; `true` is success.
pub record Outcomes : Type 0 where
  pub guid : Bool
  pub create : Bool
  pub remove_old : Removal
  pub move_old : Bool
  pub move_new : Bool
  pub restore : Bool
  pub remove_backup : Removal

removed : Removal → Option Dir → Option Dir
removed r none = none
removed removes (some d) = none
removed stays (some d) = some d
removed breaks (some d) = some damaged

-- Nothing to remove is no error.
remove_ok : Removal → Option Dir → Bool
remove_ok r none = true
remove_ok removes (some d) = true
remove_ok stays (some d) = false
remove_ok breaks (some d) = false

-- The source and the target after `rename`, and whether it went well.
rename : Bool → Option Dir → Option Dir → Option Dir × Option Dir × Bool
rename false source target = (source, target, false)
rename true none target = (none, target, false)
rename true (some d) (some t) = (some d, some t, false)
rename true (some d) none = (none, some d, true)

-- The part after the old data was put aside: the new data takes its place, or the old one comes back.
-- The result says whether the save was committed.
move_in : Outcomes → Bool → ℕ → Disk → Disk × Bool
unfolding rename removed
move_in o is_new content d =
    let (rest, new_data, moved) = rename o.move_new (some (whole content)) d.data_dir in
    let (backup, old_data, restored) = rename o.restore d.backup d.data_dir in
    if moved
    then (record { data_dir = new_data; backup = removed o.remove_backup d.backup }, true)
    else if is_new
    then (d, false)
    else (record { data_dir = old_data; backup = backup }, false)

put_aside : Outcomes → ℕ → Disk → Disk × Bool
unfolding rename removed remove_ok move_in
put_aside o content d =
    let backup = removed o.remove_old d.backup in
    let (data_dir, moved, ok) = rename o.move_old d.data_dir backup in
    if remove_ok o.remove_old d.backup
    then (if ok
        then move_in o false content (record { data_dir = data_dir; backup = moved })
        else (record { data_dir = d.data_dir; backup = backup }, false))
    else (record { data_dir = d.data_dir; backup = backup }, false)

-- The destructor of `PendingSave`, for a pending directory with this content.
pub commit : Outcomes → Bool → ℕ → Disk → Disk × Bool
unfolding put_aside move_in
commit o is_new content d =
    if is_new
    then (if o.guid && o.create then move_in o true content d else (d, false))
    else put_aside o content d

-- A game state and its save manager: the names of the saves that the manager lists.
pub record GameState : Type 0 where
  pub save_name : Option Text
  pub saves : List Text

abbrev is_new : GameState → Bool
is_new g = elim g.save_name [ none ↦ true | some name ↦ false ]

-- `SetSave`, which the destructor calls for a new save that was committed.
named : Option Text → Text → GameState → GameState
named none name g = record { save_name = some name; saves = g.saves ++ name ∷ [] }
named (some old) name g = g

finish_save : Outcomes → Text → ℕ → GameState × Disk → GameState × Disk
unfolding named commit
finish_save o name content (g, d) =
    let (d', committed) = commit o (is_new g) content d in
    (if committed then named g.save_name name g else g, d')

-- The errors that may come in `GetVFS`.
pub record Lookups : Type 0 where
  pub exists_ok : Bool
  pub is_directory_ok : Bool
  pub rename_ok : Bool
  pub mount_ok : Bool

mount : Lookups → Disk → Disk × Option Dir
mount l d = if l.mount_ok then (d, d.data_dir) else (d, none)

-- The case of a missing `data` directory: the backup takes its place.
recover : Lookups → Option Dir → Disk → Disk × Option Dir
unfolding mount
recover l none d = (d, none)
recover l (some b) d =
    if not l.rename_ok then (d, none) else mount l (record { data_dir = some b; backup = none })

-- `GetVFS` of a state that has a save: the disk after it, and the directory that is mounted; `none` is
-- an error.
get_existing : Lookups → Option Dir → Disk → Disk × Option Dir
unfolding recover mount
get_existing l none d = if l.exists_ok && l.is_directory_ok then recover l d.backup d else (d, none)
get_existing l (some b) d = if l.exists_ok then mount l d else (d, none)

get_vfs : Lookups → GameState → Disk → Disk × Option Dir
unfolding get_existing
get_vfs l g d = if is_new g then (d, none) else get_existing l d.data_dir d

-- `BeginSave`: the previous save is looked up first; `init_ok` is the result of `PendingSave::Init`.
-- The results are the disk, whether a save was begun, and the previous content.
begin_save : Lookups → Bool → GameState → Disk → Disk × Bool × Option Dir
unfolding get_vfs
begin_save l init_ok g d =
    let (d', previous) = get_vfs l g d in
    elim previous [
      | none ↦ (d', is_new g && init_ok, none)
      | some p ↦ if init_ok then (d', true, some p) else (d', false, none)
    ]

-- The constructor of `SaveManager` lists the directories whose name does not hold the marker.
list_saves : (Text → Bool) → List (Text × Bool) → List Text
list_saves is_pending [] = []
list_saves is_pending ((name, is_dir) ∷ es) =
    if is_dir && not (is_pending name)
    then name ∷ list_saves is_pending es
    else list_saves is_pending es

-- `std::find` and `erase`.
erase_name : Text → List Text → List Text
erase_name name [] = []
erase_name name (n ∷ ns) = if same_text n name then ns else n ∷ erase_name name ns

-- `DeleteSave`; the result `false` is an error. A new state has the empty name.
delete_save : Bool → Text → List Text → List Text × Bool
unfolding erase_name
delete_save remove_ok name saves =
    if not (any (λ n. same_text n name) saves)
    then (saves, false)
    else if remove_ok
    then (erase_name name saves, true)
    else (saves, false)
