-- ===== src/Saves/Recovery.antt =====
-- That a save survives the errors of the file system.
use mgdf.Saves.{
  Dir, whole, Disk, removes, Outcomes, Lookups, commit, put_aside, move_in, rename, removed,
  remove_ok, GameState, is_new, get_vfs, get_existing, recover, mount,
}
use mgdf.Prelude.{ℕ, ◌≡◌, true, false, Option, none, some, arith, if◌then◌else◌}

-- What `GetVFS` finds: the data, or else the backup.
abbrev pub readable : Disk → Option Dir
readable d = elim d.data_dir [ some x ↦ some x | none ↦ d.backup ]

-- Whatever errors the file system reports while a save is replaced, what can be read afterwards is
-- whole: the new content if the save was committed, and the old content otherwise.
pub commit-readable :
    (o : Outcomes) (old new : ℕ) (d : Disk)
    → d.data_dir ≡ some (whole old)
    → let (d', committed) = commit o false new d in
      readable d' ≡ some (whole (if committed then new else old))
unfolding commit put_aside move_in rename removed remove_ok
commit-readable o old new d h = ground arith

-- A new save is there whole once it is committed, and before that its place is as it was.
commit-new :
    (o : Outcomes) (new : ℕ) (d : Disk)
    → let (d', committed) = commit o true new d in
      if committed then d'.data_dir ≡ some (whole new) else d' ≡ d
unfolding commit move_in rename removed
commit-new o new d = ground arith

abbrev no_errors : Lookups
no_errors = record { exists_ok = true; is_directory_ok = true; rename_ok = true; mount_ok = true }

-- Reading back after whatever went wrong: if the file system now reports no error, a state that has a
-- save is given the content that is readable, and has it as its data from then on.
get_vfs-readable :
    (g : GameState) (d : Disk) (x : ℕ)
    → is_new g ≡ false
    → readable d ≡ some (whole x)
    → let (d', mounted) = get_vfs no_errors g d in
      (mounted ≡ some (whole x)) × (d'.data_dir ≡ some (whole x))
unfolding get_vfs get_existing recover mount
get_vfs-readable g d x n h = ground arith

abbrev pub no_faults : Outcomes
no_faults = record {
  guid = true;
  create = true;
  remove_old = removes;
  move_old = true;
  move_new = true;
  restore = true;
  remove_backup = removes;
}

-- Two saves of one state that are pending together may lose both contents: if the first cannot be moved
-- in and the old data cannot be moved back, then the second, which meets no error of the file system,
-- removes the backup, finds no data to put aside, and leaves nothing to read.
pub commit-commit :
    (o : Outcomes) (old first second : ℕ)
    → o.remove_old ≡ removes
    → o.move_old ≡ true
    → o.move_new ≡ false
    → o.restore ≡ false
    → let d = (commit o false first (record { data_dir = some (whole old); backup = none })).0 in
      let (d', committed) = commit no_faults false second d in
      (readable d ≡ some (whole old)) × (committed ≡ false) × (readable d' ≡ none)
unfolding commit put_aside move_in rename removed remove_ok
commit-commit o old first second a b c e = (ground arith, ground arith, ground arith)
