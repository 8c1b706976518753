-- ===== src/Tests/Saves.antt =====
-- The properties of the saves at concrete disks and errors.
use mgdf.Saves.{whole, Disk, Outcomes, commit}
use mgdf.Saves.Recovery.{readable, no_faults, commit-readable, commit-commit}
use mgdf.Prelude.{◌≡◌, refl, false, none, some, if◌then◌else◌}

-- The new data cannot be moved in, nor the old data back.
abbrev faults : Outcomes
faults = record no_faults { move_new = false; restore = false }

abbrev disk : Disk
disk = record { data_dir = some (whole 1); backup = none }

commit-readable_example :
    readable (commit faults false 2 disk).0
    ≡ some (whole (if (commit faults false 2 disk).1 then 2 else 1))
commit-readable_example = commit-readable faults 1 2 disk refl

commit-commit_example :
    let d = (commit faults false 2 disk).0 in
    let (d', committed) = commit no_faults false 3 d in
    (readable d ≡ some (whole 1)) × (committed ≡ false) × (readable d' ≡ none)
commit-commit_example = commit-commit faults 1 2 3 refl refl refl refl
