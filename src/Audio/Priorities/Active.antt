-- ===== src/Audio/Priorities/Active.antt =====
-- Which sounds are active after PrioritizeSounds.
use mgdf.Prelude.Int.{ltb_ℤ}
use mgdf.Audio.Sounds.{Sound}
use mgdf.Audio.Priorities.{sort_before}
use mgdf.Prelude.{◌<◌, ◌≡◌, true, arith}

-- The comparison is no strict order: a sound of higher priority and lower volume comes before and after
-- the other.
sort_before_both :
    (a b : Sound)
    → ltb_ℤ a.priority b.priority ≡ true
    → b.attenuated < a.attenuated
    → (sort_before a b ≡ true) × (sort_before b a ≡ true)
unfolding sort_before
sort_before_both a b h lt = (ground arith, ground arith)
