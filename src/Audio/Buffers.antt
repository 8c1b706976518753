-- ===== src/Audio/Buffers.antt =====
-- The shared buffers of src/core/audio/openal/OpenALSoundManagerComponentImpl.cpp: CreateSoundBuffer and
-- RemoveSoundBuffer. The buffer that ALUT makes of a file is an argument, `none` for a failure.
pub mod Counts
use mgdf.Prelude.Count.{count}
use mgdf.Audio.Sources.{holds, erase, count-erase}
use mgdf.Prelude.{
  ℕ, suc, ◌-◌, ◌≡◌, refl, ◌⊎◌, inl, inr, Bool, true, false, ◌||◌, Option, none, some, List, [], ◌∷◌,
  ◌++◌, arith, ltb, ◌==◌, if◌then◌else◌, ==_refl, Bool-cases, any, Text, same_text,
}

-- `_sharedBuffers`: under each id, the source's path and the number of references.
abbrev pub SharedBuffers : Type 0
SharedBuffers = List (ℕ × Text × ℕ)

keep_looking : ℕ × Text × ℕ → Option (ℕ × SharedBuffers) → Option (ℕ × SharedBuffers)
keep_looking b none = none
keep_looking b (some (found, bs)) = some (found, b ∷ bs)

-- The first loop of `CreateSoundBuffer`: the buffer of this source, with one reference more.
share : Text → SharedBuffers → Option (ℕ × SharedBuffers)
unfolding keep_looking
share name [] = none
share name ((id, source, refs) ∷ bs) =
    let rest = share name bs in
    if same_text source name
    then some (id, (id, source, suc refs) ∷ bs)
    else keep_looking (id, source, refs) rest

pub references : ℕ → SharedBuffers → ℕ
references id [] = 0
references id ((j, source, refs) ∷ bs) = if j == id then refs else references id bs

abbrev has_buffer : ℕ → SharedBuffers → Bool
has_buffer id bs = any (λ b. b.0 == id) bs

load : Text → Option ℕ → SharedBuffers → Option (ℕ × SharedBuffers)
load name none bs = none
load name (some id) bs = some (id, if has_buffer id bs then bs else bs ++ (id, name, 1) ∷ [])

or_load : Option (ℕ × SharedBuffers) → Option (ℕ × SharedBuffers) → Option (ℕ × SharedBuffers)
or_load none loaded = loaded
or_load (some r) loaded = some r

-- `none` is a failure, which leaves the buffers as they are.
create_sound_buffer : Text → Option ℕ → SharedBuffers → Option (ℕ × SharedBuffers)
unfolding share load or_load
create_sound_buffer name made bs = or_load (share name bs) (load name made bs)

remove_sound_buffer : ℕ → SharedBuffers → SharedBuffers
remove_sound_buffer id [] = []
remove_sound_buffer id ((j, source, refs) ∷ bs) =
    if j == id
    then (if refs - 1 == 0 then bs else (j, source, refs - 1) ∷ bs)
    else (j, source, refs) ∷ remove_sound_buffer id bs
