-- ===== src/Tests/Audio.antt =====
-- The properties of the sound system at a concrete mixer and buffers.
use mgdf.Prelude.Int.{pos}
use mgdf.Audio.Sources.{Sources}
use mgdf.Audio.Buffers.{SharedBuffers}
use mgdf.Audio.Sounds.{Sound, Mixer, deactivate, reactivate}
use mgdf.Audio.Sounds.Ownership.{Owned, deactivate-Owned, reactivate-Owned}
use mgdf.Prelude.{ℕ, refl, true, false, [], ◌∷◌, arith, codes}

abbrev silent : Sound
silent = record {
  priority = pos 1;
  attenuated = 5;
  source_id = 0;
  is_active = false;
  is_looping = false;
  was_playing = false;
  start_playing = false;
}

abbrev one_free : Sources
one_free = record { free = 7 ∷ []; allocated = [] }

abbrev mixer : Mixer
mixer = record { sources = one_free; sounds = λ i. silent }

mixer-Owned : Owned mixer
mixer-Owned = record {
  single = λ x. ground arith;
  held = λ i a. absurd (ground arith);
  apart = λ i j a b e. absurd (ground arith);
}

deactivate-Owned_example : Owned (deactivate false 3 (reactivate true 3 mixer))
deactivate-Owned_example =
    deactivate-Owned false 3 (reactivate true 3 mixer)
      (reactivate-Owned true 3 mixer refl mixer-Owned)

-- One buffer that two sounds hold.
abbrev buffers : SharedBuffers
buffers = (4, codes "a.wav", 2) ∷ []

abbrev second : ℕ
second = 1
