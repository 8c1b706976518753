-- ===== src/Audio/Priorities.antt =====
-- Update, PrioritizeSounds, DeactivateSound, Sort and the start of CreateSound of
-- src/core/audio/openal/OpenALSoundManagerComponentImpl.cpp. `std::sort` is not part of the repository:
-- `order` is its result. A `size_t` has 64 bits. Streams are not modelled.
pub mod Active
use mgdf.Prelude.Int.{ℤ, ltb_ℤ, leb_ℤ}
use mgdf.Audio.Sounds.{Sound, Mixer, deactivate, reactivate, update_sound}
use mgdf.Prelude.{
  ℕ, zero, suc, ◌+◌, ◌-◌, ◌*◌, ◌/◌, ◌%◌, ◌^◌, ◌≤◌, ◌<◌, min, max, ◌≡◌, refl, sym, ap, ◌∙◌, ◌≢◌, ◌↔◌,
  ◌⊎◌, inl, inr, Bool, true, false, not, ◌&&◌, ◌||◌, Option, none, some, List, [], ◌∷◌, ◌++◌, map,
  append-nil, append_assoc, arith, ltb, leb, ◌==◌, if◌then◌else◌, ltb→lt, lt→ltb, ==_iff, ==_refl,
  Bool-cases, Option-cases, length, get_elem?, take, drop, keep, any, all, null, length-append,
  length-take, length-drop, length-keep-le, keep-append, Text, codes, same_text, same_text_refl,
  same_text→eq, same_text_ne, find, insert, assign, find-insert, find-assign,
}

-- The comparison that `std::sort` is given.
sort_before : Sound → Sound → Bool
sort_before a b =
    if ltb_ℤ a.priority b.priority
    then true
    else if ltb a.attenuated b.attenuated
    then true
    else if not a.is_looping && b.is_looping
    then true
    else false

abbrev pub free_sources : Mixer → ℕ
free_sources m = length m.sources.free

abbrev is_active : ℕ → Mixer → Bool
is_active i m = (m.sounds i).is_active

-- How many sounds are inactive, as the first loop of `Update` counts them.
unfoldable pub inactive_count : List ℕ → Mixer → ℕ
inactive_count [] m = 0
inactive_count (i ∷ is) m = if is_active i m then inactive_count is m else suc (inactive_count is m)

pub update_all : (ℕ → ℕ) → List ℕ → Mixer → Mixer
update_all attenuated [] m = m
update_all attenuated (i ∷ is) m = update_all attenuated is (update_sound (attenuated i) i m).0

module _ (accepts playing : ℕ → Bool) where
  prioritize_one : Bool → ℕ → Mixer → Mixer
  prioritize_one lower i m =
      if lower
      then deactivate (playing i) i m
      else if is_active i m
      then m
      else reactivate (accepts i) i m

  -- The loop, over the sorted sounds, with the counter that each test decrements.
  prioritize_loop : List ℕ → ℕ → Mixer → Mixer
  unfolding prioritize_one
  prioritize_loop [] n m = m
  prioritize_loop (i ∷ is) n m =
      prioritize_loop is ((n + 2 ^ 64 - 1) % 2 ^ 64) (prioritize_one (ltb 0 n) i m)

  -- The difference is one of two `size_t`, which is never below 0.
  prioritize_sounds : List ℕ → ℕ → Mixer → Mixer
  unfolding prioritize_loop
  prioritize_sounds order deactivated m =
      prioritize_loop order ((deactivated + 2 ^ 64 - free_sources m) % 2 ^ 64) m

  unfoldable pub update_mixer : (ℕ → ℕ) → List ℕ → List ℕ → Mixer → Mixer
  unfolding prioritize_sounds update_all
  update_mixer attenuated sounds order m =
      let n = inactive_count sounds m in
      let m' = update_all attenuated sounds m in
      if ltb 0 n then prioritize_sounds order n m' else m'

  deactivate_first : List ℕ → Mixer → Mixer
  deactivate_first [] m = m
  deactivate_first (i ∷ is) m = deactivate (playing i) i m

  -- `DeactivateSound`; `sort` stands for `std::sort`.
  deactivate_sound : (List ℕ → List ℕ) → ℤ → List ℕ → Mixer → Mixer
  unfolding deactivate_first
  deactivate_sound sort priority sounds m =
      deactivate_first (sort (keep (λ i. leb_ℤ (m.sounds i).priority priority) sounds)) m

  -- What `CreateSound` and `CreateSoundStream` begin with.
  make_room : (List ℕ → List ℕ) → ℤ → List ℕ → Mixer → Mixer
  unfolding deactivate_sound
  make_room sort priority sounds m =
      if free_sources m == 0 then deactivate_sound sort priority sounds m else m
