-- ===== src/Audio/Sounds.antt =====
-- OpenALSound of src/core/audio/openal/OpenALSound.cpp: when a sound holds a source of the pool. Sounds
-- are numbered, and `sounds` is the store. OpenAL's answers are arguments: `accepts` says whether the
-- source takes the buffer, `playing` whether it plays. The gain that OpenAL is told is not modelled.
pub mod Ownership
use mgdf.Prelude.Int.{ℤ}
use mgdf.Audio.Sources.{Sources, acquire, release}
use mgdf.Prelude.{
  ℕ, zero, suc, ◌+◌, ◌-◌, ◌*◌, ◌/◌, ◌%◌, ◌^◌, ◌≤◌, ◌<◌, min, max, ◌≡◌, refl, sym, ap, ◌∙◌, ◌≢◌, ◌↔◌,
  ◌⊎◌, inl, inr, Bool, true, false, not, ◌&&◌, ◌||◌, Option, none, some, List, [], ◌∷◌, ◌++◌, map,
  append-nil, append_assoc, arith, ltb, leb, ◌==◌, if◌then◌else◌, ltb→lt, lt→ltb, ==_iff, ==_refl,
  Bool-cases, Option-cases, length, get_elem?, take, drop, keep, any, all, null, length-append,
  length-take, length-drop, length-keep-le, keep-append, Text, codes, same_text, same_text_refl,
  same_text→eq, same_text_ne, find, insert, assign, find-insert, find-assign,
}

-- A volume is a ℕ: the code only multiplies it, which `attenuated` is the result of, and compares.
pub record Sound : Type 0 where
  pub priority : ℤ
  pub attenuated : ℕ
  pub source_id : ℕ
  pub is_active : Bool
  pub is_looping : Bool
  pub was_playing : Bool
  pub start_playing : Bool

pub record Mixer : Type 0 where
  pub sources : Sources
  pub sounds : ℕ → Sound

abbrev update : (ℕ → Sound) → ℕ → Sound → ℕ → Sound
update f i p j = if i == j then p else f j

unfoldable pub deactivate : Bool → ℕ → Mixer → Mixer
deactivate playing i m =
    let s = m.sounds i in
    if s.is_active
    then record {
      sources = release s.source_id m.sources;
      sounds = update m.sounds i (record s {
        was_playing = s.is_looping && playing;
        start_playing = false;
        is_active = false;
      });
    }
    else m

-- `Reactivate` with the source that it was given; `Play` sets `start_playing`. If the source does not
-- take the buffer, `Deactivate` is called on a sound that is not marked as active yet.
with_source : Bool → ℕ → Mixer → Option (ℕ × Sources) → Mixer
unfolding deactivate
with_source accepts i m none = m
with_source accepts i m (some (source, sources)) =
    let s = record (m.sounds i) { source_id = source } in
    if accepts
    then record {
      sources = sources;
      sounds = update m.sounds i (record s {
        is_active = true;
        start_playing = s.is_looping && s.was_playing || s.start_playing;
      });
    }
    else deactivate false i (record { sources = sources; sounds = update m.sounds i s })

unfoldable pub reactivate : Bool → ℕ → Mixer → Mixer
unfolding with_source
reactivate accepts i m = with_source accepts i m (acquire m.sources)

play : ℕ → Mixer → Mixer
play i m =
    let s = m.sounds i in
    if s.is_active
    then record m { sounds = update m.sounds i (record s { start_playing = true }) }
    else m

-- `Stop` and `Pause`, as far as the sound itself goes.
stop : ℕ → Mixer → Mixer
stop i m = record m { sounds = update m.sounds i (record (m.sounds i) { was_playing = false }) }

-- The setters that the mixer's choices depend on.
set_looping : Bool → ℕ → Mixer → Mixer
set_looping looping i m = record m {
  sounds = update m.sounds i (record (m.sounds i) { is_looping = looping });
}

set_priority : ℤ → ℕ → Mixer → Mixer
set_priority priority i m = record m {
  sounds = update m.sounds i (record (m.sounds i) { priority = priority });
}

-- `Update`: a sound that waits to start is started; the result says whether OpenAL is told to play.
unfoldable pub update_sound : ℕ → ℕ → Mixer → Mixer × Bool
update_sound attenuated i m =
    let s = m.sounds i in
    (
      record m {
        sounds = update m.sounds i (record s {
          attenuated = attenuated;
          start_playing = if s.is_active then false else s.start_playing;
        });
      },
      s.is_active && s.start_playing,
    )

abbrev fresh_sound : ℤ → Sound
fresh_sound priority = record {
  priority = priority;
  attenuated = 1;
  source_id = 0;
  is_active = false;
  is_looping = false;
  was_playing = false;
  start_playing = false;
}

-- A new sound whose buffer was created: the constructor, and `Init` after it.
create_sound : Bool → ℤ → ℕ → Mixer → Mixer
unfolding reactivate
create_sound accepts priority i m =
    reactivate accepts i (record m { sounds = update m.sounds i (fresh_sound priority) })
