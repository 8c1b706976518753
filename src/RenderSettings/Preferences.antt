-- ===== src/RenderSettings/Preferences.antt =====
-- LoadPreferences of src/core/core.impl/MGDFRenderSettingsManagerImpl.cpp. `FromString` is a template on
-- the standard library's streams: a preference is given as its parsed value, `none` if it is missing.
-- What is written back with `SetPreference` is a list.
pub mod Clamp
pub mod Shown
use mgdf.Prelude.Int.{ℤ, pos, negsuc, leb_ℤ}
use mgdf.RenderSettings.{
  Settings, DisplayMode, Format, LowLatencyMode, off, on, boost, clamp_to_support, has_mode,
  find_quality, is_some, FullScreenDesc,
}
use mgdf.RenderSettings.Modes.{mode_from_dimensions, best_alternative}
use mgdf.Prelude.{
  ℕ, zero, suc, ◌+◌, ◌-◌, ◌*◌, ◌/◌, ◌%◌, ◌^◌, ◌≤◌, ◌<◌, min, max, ◌≡◌, refl, sym, ap, ◌∙◌, ◌≢◌, ◌↔◌,
  ◌⊎◌, inl, inr, Bool, true, false, not, ◌&&◌, ◌||◌, Option, none, some, List, [], ◌∷◌, ◌++◌, map,
  append-nil, append_assoc, arith, ltb, leb, ◌==◌, if◌then◌else◌, ltb→lt, lt→ltb, ==_iff, ==_refl,
  Bool-cases, Option-cases, length, get_elem?, take, drop, keep, any, all, null, length-append,
  length-take, length-drop, length-keep-le, keep-append, Text, codes, same_text, same_text_refl,
  same_text→eq, same_text_ne, find, insert, assign, find-insert, find-assign,
}

pub record Preferences : Type 0 where
  pub window_aspect_lock : Option Bool
  pub window_resize : Option Bool
  pub full_screen : Option Bool
  pub full_screen_exclusive : Option Bool
  pub vsync : Option Bool
  pub max_frame_latency : Option ℕ
  pub hdr_enabled : Option Bool
  pub low_latency_mode : Option ℤ
  pub frame_generation : Option ℕ
  pub ray_tracing : Option Bool
  pub sdr_back_buffer_format : Option Format
  pub screen_x : Option ℕ
  pub screen_y : Option ℕ
  pub rt_multisample_level : Option ℤ
  pub multisample_level : Option ℤ

pub data Written : Type 0 where
  screen_x_is screen_y_is rt_multisample_level_is multisample_level_is : ℕ → Written

abbrev or_old {ℓ} : {A : Type ℓ} → Option A → A → A
or_old none a = a
or_old (some b) a = b

-- An `int` stored in a UINT32.
abbrev to_uint32 : ℤ → ℕ
to_uint32 (pos n) = n % 2 ^ 32
to_uint32 (negsuc n) = 2 ^ 32 - 1 - n % 2 ^ 32

abbrev level_or : Option ℤ → ℕ → ℕ
level_or none old = old
level_or (some v) old = to_uint32 v

mode_of : ℤ → LowLatencyMode
mode_of (pos zero) = off
mode_of (pos (suc (suc zero))) = boost
mode_of _ = on

latency_or : Option ℤ → LowLatencyMode → LowLatencyMode
unfolding mode_of
latency_or none old = old
latency_or (some v) old = mode_of v

-- The settings that need no check, and those of the graphics features.
load_plain : Preferences → Settings → Settings
unfolding latency_or
load_plain p s =
    record (clamp_to_support (record s {
      low_latency_mode = latency_or p.low_latency_mode s.low_latency_mode;
      frame_generation = or_old p.frame_generation s.frame_generation;
      ray_tracing = or_old p.ray_tracing true;
    })) {
      window_aspect_lock = or_old p.window_aspect_lock s.window_aspect_lock;
      window_resize_enabled = or_old p.window_resize s.window_resize_enabled;
      full_screen = record {
        full_screen = or_old p.full_screen s.full_screen.full_screen;
        exclusive_mode = or_old p.full_screen_exclusive s.full_screen.exclusive_mode;
      };
      vsync = or_old p.vsync s.vsync;
      max_frame_latency = or_old p.max_frame_latency s.max_frame_latency;
      hdr_enabled = or_old p.hdr_enabled s.hdr_enabled;
      sdr_back_buffer_format = or_old p.sdr_back_buffer_format s.sdr_back_buffer_format;
    }

pub wanted_mode : Option ℕ → Option ℕ → List DisplayMode → Option DisplayMode
wanted_mode (some x) (some y) modes = mode_from_dimensions x y modes
wanted_mode _ _ modes = none

-- SCREEN_RES, which divides by the mode's denominator to log it: whether that goes well. `logs` is whether
-- MGDF_LOG_LOW is logged.
abbrev is_shown : Bool → DisplayMode → Bool
is_shown logs m = not (logs && (m.rate_denominator == 0))

-- `none` where there is no display mode at all, and the source throws, or where it divides by zero.
set_mode :
    Bool → Option DisplayMode → Option DisplayMode → Settings → Option (Settings × List Written)
set_mode logs (some m) alternative s =
    if is_shown logs m then some (record s { primary_display_mode = m }, []) else none
set_mode logs none (some m) s =
    if is_shown logs m
    then some
        (record s { primary_display_mode = m }, screen_x_is m.width ∷ screen_y_is m.height ∷ [])
    else none
set_mode logs none none s = none

-- `_multiSampleLevels.at(size - 1)`, which throws on no level at all.
unfoldable pub last_level : List ℕ → Option ℕ
last_level [] = none
last_level (l ∷ []) = some l
last_level (l ∷ k ∷ ls) = last_level (k ∷ ls)

clamp_levels : Preferences → Option ℕ → Settings → Option (Settings × List Written)
clamp_levels p none s = none
clamp_levels p (some top) s =
    let current = level_or p.rt_multisample_level s.current_multi_sample_level in
    let back = level_or p.multisample_level s.back_buffer_multi_sample_level in
    some (
      record s {
        current_multi_sample_level = if ltb top current then top else current;
        back_buffer_multi_sample_level = if ltb top back then top else back;
      },
      (if ltb top current then rt_multisample_level_is top ∷ [] else [])
          ++ (if ltb top back then multisample_level_is top ∷ [] else []),
    )

finish : Preferences → Option (Settings × List Written) → Option (Settings × List Written)
unfolding clamp_levels last_level
finish p none = none
finish p (some (s, written)) = elim (clamp_levels p (last_level s.multi_sample_levels) s) [
  | none ↦ none
  | some (t, more) ↦ some (t, written ++ more)
]

-- The result: the settings, and what is written; the preferences are saved if the list is not empty.
pub load_preferences : Bool → ℕ × ℕ → Preferences → Settings → Option (Settings × List Written)
unfolding load_plain wanted_mode set_mode finish
load_preferences logs native p s =
    let t = load_plain p s in
    finish p (
      set_mode logs (wanted_mode p.screen_x p.screen_y t.primary_display_modes)
        (best_alternative native t.primary_display_modes) t)
