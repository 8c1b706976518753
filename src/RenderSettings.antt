-- ===== src/RenderSettings.antt =====
-- RenderSettingsManager of src/core/core.impl/MGDFRenderSettingsManagerImpl.cpp and .hpp: the settings
-- and what the device and the outputs support. A 32-bit number is a ℕ, its wrap-around written out.
-- The mutex is not modelled: each operation runs under it.
pub mod Change
pub mod Device
pub mod Modes
pub mod SwapChain
pub mod Support
pub mod Preferences
use mgdf.Prelude.{
  ℕ, zero, suc, ◌+◌, ◌-◌, ◌*◌, ◌/◌, ◌%◌, ◌^◌, ◌≤◌, ◌<◌, min, max, ◌≡◌, refl, sym, ap, ◌∙◌, ◌≢◌, ◌↔◌,
  ◌⊎◌, inl, inr, Bool, true, false, not, ◌&&◌, ◌||◌, Option, none, some, List, [], ◌∷◌, ◌++◌, map,
  append-nil, append_assoc, arith, ltb, leb, ◌==◌, if◌then◌else◌, ltb→lt, lt→ltb, ==_iff, ==_refl,
  Bool-cases, Option-cases, length, get_elem?, take, drop, keep, any, all, null, length-append,
  length-take, length-drop, length-keep-le, keep-append, Text, codes, same_text, same_text_refl,
  same_text→eq, same_text_ne, find, insert, assign, find-insert, find-assign,
}

-- `MGDFLowLatencyMode`.
pub data LowLatencyMode : Type 0 where
  off on boost : LowLatencyMode

abbrev eq_mode : LowLatencyMode → LowLatencyMode → Bool
eq_mode off off = true
eq_mode on on = true
eq_mode boost boost = true
eq_mode _ _ = false

-- `MGDFDisplayMode`.
pub record DisplayMode : Type 0 where
  pub width : ℕ
  pub height : ℕ
  pub rate_numerator : ℕ
  pub rate_denominator : ℕ
  pub supports_hdr : Bool
  pub is_native_size : Bool

-- The members of `MGDFOutputDisplayInfo` that the manager reads.
pub record OutputInfo : Type 0 where
  pub width : ℕ
  pub height : ℕ
  pub supports_hdr : Bool
  pub sdr_white_level : ℕ

pub record FullScreenDesc : Type 0 where
  pub full_screen : Bool
  pub exclusive_mode : Bool

-- The members of `GraphicsSupport` that the settings are clamped to.
pub record GraphicsSupport : Type 0 where
  pub low_latency_modes : List LowLatencyMode
  pub max_generated_frames : ℕ
  pub ray_tracing : Bool

pub data Format : Type 0 where
  r8g8b8a8 r10g10b10a2 r16g16b16a16 : Format
  other : ℕ → Format

pub data ColorSpace : Type 0 where
  full_g22_p709 full_g2084_p2020 full_g10_p709 : ColorSpace

-- The members of `RenderSettingsManager`; `multi_sample_quality` is its map.
pub record Settings : Type 0 where
  pub change_pending : Bool
  pub window_aspect_lock : Bool
  pub window_resize_enabled : Bool
  pub pending_window_size : Option (ℕ × ℕ)
  pub primary_display_modes : List DisplayMode
  pub primary_display_mode : DisplayMode
  pub multi_sample_levels : List ℕ
  pub multi_sample_quality : List (ℕ × ℕ)
  pub current_multi_sample_level : ℕ
  pub back_buffer_multi_sample_level : ℕ
  pub sdr_back_buffer_format : Format
  pub hdr_back_buffer_format : Format
  pub hdr_color_space : ColorSpace
  pub screen_x : ℕ
  pub screen_y : ℕ
  pub max_frame_latency : ℕ
  pub support : GraphicsSupport
  pub low_latency_mode : LowLatencyMode
  pub frame_generation : ℕ
  pub ray_tracing : Bool
  pub current_output_dpi : ℕ
  pub current_output_display_info : OutputInfo
  pub hdr_enabled : Bool
  pub vsync : Bool
  pub full_screen : FullScreenDesc

abbrev has_mode : LowLatencyMode → List LowLatencyMode → Bool
has_mode mode modes = any (λ m. eq_mode m mode) modes

-- `_multiSampleQuality.find`.
abbrev find_quality : ℕ → List (ℕ × ℕ) → Option ℕ
find_quality level [] = none
find_quality level ((l, q) ∷ m) = if l == level then some q else find_quality level m

abbrev is_some {ℓ} : {A : Type ℓ} → Option A → Bool
is_some none = false
is_some (some a) = true

clamp_to_support : Settings → Settings
clamp_to_support s = record s {
  low_latency_mode =
      if has_mode s.low_latency_mode s.support.low_latency_modes then s.low_latency_mode else off;
  frame_generation = min s.frame_generation s.support.max_generated_frames;
  ray_tracing = s.ray_tracing && s.support.ray_tracing;
}

set_graphics_support : GraphicsSupport → Settings → Settings
unfolding clamp_to_support
set_graphics_support support s = clamp_to_support (record s { support = support })

set_hdr_format : Bool → Settings → Settings
set_hdr_format hdr10 s = record s {
  hdr_back_buffer_format = if hdr10 then r10g10b10a2 else r16g16b16a16;
  hdr_color_space = if hdr10 then full_g2084_p2020 else full_g10_p709;
}

on_resize : ℕ → ℕ → Settings → Settings
on_resize width height s = record s { screen_x = width; screen_y = height }

-- `SupportsHDR` of `GetCurrentOutputDisplayInfo`.
output_display_info : Settings → OutputInfo
output_display_info s = record s.current_output_display_info {
  supports_hdr = s.current_output_display_info.supports_hdr && s.hdr_enabled;
}
