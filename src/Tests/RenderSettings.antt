-- ===== src/Tests/RenderSettings.antt =====
-- The properties of the render settings at concrete settings and changes.
use mgdf.Prelude.Int.{pos}
use mgdf.RenderSettings.{
  DisplayMode, OutputInfo, GraphicsSupport, Settings, r8g8b8a8, r10g10b10a2, full_g22_p709, off, on,
  boost,
}
use mgdf.RenderSettings.Change.{
  Request, set_frame_generation, set_back_buffer_multi_sample_level, set_low_latency_mode,
  no_change, stage, stage_each, commit, Change,
}
use mgdf.RenderSettings.SwapChain.{swap_chain_desc, commit-swap_chain_desc}
use mgdf.RenderSettings.Support.{IsWithin, HasLevels, AreOfDevice, commit-IsWithin}
use mgdf.RenderSettings.Preferences.{Preferences, load_preferences, last_level}
use mgdf.RenderSettings.Preferences.Clamp.{IsLoaded, load_preferences-IsLoaded}
use mgdf.Prelude.{◌≡◌, refl, true, false, none, some, List, [], ◌∷◌, arith}

abbrev mode_60 : DisplayMode
mode_60 = record {
  width = 1920;
  height = 1080;
  rate_numerator = 60;
  rate_denominator = 1;
  supports_hdr = false;
  is_native_size = false;
}

abbrev mode_120 : DisplayMode
mode_120 = record {
  width = 1920;
  height = 1080;
  rate_numerator = 120;
  rate_denominator = 1;
  supports_hdr = false;
  is_native_size = false;
}

abbrev support : GraphicsSupport
support = record {
  low_latency_modes = off ∷ on ∷ [];
  max_generated_frames = 2;
  ray_tracing = false;
}

abbrev output : OutputInfo
output = record { width = 1920; height = 1080; supports_hdr = false; sdr_white_level = 1000 }

-- Levels 1, 2 and 4, in exclusive full screen.
abbrev settings : Settings
settings = record {
  change_pending = false;
  window_aspect_lock = false;
  window_resize_enabled = false;
  pending_window_size = none;
  primary_display_modes = mode_60 ∷ mode_120 ∷ [];
  primary_display_mode = mode_60;
  multi_sample_levels = 1 ∷ 2 ∷ 4 ∷ [];
  multi_sample_quality = (1, 1) ∷ (2, 1) ∷ (4, 3) ∷ [];
  current_multi_sample_level = 1;
  back_buffer_multi_sample_level = 2;
  sdr_back_buffer_format = r8g8b8a8;
  hdr_back_buffer_format = r10g10b10a2;
  hdr_color_space = full_g22_p709;
  screen_x = 0;
  screen_y = 0;
  max_frame_latency = 1;
  support = support;
  low_latency_mode = off;
  frame_generation = 0;
  ray_tracing = false;
  current_output_dpi = 96;
  current_output_display_info = output;
  hdr_enabled = false;
  vsync = true;
  full_screen = record { full_screen = true; exclusive_mode = true };
}

-- The settings of an earlier moment, before another change.
abbrev earlier : Settings
earlier = record settings {
  frame_generation = 1;
  back_buffer_multi_sample_level = 1;
  screen_x = 800;
}

abbrev requests : List (Request × Settings)
requests =
    (set_frame_generation 3, earlier)
    ∷ (set_frame_generation 2, earlier)
    ∷ (set_back_buffer_multi_sample_level 4, settings)
    ∷ (set_back_buffer_multi_sample_level 3, settings)
    ∷ (set_low_latency_mode boost, settings)
    ∷ []

requests-AreOfDevice : AreOfDevice settings requests
requests-AreOfDevice =
    ((refl, refl), ((refl, refl), ((refl, refl), ((refl, refl), ((refl, refl), tt)))))

commit-IsWithin_example :
    IsWithin (commit (stage_each requests no_change) settings)
    × HasLevels (commit (stage_each requests no_change) settings)
commit-IsWithin_example =
    commit-IsWithin requests settings requests-AreOfDevice (refl, omega arith, refl) (refl, refl)

abbrev quiet : Change
quiet = (stage (set_low_latency_mode on) settings no_change).0

commit-swap_chain_desc_example :
    swap_chain_desc (800, 600) (commit quiet settings) ≡ swap_chain_desc (800, 600) settings
unfolding commit stage
commit-swap_chain_desc_example = commit-swap_chain_desc quiet settings (800, 600) refl

-- The preferences ask for level 3, and for more frames than are supported.
abbrev preferences : Preferences
preferences = record {
  window_aspect_lock = none;
  window_resize = none;
  full_screen = none;
  full_screen_exclusive = none;
  vsync = none;
  max_frame_latency = none;
  hdr_enabled = none;
  low_latency_mode = some (pos 2);
  frame_generation = some 9;
  ray_tracing = none;
  sdr_back_buffer_format = none;
  screen_x = some 1920;
  screen_y = some 1080;
  rt_multisample_level = some (pos 16);
  multisample_level = some (pos 3);
}

load_preferences-IsLoaded_example :
    IsLoaded 4 (load_preferences true (640, 480) preferences settings)
unfolding last_level
load_preferences-IsLoaded_example =
    load_preferences-IsLoaded true (640, 480) preferences settings 4 mode_60 (mode_120 ∷ []) refl
      refl refl refl
