-- ===== src/RenderSettings/Change.antt =====
-- PendingRenderSettingsChange of src/core/core.impl/MGDFRenderSettingsManagerImpl.cpp: values that are
-- checked when they are set, and applied together by the destructor.
use mgdf.RenderSettings.{
  LowLatencyMode, DisplayMode, FullScreenDesc, Settings, has_mode, find_quality, is_some,
}
use mgdf.Prelude.{
  ℕ, Bool, true, false, not, ◌&&◌, ◌||◌, Option, none, some, List, [], ◌∷◌, ltb, ◌==◌,
  if◌then◌else◌,
}

pub record Change : Type 0 where
  pub cancelled : Bool
  pub low_latency_mode : Option LowLatencyMode
  pub frame_generation : Option ℕ
  pub ray_tracing : Option Bool
  pub window_aspect_lock : Option Bool
  pub max_frame_latency : Option ℕ
  pub vsync : Option Bool
  pub back_buffer_multi_sample_level : Option ℕ
  pub current_multi_sample_level : Option ℕ
  pub full_screen : Option FullScreenDesc
  pub hdr_enabled : Option Bool
  pub primary_display_mode : Option DisplayMode
  pub size : Option (ℕ × ℕ)

abbrev pub no_change : Change
no_change = record {
  cancelled = false;
  low_latency_mode = none;
  frame_generation = none;
  ray_tracing = none;
  window_aspect_lock = none;
  max_frame_latency = none;
  vsync = none;
  back_buffer_multi_sample_level = none;
  current_multi_sample_level = none;
  full_screen = none;
  hdr_enabled = none;
  primary_display_mode = none;
  size = none;
}

abbrev eq_bool : Bool → Bool → Bool
eq_bool true b = b
eq_bool false b = not b

-- The comparison that the loop of `SetCurrentPrimaryDisplayMode` makes.
abbrev same_mode : DisplayMode → DisplayMode → Bool
same_mode a b =
    (a.width == b.width)
    && ((a.height == b.height)
        && (eq_bool a.supports_hdr b.supports_hdr
            && ((a.rate_denominator == b.rate_denominator)
                && (a.rate_numerator == b.rate_numerator))))

pub find_mode : DisplayMode → List DisplayMode → Option DisplayMode
find_mode mode [] = none
find_mode mode (m ∷ ms) = if same_mode m mode then some m else find_mode mode ms

-- The setters, as values: what a client may ask for.
pub data Request : Type 0 where
  set_max_frame_latency : ℕ → Request
  set_vsync : Bool → Request
  set_fullscreen : FullScreenDesc → Request
  set_back_buffer_multi_sample_level : ℕ → Request
  set_current_multi_sample_level : ℕ → Request
  set_current_primary_display_mode : DisplayMode → Request
  set_window_size : ℕ × ℕ → Request
  set_hdr_enabled : Bool → Request
  set_window_aspect_lock : Bool → Request
  set_low_latency_mode : LowLatencyMode → Request
  set_frame_generation : ℕ → Request
  set_ray_tracing : Bool → Request
  cancel : Request

stage_mode : Option DisplayMode → Change → Change × Bool
stage_mode none c = (c, false)
stage_mode (some m) c = (record c { primary_display_mode = some m }, true)

-- One setter, against the manager's settings of that moment; the result is its BOOL, and `true` where
-- the source returns nothing.
unfoldable pub stage : Request → Settings → Change → Change × Bool
unfolding stage_mode
stage (set_max_frame_latency n) s c = (record c { max_frame_latency = some n }, true)
stage (set_vsync b) s c = (record c { vsync = some b }, true)
stage (set_fullscreen d) s c = (record c { full_screen = some d }, true)
stage (set_back_buffer_multi_sample_level n) s c =
    if is_some (find_quality n s.multi_sample_quality)
    then (record c { back_buffer_multi_sample_level = some n }, true)
    else (c, false)
stage (set_current_multi_sample_level n) s c =
    if is_some (find_quality n s.multi_sample_quality)
    then (record c { current_multi_sample_level = some n }, true)
    else (c, false)
stage (set_current_primary_display_mode m) s c = stage_mode (find_mode m s.primary_display_modes) c
stage (set_window_size size) s c = (record c { size = some size }, true)
stage (set_hdr_enabled b) s c = (record c { hdr_enabled = some b }, true)
stage (set_window_aspect_lock b) s c = (record c { window_aspect_lock = some b }, true)
stage (set_low_latency_mode m) s c =
    if has_mode m s.support.low_latency_modes
    then (record c { low_latency_mode = some m }, true)
    else (c, false)
stage (set_frame_generation n) s c =
    if ltb s.support.max_generated_frames n
    then (c, false)
    else (record c { frame_generation = some n }, true)
stage (set_ray_tracing b) s c =
    if b && not s.support.ray_tracing then (c, false) else (record c { ray_tracing = some b }, true)
stage cancel s c = (record c { cancelled = true }, true)

-- What a client sets on a change, each with the manager's settings of that moment.
unfoldable pub stage_each : List (Request × Settings) → Change → Change
unfolding stage
stage_each [] c = c
stage_each ((r, s) ∷ rs) c = stage_each rs (stage r s c).0

abbrev pub or_old {ℓ} : {A : Type ℓ} → Option A → A → A
or_old none a = a
or_old (some b) a = b

or_none : Option (ℕ × ℕ) → Option (ℕ × ℕ) → Option (ℕ × ℕ)
or_none none old = old
or_none (some size) old = some size

differs : Option ℕ → ℕ → Bool
differs none old = false
differs (some n) old = not (n == old)

-- Whether the destructor marks the back buffer as changed.
is_changed : Change → Settings → Bool
unfolding differs
is_changed c s =
    is_some c.max_frame_latency
    || (is_some c.full_screen
        || (is_some c.vsync
            || (is_some c.back_buffer_multi_sample_level
                || (is_some c.current_multi_sample_level
                    || (is_some c.size
                        || (is_some c.primary_display_mode
                            || (is_some c.hdr_enabled
                                || differs c.frame_generation s.frame_generation)))))))

-- The destructor.
unfoldable pub commit : Change → Settings → Settings
unfolding is_changed or_none
commit c s = if c.cancelled then s else record s {
  max_frame_latency = or_old c.max_frame_latency s.max_frame_latency;
  full_screen = or_old c.full_screen s.full_screen;
  vsync = or_old c.vsync s.vsync;
  back_buffer_multi_sample_level =
      or_old c.back_buffer_multi_sample_level s.back_buffer_multi_sample_level;
  current_multi_sample_level = or_old c.current_multi_sample_level s.current_multi_sample_level;
  pending_window_size = or_none c.size s.pending_window_size;
  primary_display_mode = or_old c.primary_display_mode s.primary_display_mode;
  window_aspect_lock = or_old c.window_aspect_lock s.window_aspect_lock;
  hdr_enabled = or_old c.hdr_enabled s.hdr_enabled;
  low_latency_mode = or_old c.low_latency_mode s.low_latency_mode;
  frame_generation = or_old c.frame_generation s.frame_generation;
  ray_tracing = or_old c.ray_tracing s.ray_tracing;
  change_pending = is_changed c s || s.change_pending;
}
