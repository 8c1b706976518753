-- ===== src/RenderSettings/SwapChain.antt =====
-- OnResetSwapChain of src/core/core.impl/MGDFRenderSettingsManagerImpl.cpp: the swap chain that the
-- settings ask for, and when a change of the settings calls for a new one.
use mgdf.RenderSettings.{
  DisplayMode, OutputInfo, Settings, Format, ColorSpace, full_g22_p709, find_quality,
}
use mgdf.RenderSettings.Change.{Change, commit}
use mgdf.RenderSettings.Modes.{set_output_properties, adopt_mode}
use mgdf.Prelude.{
  ℕ, ◌+◌, ◌-◌, ◌%◌, ◌^◌, ◌≡◌, refl, Bool, true, false, not, ◌&&◌, ◌||◌, Option, none, some, List,
  [], ◌∷◌, ◌++◌, arith, ◌==◌, if◌then◌else◌,
}

-- What is written to the descriptions, but for the constants.
pub record SwapChainDesc : Type 0 where
  pub windowed : Bool
  pub rate_numerator : ℕ
  pub rate_denominator : ℕ
  pub width : ℕ
  pub height : ℕ
  pub waitable : Bool
  pub format : Format
  pub color_space : ColorSpace
  pub sample_count : ℕ
  pub sample_quality : ℕ

abbrev or_zero : Option ℕ → ℕ
or_zero none = 0
or_zero (some q) = q

abbrev is_exclusive : Settings → Bool
is_exclusive s = s.full_screen.full_screen && s.full_screen.exclusive_mode

-- The operator [] of `std::map` adds a missing level with quality 0.
touch : ℕ → Option ℕ → List (ℕ × ℕ) → List (ℕ × ℕ)
touch level none m = m ++ (level, 0) ∷ []
touch level (some q) m = m

-- The quality is a 32-bit difference.
unfoldable pub swap_chain_desc : ℕ × ℕ → Settings → SwapChainDesc
swap_chain_desc (right, bottom) s =
    let exclusive = is_exclusive s in
    let hdr =
      (if exclusive
        then s.primary_display_mode.supports_hdr
        else s.current_output_display_info.supports_hdr)
      && s.hdr_enabled in
    let quality = or_zero (find_quality s.back_buffer_multi_sample_level s.multi_sample_quality) in
    record {
      windowed = not exclusive;
      rate_numerator = s.primary_display_mode.rate_numerator;
      rate_denominator = s.primary_display_mode.rate_denominator;
      width =
          if s.full_screen.full_screen
          then (if s.full_screen.exclusive_mode
              then s.primary_display_mode.width
              else s.current_output_display_info.width)
          else right;
      height =
          if s.full_screen.full_screen
          then (if s.full_screen.exclusive_mode
              then s.primary_display_mode.height
              else s.current_output_display_info.height)
          else bottom;
      waitable = not s.full_screen.exclusive_mode;
      format = if hdr then s.hdr_back_buffer_format else s.sdr_back_buffer_format;
      color_space = if hdr then s.hdr_color_space else full_g22_p709;
      sample_count = s.back_buffer_multi_sample_level;
      sample_quality = (quality + 2 ^ 32 - 1) % 2 ^ 32;
    }

on_reset_swap_chain : ℕ × ℕ → Settings → Settings × SwapChainDesc
unfolding swap_chain_desc touch
on_reset_swap_chain window s =
    let desc = swap_chain_desc window s in
    (
      record s {
        multi_sample_quality =
            touch s.back_buffer_multi_sample_level
              (find_quality s.back_buffer_multi_sample_level s.multi_sample_quality)
              s.multi_sample_quality;
        screen_x = desc.width;
        screen_y = desc.height;
        change_pending = false;
      },
      desc,
    )

-- `quality` of `GetCurrentMultiSampleLevel`; `none` is a level that the map does not hold.
abbrev less_one : Option ℕ → Option ℕ
less_one none = none
less_one (some q) = some ((q + 2 ^ 32 - 1) % 2 ^ 32)

current_quality : Settings → Option ℕ
current_quality s = less_one (find_quality s.current_multi_sample_level s.multi_sample_quality)

-- A change that a client applies without the back buffer being marked as changed asks for the same swap
-- chain as before, whatever the size of the window.
pub commit-swap_chain_desc :
    (c : Change) (s : Settings) (w : ℕ × ℕ)
    → (commit c s).change_pending ≡ false
    → swap_chain_desc w (commit c s) ≡ swap_chain_desc w s
unfolding commit swap_chain_desc
commit-swap_chain_desc c s w h = ground arith

adopt_mode-desc :
    (ms : List DisplayMode) (s : Settings) (w : ℕ × ℕ)
    → is_exclusive s ≡ true
    → (adopt_mode ms s).change_pending ≡ false
    → swap_chain_desc w (adopt_mode ms s) ≡ swap_chain_desc w s
unfolding adopt_mode swap_chain_desc
adopt_mode-desc [] s w e h = refl
adopt_mode-desc (m ∷ ms) s w e h = ground (arith, adopt_mode-desc ms s w e)

-- In exclusive full screen, new properties of the output that do not mark the back buffer as changed
-- ask for the same swap chain as before.
set_output_properties-swap_chain_desc :
    (info : OutputInfo) (dpi : ℕ) (modes : List DisplayMode) (s : Settings) (w : ℕ × ℕ)
    → is_exclusive s ≡ true
    → (set_output_properties info dpi modes s).change_pending ≡ false
    → swap_chain_desc w (set_output_properties info dpi modes s) ≡ swap_chain_desc w s
unfolding set_output_properties swap_chain_desc
set_output_properties-swap_chain_desc info dpi modes s w e h =
    let s' : Settings = record s {
      change_pending =
          not (s.current_output_display_info.sdr_white_level == info.sdr_white_level)
          || s.change_pending;
      current_output_display_info = info;
      primary_display_modes = modes;
    } in
    ground (arith, adopt_mode-desc modes s' w e)
