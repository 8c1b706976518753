-- ===== src/Streamline/Upscale.antt =====
-- ToDLSSMode, GetUpscaleRenderSize and RTUpscale of src/core/core.impl/MGDFStreamline.cpp. The resources
-- and the tags that are handed to the plugin are not modelled.
pub mod Results
use mgdf.Streamline.{State, DlssOptions}
use mgdf.Streamline.Frames.{
  has_token, Result, s_ok, s_false, e_invalidarg, e_fail, e_notimpl, e_illegal_method_call,
}
use mgdf.Prelude.{
  ℕ, zero, suc, ◌+◌, ◌-◌, ◌*◌, ◌/◌, ◌%◌, ◌^◌, ◌≤◌, ◌<◌, min, max, ◌≡◌, refl, sym, ap, ◌∙◌, ◌≢◌, ◌↔◌,
  ◌⊎◌, inl, inr, Bool, true, false, not, ◌&&◌, ◌||◌, Option, none, some, List, [], ◌∷◌, ◌++◌, map,
  append-nil, append_assoc, arith, ltb, leb, ◌==◌, if◌then◌else◌, ltb→lt, lt→ltb, ==_iff, ==_refl,
  Bool-cases, Option-cases, length, get_elem?, take, drop, keep, any, all, null, length-append,
  length-take, length-drop, length-keep-le, keep-append, Text, codes, same_text, same_text_refl,
  same_text→eq, same_text_ne, find, insert, assign, find-insert, find-assign,
}

-- `MGDFUpscaleMode`.
pub data UpscaleMode : Type 0 where
  dlaa quality balanced performance ultra_performance : UpscaleMode

-- `sl::DLSSMode`, as the source uses it.
pub data DlssMode : Type 0 where
  dlss_aa max_quality dlss_balanced max_performance dlss_ultra_performance : DlssMode

to_dlss_mode : UpscaleMode → DlssMode
to_dlss_mode dlaa = dlss_aa
to_dlss_mode quality = max_quality
to_dlss_mode balanced = dlss_balanced
to_dlss_mode performance = max_performance
to_dlss_mode ultra_performance = dlss_ultra_performance

abbrev mode_number : DlssMode → ℕ
mode_number dlss_aa = 0
mode_number max_quality = 1
mode_number dlss_balanced = 2
mode_number max_performance = 3
mode_number dlss_ultra_performance = 4

pub record Size : Type 0 where
  pub width : ℕ
  pub height : ℕ

-- `MGDFUpscaleRenderSize`, and what the plugin recommends: the optimal, least and largest sizes.
pub record RenderSize : Type 0 where
  pub size : Size
  pub least : Size
  pub most : Size

-- A bound of 0 is taken to be the optimal size.
or_optimal : ℕ → ℕ → ℕ
or_optimal bound optimal = if bound == 0 then optimal else bound

sized : Option RenderSize → Option RenderSize × Result
unfolding or_optimal
sized none = (none, e_fail)
sized (some r) = if (r.size.width == 0) || (r.size.height == 0) then (none, e_fail) else (
  some (record {
    size = r.size;
    least = record {
      width = or_optimal r.least.width r.size.width;
      height = or_optimal r.least.height r.size.height;
    };
    most = record {
      width = or_optimal r.most.width r.size.width;
      height = or_optimal r.most.height r.size.height;
    };
  }),
  s_ok,
)

-- `settings` is what the plugin answers, `none` for an error; `mode` is `none` for a number that is no
-- mode.
upscale_render_size :
    (DlssMode → Size → Option RenderSize)
    → Option UpscaleMode
    → Size
    → State
    → Option RenderSize × Result
unfolding sized
upscale_render_size settings none display s =
    (none, if not s.upscale then e_notimpl else e_invalidarg)
upscale_render_size settings (some mode) display s =
    if not s.upscale
    then (none, e_notimpl)
    else if (display.width == 0) || (display.height == 0)
    then (none, e_invalidarg)
    else sized (settings (to_dlss_mode mode) display)

-- `MGDFUpscaleDesc`: whether each resource is there, the sizes, and the mode.
pub record UpscaleDesc : Type 0 where
  pub color_in : Bool
  pub color_out : Bool
  pub depth : Bool
  pub motion_vectors : Bool
  pub exposure : Bool
  pub color_hdr : Bool
  pub render : Size
  pub output : Size
  pub mode : Option UpscaleMode

abbrev complete : UpscaleDesc → Bool
complete d =
    d.color_in
    && (d.color_out
        && (d.depth
            && (d.motion_vectors
                && (not (d.render.width == 0)
                    && (not (d.render.height == 0)
                        && (not (d.output.width == 0) && not (d.output.height == 0)))))))

abbrev eq_bool : Bool → Bool → Bool
eq_bool true b = b
eq_bool false b = not b

same_options : DlssOptions → Option DlssOptions → Bool
same_options o none = false
same_options o (some p) =
    (p.mode == o.mode)
    && ((p.output_width == o.output_width)
        && ((p.output_height == o.output_height)
            && (eq_bool p.color_buffers_hdr o.color_buffers_hdr
                && eq_bool p.use_auto_exposure o.use_auto_exposure)))

options_of : DlssMode → UpscaleDesc → DlssOptions
options_of mode d = record {
  mode = mode_number mode;
  output_width = d.output.width;
  output_height = d.output.height;
  color_buffers_hdr = d.color_hdr;
  use_auto_exposure = not d.exposure;
}

evaluate : Bool → Bool → DlssOptions → State → State × Result
unfolding same_options
evaluate accepted evaluated o s =
    if same_options o s.dlss_options
    then (s, if evaluated then s_ok else e_fail)
    else if accepted
    then (record s { dlss_options = some o }, if evaluated then s_ok else e_fail)
    else (s, e_fail)

with_mode : Bool → Bool → Option UpscaleMode → UpscaleDesc → State → State × Result
unfolding evaluate options_of
with_mode accepted evaluated none d s = (s, e_invalidarg)
with_mode accepted evaluated (some mode) d s =
    if not s.constants_set
    then (s, e_illegal_method_call)
    else evaluate accepted evaluated (options_of (to_dlss_mode mode) d) s

-- `RTUpscale`: `recording` says whether the list is a direct one that records; `accepted` and
-- `evaluated` are the plugin's answers.
pub rt_upscale : Bool → Bool → Bool → UpscaleDesc → State → State × Result
unfolding with_mode
rt_upscale recording accepted evaluated d s =
    if not s.upscale || not (has_token s)
    then (s, e_notimpl)
    else if not (recording && complete d)
    then (s, e_invalidarg)
    else with_mode accepted evaluated d.mode d s

-- Whether the plugin holds the options of a call.
holds_options : Option UpscaleMode → UpscaleDesc → Option DlssOptions → Bool
unfolding options_of same_options
holds_options none d o = false
holds_options (some mode) d o = same_options (options_of (to_dlss_mode mode) d) o
