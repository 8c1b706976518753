-- ===== src/Streamline.antt =====
-- Streamline of src/core/core.impl/MGDFStreamline.cpp: one session of NVIDIA's Streamline. The plugin is
-- not part of the repository: what its functions answer are arguments. The tables of its functions, the
-- proxy objects and the messages that are logged are not modelled.
pub mod Frames
pub mod Upscale
pub mod Invariant
use mgdf.RenderSettings.{LowLatencyMode, off, on, boost}
use mgdf.Prelude.{
  ℕ, zero, suc, ◌+◌, ◌-◌, ◌*◌, ◌/◌, ◌%◌, ◌^◌, ◌≤◌, ◌<◌, min, max, ◌≡◌, refl, sym, ap, ◌∙◌, ◌≢◌, ◌↔◌,
  ◌⊎◌, inl, inr, Bool, true, false, not, ◌&&◌, ◌||◌, Option, none, some, List, [], ◌∷◌, ◌++◌, map,
  append-nil, append_assoc, arith, ltb, leb, ◌==◌, if◌then◌else◌, ltb→lt, lt→ltb, ==_iff, ==_refl,
  Bool-cases, Option-cases, length, get_elem?, take, drop, keep, any, all, null, length-append,
  length-take, length-drop, length-keep-le, keep-append, Text, codes, same_text, same_text_refl,
  same_text→eq, same_text_ne, find, insert, assign, find-insert, find-assign,
}

-- The modes of `sl::ReflexMode` that the source uses.
pub data ReflexMode : Type 0 where
  reflex_off low_latency low_latency_with_boost : ReflexMode

abbrev same_reflex : ReflexMode → ReflexMode → Bool
same_reflex reflex_off reflex_off = true
same_reflex low_latency low_latency = true
same_reflex low_latency_with_boost low_latency_with_boost = true
same_reflex _ _ = false

pub to_reflex_mode : LowLatencyMode → ReflexMode
to_reflex_mode off = reflex_off
to_reflex_mode on = low_latency
to_reflex_mode boost = low_latency_with_boost

-- `sl::DLSSGMode`.
pub data DlssgMode : Type 0 where
  dlssg_off dlssg_on : DlssgMode

abbrev is_off : Option DlssgMode → Bool
is_off (some dlssg_off) = true
is_off _ = false

abbrev is_on : Option DlssgMode → Bool
is_on (some dlssg_on) = true
is_on _ = false

-- `sl::DLSSOptions`, as far as it is set: the mode is a number.
pub record DlssOptions : Type 0 where
  pub mode : ℕ
  pub output_width : ℕ
  pub output_height : ℕ
  pub color_buffers_hdr : Bool
  pub use_auto_exposure : Bool

-- `StreamlineState`; a frame token is a number, and `latency` the last one reported, in microseconds.
pub record State : Type 0 where
  pub active : Bool
  pub upscale : Bool
  pub low_latency : Bool
  pub max_generated_frames : ℕ
  pub frame_generation_vsync : Bool
  pub reflex : Bool
  pub pcl : Bool
  pub token : Option ℕ
  pub constants_set : Bool
  pub reflex_mode : Option ReflexMode
  pub dlss_options : Option DlssOptions
  pub frame_generation : Bool
  pub frame_generation_failed : Bool
  pub frame_generation_suspended : Bool
  pub frame_generation_inputs : Bool
  pub frame_generation_tagged : Bool
  pub generated_frames : ℕ
  pub frame_generation_mode : Option DlssgMode
  pub presented_frames : ℕ
  pub rendered_frames : ℕ
  pub latency : Option ℕ

-- A session that has not begun.
abbrev pub fresh : State
fresh = record {
  active = false;
  upscale = false;
  low_latency = false;
  max_generated_frames = 0;
  frame_generation_vsync = false;
  reflex = false;
  pcl = false;
  token = none;
  constants_set = false;
  reflex_mode = none;
  dlss_options = none;
  frame_generation = false;
  frame_generation_failed = false;
  frame_generation_suspended = false;
  frame_generation_inputs = false;
  frame_generation_tagged = false;
  generated_frames = 0;
  frame_generation_mode = none;
  presented_frames = 0;
  rendered_frames = 0;
  latency = none;
}

-- `ShutdownLocked` forgets all of the session.
shutdown : State → State
shutdown s = fresh

-- What `RTInit` is told: whether the adapter is a usable one, whether the interposer is loaded, and what
-- the plugin supports. `generation` is the largest number of frames, and whether VSync goes with it.
pub record Answers : Type 0 where
  pub adapter : Bool
  pub loaded : Bool
  pub started : Bool
  pub device : Bool
  pub dlss : Bool
  pub pcl : Bool
  pub reflex : Bool
  pub low_latency : Bool
  pub reflex_set : Bool
  pub generation : Option (ℕ × Bool)
  pub upgraded : Bool

-- The part of `RTInit` that asks for frame generation, which Reflex must go with.
with_generation : Option (ℕ × Bool) → State → State
with_generation none s = s
with_generation (some (count, vsync)) s =
    if s.reflex && ltb 0 count
    then record s { max_generated_frames = count; frame_generation_vsync = vsync }
    else s

features : Answers → State
features a =
    let reflex = a.pcl && a.reflex in
    record fresh {
      active = true;
      upscale = a.dlss;
      pcl = a.pcl;
      reflex = reflex;
      low_latency = reflex && a.low_latency;
      reflex_mode = if reflex && a.reflex_set then some reflex_off else none;
    }

init_features : Bool → State → State
init_features upgraded s =
    if not s.upscale && (not s.low_latency && (s.max_generated_frames == 0))
    then fresh
    else if upgraded
    then s
    else fresh

rt_init : Answers → State → State
unfolding with_generation features init_features
rt_init a s =
    if a.adapter && (a.loaded && (a.started && a.device))
    then init_features a.upgraded (with_generation a.generation (features a))
    else fresh

-- `GetSupport`: the upscale modes, the generated frames, and the latency modes.
get_support : State → Bool × ℕ × List LowLatencyMode
get_support s =
    (s.upscale, s.max_generated_frames, if s.low_latency then off ∷ on ∷ boost ∷ [] else off ∷ [])

-- What the plugin answers to `RTPrepareSwapChain`.
pub record Prepared : Type 0 where
  pub loaded : Bool
  pub imported : Bool

reset_generation : State → State
reset_generation s = record s {
  frame_generation = false;
  frame_generation_failed = false;
  frame_generation_suspended = false;
  frame_generation_inputs = false;
  frame_generation_tagged = false;
  frame_generation_mode = if is_off s.frame_generation_mode then some dlssg_off else none;
}

-- `scrgb` says whether the format is R16G16B16A16_FLOAT.
prepare_swap_chain : Prepared → ℕ → Bool → State → State × Bool
unfolding reset_generation
prepare_swap_chain p generated_frames scrgb s =
    let t = reset_generation s in
    let enable = ltb 0 generated_frames && not scrgb in
    if not t.active || (t.max_generated_frames == 0)
    then (t, false)
    else if not p.loaded || enable && not p.imported
    then (t, false)
    else (
      record t {
        frame_generation = enable;
        generated_frames = min generated_frames t.max_generated_frames;
      },
      enable,
    )
