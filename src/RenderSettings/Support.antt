-- ===== src/RenderSettings/Support.antt =====
-- That the settings stay within what the device supports, and where they do not.
use mgdf.RenderSettings.{
  Settings, GraphicsSupport, off, has_mode, find_quality, is_some, set_graphics_support,
}
use mgdf.RenderSettings.Change.{
  Change, Request, no_change, stage, stage_each, commit, set_max_frame_latency, set_vsync,
  set_fullscreen, set_back_buffer_multi_sample_level, set_current_multi_sample_level,
  set_current_primary_display_mode, set_window_size, set_hdr_enabled, set_window_aspect_lock,
  set_low_latency_mode, set_frame_generation, set_ray_tracing, cancel, find_mode, or_old,
}
use mgdf.RenderSettings.Device.{init_d3d12}
use mgdf.RenderSettings.SwapChain.{swap_chain_desc}
use mathlib.Core.Path.{subst, sym}
use mgdf.Prelude.{
  ℕ, ◌-◌, ◌^◌, ◌≤◌, ◌<◌, ◌≡◌, ◌≢◌, inl, inr, true, false, not, ◌&&◌, List, [], ◌∷◌, arith, ltb,
  lt→ltb, Bool-cases, Option-cases,
}

-- The settings of the graphics features, within what is supported.
abbrev pub IsWithin : Settings → Type 0
IsWithin s =
    (has_mode s.low_latency_mode s.support.low_latency_modes ≡ true)
    × (s.frame_generation ≤ s.support.max_generated_frames)
    × ((s.ray_tracing && not s.support.ray_tracing) ≡ false)

-- Both multisample levels are levels of the device.
abbrev pub HasLevels : Settings → Type 0
HasLevels s =
    (is_some (find_quality s.current_multi_sample_level s.multi_sample_quality) ≡ true)
    × (is_some (find_quality s.back_buffer_multi_sample_level s.multi_sample_quality) ≡ true)

-- A device whose support has the mode "off", as the source asserts, leaves the settings within its
-- support, whatever they were before.
set_graphics_support-IsWithin :
    (support : GraphicsSupport) (s : Settings)
    → has_mode off support.low_latency_modes ≡ true
    → IsWithin (set_graphics_support support s)
unfolding set_graphics_support
set_graphics_support-IsWithin support s h = (ground arith, omega arith, ground arith)

-- What the change would leave of the settings `s` is supported by the device of the settings `t`.
abbrev IsStaged : Settings → Settings → Change → Type 0
IsStaged t s c =
    (has_mode (or_old c.low_latency_mode s.low_latency_mode) t.support.low_latency_modes ≡ true)
    × (or_old c.frame_generation s.frame_generation ≤ t.support.max_generated_frames)
    × ((or_old c.ray_tracing s.ray_tracing && not t.support.ray_tracing) ≡ false)
    × (is_some (
          find_quality (or_old c.current_multi_sample_level s.current_multi_sample_level)
            t.multi_sample_quality)
        ≡ true)
    × (is_some (
          find_quality (or_old c.back_buffer_multi_sample_level s.back_buffer_multi_sample_level)
            t.multi_sample_quality)
        ≡ true)

stage-IsStaged :
    (r : Request) (t s : Settings) (c : Change) → IsStaged t s c → IsStaged t s (stage r t c).0
unfolding stage
stage-IsStaged (set_max_frame_latency n) t s c v = v
stage-IsStaged (set_vsync b) t s c v = v
stage-IsStaged (set_fullscreen d) t s c v = v
stage-IsStaged (set_back_buffer_multi_sample_level n) t s c (l, f, r, k, b) =
    elim (Bool-cases (is_some (find_quality n t.multi_sample_quality))) [
      | inl e ↦ rw e (l, f, r, k, e)
      | inr e ↦ rw e (l, f, r, k, b)
    ]
stage-IsStaged (set_current_multi_sample_level n) t s c (l, f, r, k, b) =
    elim (Bool-cases (is_some (find_quality n t.multi_sample_quality))) [
      | inl e ↦ rw e (l, f, r, e, b)
      | inr e ↦ rw e (l, f, r, k, b)
    ]
stage-IsStaged (set_current_primary_display_mode m) t s c v =
    elim (Option-cases (find_mode m t.primary_display_modes)) [
      | inl e ↦ rw e v
      | inr (n, e) ↦ rw e v
    ]
stage-IsStaged (set_window_size size) t s c v = v
stage-IsStaged (set_hdr_enabled b) t s c v = v
stage-IsStaged (set_window_aspect_lock b) t s c v = v
stage-IsStaged (set_low_latency_mode m) t s c (l, f, r, k, b) =
    elim (Bool-cases (has_mode m t.support.low_latency_modes)) [
      | inl e ↦ rw e (e, f, r, k, b)
      | inr e ↦ rw e (l, f, r, k, b)
    ]
stage-IsStaged (set_frame_generation n) t s c (l, f, r, k, b) =
    elim (Bool-cases (ltb t.support.max_generated_frames n)) [
      | inl e ↦ rw e (l, f, r, k, b)
      | inr e ↦ rw e (l, ground (arith, e), r, k, b)
    ]
stage-IsStaged (set_ray_tracing x) t s c (l, f, r, k, b) =
    elim (Bool-cases (x && not t.support.ray_tracing)) [
      | inl e ↦ rw e (l, f, r, k, b)
      | inr e ↦ rw e (l, f, e, k, b)
    ]
stage-IsStaged cancel t s c v = v

-- The settings of the moments at which a client sets something are of a device with the same support and the
-- same multisample levels.
abbrev IsSameDevice : Settings → Settings → Type 0
IsSameDevice s t = (t.support ≡ s.support) × (t.multi_sample_quality ≡ s.multi_sample_quality)

abbrev pub AreOfDevice : Settings → List (Request × Settings) → Type 0
AreOfDevice s [] = Unit
AreOfDevice s ((r, t) ∷ rest) = IsSameDevice s t × AreOfDevice s rest

IsStaged-device :
    (t u s : Settings) (c : Change) → IsSameDevice u t → IsStaged t s c → IsStaged u s c
IsStaged-device t u s c (supports, levels) (l, f, r, k, b) = (
  subst (λ x. has_mode (or_old c.low_latency_mode s.low_latency_mode) x.low_latency_modes ≡ true)
      supports l,
  subst (λ x. or_old c.frame_generation s.frame_generation ≤ x.max_generated_frames) supports f,
  subst (λ x. (or_old c.ray_tracing s.ray_tracing && not x.ray_tracing) ≡ false) supports r,
  subst
      (λ x.
        is_some (find_quality (or_old c.current_multi_sample_level s.current_multi_sample_level) x)
        ≡ true)
      levels k,
  subst
      (λ x.
        is_some (
          find_quality (or_old c.back_buffer_multi_sample_level s.back_buffer_multi_sample_level) x)
        ≡ true)
      levels b,
)

stage_each-IsStaged :
    (rs : List (Request × Settings)) (s : Settings) (c : Change)
    → AreOfDevice s rs
    → IsStaged s s c
    → IsStaged s s (stage_each rs c)
unfolding stage_each
stage_each-IsStaged [] s c same v = v
stage_each-IsStaged ((r, t) ∷ rs) s c ((supports, levels), same) v =
    let there = IsStaged-device s t s c (sym supports, sym levels) v in
    stage_each-IsStaged rs s (stage r t c).0 same
      (IsStaged-device t s s (stage r t c).0 (supports, levels) (stage-IsStaged r t s c there))

IsStaged-commit :
    (c : Change) (s : Settings)
    → IsWithin s
    → HasLevels s
    → IsStaged s s c
    → IsWithin (commit c s) × HasLevels (commit c s)
unfolding commit
IsStaged-commit c s w h (l, f, t, k, b) = elim (Bool-cases c.cancelled) [
  | inl e ↦ rw e (w, h)
  | inr e ↦ rw e ((l, f, t), (k, b))
]

-- Whatever a client sets on a change, accepted or refused or cancelled, and however the settings change
-- between what it sets and until the change is applied, applying it keeps the features within the support and
-- the multisample levels among the device's, if the settings were so before it is applied, and the support and
-- the levels are the same then as whenever the client has set something.
pub commit-IsWithin :
    (rs : List (Request × Settings)) (s : Settings)
    → AreOfDevice s rs
    → IsWithin s
    → HasLevels s
    → IsWithin (commit (stage_each rs no_change) s) × HasLevels (commit (stage_each rs no_change) s)
commit-IsWithin rs s same (l, f, t) (k, b) =
    IsStaged-commit (stage_each rs no_change) s (l, f, t) (k, b)
      (stage_each-IsStaged rs s no_change same (l, f, t, k, b))

-- If the support shrinks between the two, it is not: a number of generated frames that was supported
-- when it was set is applied although the new support has a lower maximum.
commit_stale_frames :
    (s : Settings) (new : GraphicsSupport) (n : ℕ)
    → n ≤ s.support.max_generated_frames
    → new.max_generated_frames < n
    → let t = commit (stage (set_frame_generation n) s no_change).0 (set_graphics_support new s) in
      t.support.max_generated_frames < t.frame_generation
unfolding stage set_graphics_support commit
commit_stale_frames s new n le lt = ground (arith, lt→ltb s.support.max_generated_frames n)

-- A multisample level that was set before the device became a Direct3D 12 one is applied after it, and
-- the swap chain is then asked for that level with the quality 2 ^ 32 - 1.
commit_stale_level :
    (s : Settings) (n : ℕ) (w : ℕ × ℕ)
    → is_some (find_quality n s.multi_sample_quality) ≡ true
    → n ≢ 1
    → let t = commit (stage (set_back_buffer_multi_sample_level n) s no_change).0 (init_d3d12 s) in
      ((swap_chain_desc w t).sample_count ≡ n) × ((swap_chain_desc w t).sample_quality ≡ 2 ^ 32 - 1)
unfolding stage init_d3d12 commit swap_chain_desc
commit_stale_level s n w h ne = (ground (arith, h), ground (arith, h))
