-- ===== src/RenderSettings/Preferences/Clamp.antt =====
-- What loaded preferences are clamped to, and what they are not.
use mgdf.Prelude.Int.{pos}
use mgdf.RenderSettings.{Settings, DisplayMode, off, has_mode, find_quality, clamp_to_support}
use mgdf.RenderSettings.Modes.{mode_from_dimensions, best_alternative}
use mgdf.RenderSettings.Support.{IsWithin}
use mgdf.RenderSettings.SwapChain.{swap_chain_desc}
use mgdf.RenderSettings.Preferences.{
  Preferences, Written, load_plain, wanted_mode, set_mode, last_level, finish, load_preferences,
  screen_x_is, screen_y_is, is_shown,
}
use mgdf.RenderSettings.Preferences.Shown.{
  is_finite, IsShown, best_alternative-IsShown, wanted_mode-IsShown,
}
use mgdf.Prelude.{
  ℕ, ◌-◌, ◌^◌, ◌≤◌, ◌<◌, ◌≡◌, refl, ◌≢◌, inl, inr, true, Option, none, some, List, [], ◌∷◌, arith,
  Option-cases, Bool, Bool-cases, all,
}

-- A load that went well, with `top` as the last level of the device.
abbrev pub IsLoaded : ℕ → Option (Settings × List Written) → Type 0
IsLoaded top none = ⊥
IsLoaded top (some (t, written)) =
    IsWithin t × (t.current_multi_sample_level ≤ top) × (t.back_buffer_multi_sample_level ≤ top)

load_plain-IsWithin :
    (p : Preferences) (s : Settings)
    → has_mode off s.support.low_latency_modes ≡ true
    → IsWithin (load_plain p s)
      × ((load_plain p s).primary_display_modes ≡ s.primary_display_modes)
      × ((load_plain p s).multi_sample_levels ≡ s.multi_sample_levels)
unfolding load_plain clamp_to_support
load_plain-IsWithin p s h = ((ground arith, omega arith, ground arith), refl, refl)

finish-IsLoaded :
    (p : Preferences) (t : Settings) (w : List Written) (top : ℕ)
    → last_level t.multi_sample_levels ≡ some top
    → IsWithin t
    → IsLoaded top (finish p (some (t, w)))
unfolding finish
finish-IsLoaded p t w top e (a, b, c) = rw (finish, e) ((a, b, c), ground arith, ground arith)

set_mode-IsLoaded :
    (logs : Bool) (p : Preferences) (wanted alternative : Option DisplayMode) (t : Settings)
    (top : ℕ)
    → alternative ≢ none
    → IsShown logs wanted
    → IsShown logs alternative
    → last_level t.multi_sample_levels ≡ some top
    → IsWithin t
    → IsLoaded top (finish p (set_mode logs wanted alternative t))
unfolding set_mode
set_mode-IsLoaded logs p (some m) alternative t top n a b e v =
    rw a (finish-IsLoaded p (record t { primary_display_mode = m }) [] top e v)
set_mode-IsLoaded logs p none (some m) t top n a b e v = rw b (
    finish-IsLoaded p (record t { primary_display_mode = m })
      (screen_x_is m.width ∷ screen_y_is m.height ∷ []) top e v)
set_mode-IsLoaded logs p none none t top n a b e v = absurd (n refl)

best_alternative-some :
    (native : ℕ × ℕ) (m : DisplayMode) (ms : List DisplayMode)
    → best_alternative native (m ∷ ms) ≢ none
unfolding best_alternative
best_alternative-some (w, h) m ms = ground (
  arith,
  Option-cases (mode_from_dimensions w h (m ∷ ms)),
  Option-cases (mode_from_dimensions 1024 768 (m ∷ ms)),
)

-- Loading ends well, with what it logs and without, for a device with at least one multisample level that
-- supports the low latency mode 'off', and an output with at least one display mode, none of which has a
-- refresh rate with denominator 0, whatever the preferences hold: the features are within the support,
-- and both multisample levels are at most the last level of the device.
pub load_preferences-IsLoaded :
    (logs : Bool) (native : ℕ × ℕ) (p : Preferences) (s : Settings) (top : ℕ) (m : DisplayMode)
    (ms : List DisplayMode)
    → has_mode off s.support.low_latency_modes ≡ true
    → last_level s.multi_sample_levels ≡ some top
    → s.primary_display_modes ≡ m ∷ ms
    → all is_finite s.primary_display_modes ≡ true
    → IsLoaded top (load_preferences logs native p s)
unfolding load_preferences
load_preferences-IsLoaded logs native p s top m ms h e d f =
    let t = load_plain p s in
    let (within, modes, levels) = load_plain-IsWithin p s h in
    let some_mode : best_alternative native t.primary_display_modes ≢ none =
      rw (modes, d) (best_alternative-some native m ms) in
    let finite : all is_finite t.primary_display_modes ≡ true = rw modes f in
    set_mode-IsLoaded logs p (wanted_mode p.screen_x p.screen_y t.primary_display_modes)
      (best_alternative native t.primary_display_modes) t top some_mode
      (wanted_mode-IsShown logs p.screen_x p.screen_y t.primary_display_modes finite)
      (best_alternative-IsShown logs native t.primary_display_modes finite) (rw (levels, e) refl)
      within

-- The level that a load leaves, for a preference that is no higher than the last level.
Kept : ℕ → Settings → Option (Settings × List Written) → Type 0
Kept n s none = Unit
Kept n s (some (t, w)) =
    (t.back_buffer_multi_sample_level ≡ n) × (t.multi_sample_quality ≡ s.multi_sample_quality)

finish-Kept :
    (p : Preferences) (s t : Settings) (w : List Written) (top n : ℕ)
    → last_level t.multi_sample_levels ≡ some top
    → p.multisample_level ≡ some (pos n)
    → n ≤ top
    → n < 2 ^ 32
    → t.multi_sample_quality ≡ s.multi_sample_quality
    → Kept n s (finish p (some (t, w)))
unfolding finish Kept
finish-Kept p s t w top n e g le lt q = rw (finish, e) (ground arith, ground (arith, q))

set_mode-Kept :
    (logs : Bool) (p : Preferences) (wanted alternative : Option DisplayMode) (s t : Settings)
    (top n : ℕ)
    → last_level t.multi_sample_levels ≡ some top
    → p.multisample_level ≡ some (pos n)
    → n ≤ top
    → n < 2 ^ 32
    → t.multi_sample_quality ≡ s.multi_sample_quality
    → Kept n s (finish p (set_mode logs wanted alternative t))
unfolding set_mode Kept finish
set_mode-Kept logs p (some m) alternative s t top n e g le lt q =
    elim (Bool-cases (is_shown logs m)) [
      | inl c ↦ rw c (finish-Kept p s (record t { primary_display_mode = m }) [] top n e g le lt q)
      | inr c ↦ rw c tt
    ]
set_mode-Kept logs p none (some m) s t top n e g le lt q = elim (Bool-cases (is_shown logs m)) [
  | inl c ↦ rw c (
      finish-Kept p s (record t { primary_display_mode = m })
        (screen_x_is m.width ∷ screen_y_is m.height ∷ []) top n e g le lt q)
  | inr c ↦ rw c tt
]
set_mode-Kept logs p none none s t top n e g le lt q = tt

load_preferences-Kept :
    (logs : Bool) (native : ℕ × ℕ) (p : Preferences) (s : Settings) (top n : ℕ)
    → last_level s.multi_sample_levels ≡ some top
    → p.multisample_level ≡ some (pos n)
    → n ≤ top
    → n < 2 ^ 32
    → Kept n s (load_preferences logs native p s)
unfolding load_preferences load_plain clamp_to_support
load_preferences-Kept logs native p s top n e g le lt =
    let t = load_plain p s in
    set_mode-Kept logs p (wanted_mode p.screen_x p.screen_y t.primary_display_modes)
      (best_alternative native t.primary_display_modes) s t top n e g le lt refl

-- A preference that is not above the last level is kept although the device may not support it: the
-- swap chain is then asked for that level with the quality 2 ^ 32 - 1.
load_preferences_unsupported :
    (logs : Bool) (native window : ℕ × ℕ) (p : Preferences) (s t : Settings) (w : List Written)
    (top n : ℕ)
    → load_preferences logs native p s ≡ some (t, w)
    → last_level s.multi_sample_levels ≡ some top
    → p.multisample_level ≡ some (pos n)
    → n ≤ top
    → n < 2 ^ 32
    → find_quality n s.multi_sample_quality ≡ none
    → ((swap_chain_desc window t).sample_count ≡ n)
      × ((swap_chain_desc window t).sample_quality ≡ 2 ^ 32 - 1)
unfolding swap_chain_desc Kept
load_preferences_unsupported logs native window p s t w top n r e g le lt f =
    let k : Kept n s (some (t, w)) =
      rw r at (load_preferences-Kept logs native p s top n e g le lt) in
    (k.0, ground (arith, k.0, k.1))
