-- ===== src/RenderSettings/Modes.antt =====
-- The display modes: GetPrimaryDisplayModeFromDimensions, GetBestAlternativeDisplayMode and
-- SetOutputProperties of src/core/core.impl/MGDFRenderSettingsManagerImpl.cpp. The quotients of refresh
-- rates, which the source compares as doubles, are compared exactly, infinite ones and 0 / 0 included; the
-- rounding of a quotient is not modelled.
use mgdf.RenderSettings.{DisplayMode, OutputInfo, Settings}
use mgdf.Prelude.{
  ℕ, ◌*◌, ◌≤◌, ◌<◌, ◌≡◌, refl, ◌≢◌, ◌⊎◌, inl, inr, Bool, true, false, not, ◌&&◌, ◌||◌, Option, none,
  some, List, [], ◌∷◌, arith, leb, ◌==◌, if◌then◌else◌, ==_refl, Bool-cases, any,
}

abbrev fits : ℕ → ℕ → DisplayMode → Bool
fits width height m = (m.width == width) && (m.height == height)

-- Whether the quotient n / d of doubles is not a number.
abbrev is_nan : ℕ → ℕ → Bool
is_nan n d = (n == 0) && (d == 0)

-- `a / b >= c / d` for doubles: 0 / 0 compares with nothing, and n / 0 is above all finite quotients.
abbrev quotient_ge : ℕ → ℕ → ℕ → ℕ → Bool
quotient_ge a b c d =
    if is_nan a b || is_nan c d
    then false
    else (if b == 0 then true else (if d == 0 then false else leb (c * b) (a * d)))

-- Whether `current` replaces the best mode so far: the source divides each numerator by the other
-- mode's denominator.
replaces : DisplayMode → DisplayMode → Bool
replaces best current =
    quotient_ge current.rate_numerator best.rate_denominator best.rate_numerator
      current.rate_denominator
    && (not best.supports_hdr || current.supports_hdr)

pick : Option DisplayMode → DisplayMode → Option DisplayMode
unfolding replaces
pick none current = some current
pick (some best) current = if replaces best current then some current else some best

best_mode : ℕ → ℕ → List DisplayMode → Option DisplayMode → Option DisplayMode
unfolding pick
best_mode width height [] best = best
best_mode width height (m ∷ ms) best =
    best_mode width height ms (if fits width height m then pick best m else best)

-- `none` is the result `false`.
pub mode_from_dimensions : ℕ → ℕ → List DisplayMode → Option DisplayMode
unfolding best_mode
mode_from_dimensions width height modes = best_mode width height modes none

-- `_primaryDisplayModes.at(0)`, which throws on no mode at all.
abbrev pub first_mode : List DisplayMode → Option DisplayMode
first_mode [] = none
first_mode (m ∷ ms) = some m

abbrev pub or_try : Option DisplayMode → Option DisplayMode → Option DisplayMode
or_try none b = b
or_try (some m) b = some m

-- The native size is what `GetSystemMetrics` reports; 1024 x 768 are the resources' minimum.
unfoldable pub best_alternative : ℕ × ℕ → List DisplayMode → Option DisplayMode
unfolding mode_from_dimensions
best_alternative (native_width, native_height) modes =
    or_try (mode_from_dimensions native_width native_height modes)
      (or_try (mode_from_dimensions 1024 768 modes) (first_mode modes))

-- Equal but for HDR.
abbrev matches : DisplayMode → DisplayMode → Bool
matches a b =
    (a.width == b.width)
    && ((a.height == b.height)
        && ((a.rate_numerator == b.rate_numerator) && (a.rate_denominator == b.rate_denominator)))

abbrev differ : Bool → Bool → Bool
differ true b = not b
differ false b = b

-- The loop of `SetOutputProperties`, up to its break.
unfoldable pub adopt_mode : List DisplayMode → Settings → Settings
adopt_mode [] s = s
adopt_mode (m ∷ ms) s =
    let rest = adopt_mode ms s in
    if matches m s.primary_display_mode
    then record s {
      change_pending =
          (s.full_screen.exclusive_mode
            && (s.full_screen.full_screen
                && differ m.supports_hdr s.primary_display_mode.supports_hdr))
          || s.change_pending;
      primary_display_mode = m;
    }
    else rest

unfoldable pub set_output_properties : OutputInfo → ℕ → List DisplayMode → Settings → Settings
unfolding adopt_mode
set_output_properties info dpi modes s =
    let white = not (s.current_output_display_info.sdr_white_level == info.sdr_white_level) in
    let t = adopt_mode modes (record s {
      change_pending = white || s.change_pending;
      current_output_display_info = info;
      primary_display_modes = modes;
    }) in
    record t {
      change_pending = not (t.current_output_dpi == dpi) || t.change_pending;
      current_output_dpi = dpi;
    }

abbrev pub IsMember : DisplayMode → List DisplayMode → Type 0
IsMember m [] = ⊥
IsMember m (x ∷ xs) = (x ≡ m) ⊎ IsMember m xs

-- What a search has found: a fitting mode of the list or the one it began with, or nothing to find.
abbrev IsFound : ℕ → ℕ → List DisplayMode → Option DisplayMode → Option DisplayMode → Type 0
IsFound w h modes best none = (best ≡ none) × (any (fits w h) modes ≡ false)
IsFound w h modes best (some m) = (best ≡ some m) ⊎ (IsMember m modes × (fits w h m ≡ true))

later :
    (w h : ℕ) (m : DisplayMode) (ms : List DisplayMode) (b c r : Option DisplayMode)
    → fits w h m ≡ true
    → (c ≡ some m) ⊎ ((c ≡ b) × (b ≢ none))
    → IsFound w h ms c r
    → IsFound w h (m ∷ ms) b r
later w h m ms b c none f e (p, q) = absurd (ground (arith, p))
later w h m ms b c (some x) f (inl e) (inl p) = inr (inl (ground (arith, p)), ground (arith, p))
later w h m ms b c (some x) f (inr (e, n)) (inl p) = inl (ground (arith, p))
later w h m ms b c (some x) f e (inr (p, q)) = inr (inr p, q)

skipped :
    (w h : ℕ) (m : DisplayMode) (ms : List DisplayMode) (b r : Option DisplayMode)
    → fits w h m ≡ false
    → IsFound w h ms b r
    → IsFound w h (m ∷ ms) b r
skipped w h m ms b none f (p, q) = (p, ground arith)
skipped w h m ms b (some x) f (inl p) = inl p
skipped w h m ms b (some x) f (inr (p, q)) = inr (inr p, q)

pick-cases :
    (b : Option DisplayMode) (m : DisplayMode) → (pick b m ≡ some m) ⊎ ((pick b m ≡ b) × (b ≢ none))
unfolding pick
pick-cases none m = inl refl
pick-cases (some x) m = elim (Bool-cases (replaces x m)) [
  | inl e ↦ inl (ground (arith, e))
  | inr e ↦ inr (ground (arith, e), ground arith)
]

best_mode-IsFound :
    (w h : ℕ) (ms : List DisplayMode) (b : Option DisplayMode)
    → IsFound w h ms b (best_mode w h ms b)
unfolding best_mode
best_mode-IsFound w h [] none = (refl, refl)
best_mode-IsFound w h [] (some m) = inl refl
best_mode-IsFound w h (m ∷ ms) b = elim (Bool-cases (fits w h m)) [
  | inl e ↦ rw e (
      later w h m ms b (pick b m) (best_mode w h ms (pick b m)) e (pick-cases b m)
        (best_mode-IsFound w h ms (pick b m)))
  | inr e ↦ rw e (skipped w h m ms b (best_mode w h ms b) e (best_mode-IsFound w h ms b))
]

-- The result of a search by dimensions: `none` only if no mode fits them, and otherwise a mode of the
-- list that does.
abbrev pub IsSearched : ℕ → ℕ → List DisplayMode → Option DisplayMode → Type 0
IsSearched w h modes none = any (fits w h) modes ≡ false
IsSearched w h modes (some m) = IsMember m modes × (fits w h m ≡ true)

searched :
    (w h : ℕ) (modes : List DisplayMode) (r : Option DisplayMode)
    → IsFound w h modes none r
    → IsSearched w h modes r
searched w h modes none (p, q) = q
searched w h modes (some m) (inl p) = absurd (ground arith)
searched w h modes (some m) (inr p) = p

-- A search by dimensions fails only if no mode has them, and otherwise gives a mode of the list that
-- has them.
pub mode_from_dimensions-IsSearched :
    (w h : ℕ) (modes : List DisplayMode) → IsSearched w h modes (mode_from_dimensions w h modes)
unfolding mode_from_dimensions
mode_from_dimensions-IsSearched w h modes =
    searched w h modes (best_mode w h modes none) (best_mode-IsFound w h modes none)

-- The comparison does not compare refresh rates: of a mode of r Hz, written r / 1, and a mode of fewer
-- Hz s, written s * k / k, the second and slower one is chosen as soon as s * k * k is at least r.
pub mode_from_dimensions_slower :
    (w h r s k : ℕ)
    → s < r
    → r ≤ s * k * k
    → let fast : DisplayMode = record {
      width = w;
      height = h;
      rate_numerator = r;
      rate_denominator = 1;
      supports_hdr = false;
      is_native_size = false;
    } in
      let slow : DisplayMode = record {
        width = w;
        height = h;
        rate_numerator = s * k;
        rate_denominator = k;
        supports_hdr = false;
        is_native_size = false;
      } in
      mode_from_dimensions w h (fast ∷ slow ∷ []) ≡ some slow
unfolding mode_from_dimensions
mode_from_dimensions_slower w h r s k lt le = ground (arith, ==_refl w, ==_refl h)
