-- ===== src/RenderSettings/Preferences/Shown.antt =====
-- The display mode that LoadPreferences takes is one of the output's modes, so that it can be logged when
-- no mode has a refresh rate with denominator 0.
use mgdf.RenderSettings.{DisplayMode}
use mgdf.RenderSettings.Modes.{
  IsMember, IsSearched, first_mode, or_try, mode_from_dimensions, mode_from_dimensions-IsSearched,
  best_alternative,
}
use mgdf.RenderSettings.Preferences.{is_shown, wanted_mode}
use mgdf.Prelude.{
  ℕ, ◌≡◌, refl, inl, inr, Bool, true, not, Option, none, some, List, [], ◌∷◌, arith, ◌==◌, all,
}

abbrev pub is_finite : DisplayMode → Bool
is_finite m = not (m.rate_denominator == 0)

-- Nothing, or a mode of the list.
abbrev IsOf : List DisplayMode → Option DisplayMode → Type 0
IsOf ms none = Unit
IsOf ms (some m) = IsMember m ms

searched-IsOf :
    (w h : ℕ) (ms : List DisplayMode) (r : Option DisplayMode) → IsSearched w h ms r → IsOf ms r
searched-IsOf w h ms none p = tt
searched-IsOf w h ms (some m) (p, q) = p

or_try-IsOf :
    (ms : List DisplayMode) (a b : Option DisplayMode)
    → IsOf ms a
    → IsOf ms b
    → IsOf ms (or_try a b)
or_try-IsOf ms none b p q = q
or_try-IsOf ms (some m) b p q = p

first_mode-IsOf : (ms : List DisplayMode) → IsOf ms (first_mode ms)
first_mode-IsOf [] = tt
first_mode-IsOf (m ∷ ms) = inl refl

mode_from_dimensions-IsOf :
    (w h : ℕ) (ms : List DisplayMode) → IsOf ms (mode_from_dimensions w h ms)
mode_from_dimensions-IsOf w h ms =
    searched-IsOf w h ms (mode_from_dimensions w h ms) (mode_from_dimensions-IsSearched w h ms)

best_alternative-IsOf :
    (native : ℕ × ℕ) (ms : List DisplayMode) → IsOf ms (best_alternative native ms)
unfolding best_alternative
best_alternative-IsOf (w, h) ms =
    or_try-IsOf ms (mode_from_dimensions w h ms)
      (or_try (mode_from_dimensions 1024 768 ms) (first_mode ms)) (mode_from_dimensions-IsOf w h ms)
      (or_try-IsOf ms (mode_from_dimensions 1024 768 ms) (first_mode ms)
        (mode_from_dimensions-IsOf 1024 768 ms) (first_mode-IsOf ms))

wanted_mode-IsOf : (x y : Option ℕ) (ms : List DisplayMode) → IsOf ms (wanted_mode x y ms)
unfolding wanted_mode
wanted_mode-IsOf none y ms = tt
wanted_mode-IsOf (some x) none ms = tt
wanted_mode-IsOf (some x) (some y) ms = mode_from_dimensions-IsOf x y ms

member-is_finite :
    (m : DisplayMode) (ms : List DisplayMode)
    → all is_finite ms ≡ true
    → IsMember m ms
    → is_finite m ≡ true
member-is_finite m [] a p = elim p [ ]
member-is_finite m (x ∷ xs) a (inl e) = ground (arith, e, a)
member-is_finite m (x ∷ xs) a (inr p) = member-is_finite m xs (ground (arith, a)) p

-- Nothing, or a mode that can be logged.
abbrev pub IsShown : Bool → Option DisplayMode → Type 0
IsShown logs none = Unit
IsShown logs (some m) = is_shown logs m ≡ true

of-IsShown :
    (logs : Bool) (ms : List DisplayMode) (r : Option DisplayMode)
    → all is_finite ms ≡ true
    → IsOf ms r
    → IsShown logs r
of-IsShown logs ms none a p = tt
of-IsShown logs ms (some m) a p = ground (arith, member-is_finite m ms a p)

pub best_alternative-IsShown :
    (logs : Bool) (native : ℕ × ℕ) (ms : List DisplayMode)
    → all is_finite ms ≡ true
    → IsShown logs (best_alternative native ms)
best_alternative-IsShown logs native ms a =
    of-IsShown logs ms (best_alternative native ms) a (best_alternative-IsOf native ms)

pub wanted_mode-IsShown :
    (logs : Bool) (x y : Option ℕ) (ms : List DisplayMode)
    → all is_finite ms ≡ true
    → IsShown logs (wanted_mode x y ms)
wanted_mode-IsShown logs x y ms a =
    of-IsShown logs ms (wanted_mode x y ms) a (wanted_mode-IsOf x y ms)
