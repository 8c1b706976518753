-- ===== src/Render/Displays.antt =====
-- The display modes that D3DAppFramework::RTCheckForDisplayChanges of src/core/MGDFD3DAppFramework.cpp reads from
-- the primary output and MGDFApp::RTOnDisplayChange of src/core/MGDFApp.cpp merges.
pub mod Merging
use mgdf.RenderSettings.{DisplayMode}
use mgdf.Prelude.{
  ℕ, zero, suc, ◌+◌, ◌-◌, ◌*◌, ◌/◌, ◌%◌, ◌^◌, ◌≤◌, ◌<◌, min, max, ◌≡◌, refl, sym, ap, ◌∙◌, ◌≢◌, ◌↔◌,
  ◌⊎◌, inl, inr, Bool, true, false, not, ◌&&◌, ◌||◌, Option, none, some, List, [], ◌∷◌, ◌++◌, map,
  append-nil, append_assoc, arith, ltb, leb, ◌==◌, if◌then◌else◌, ltb→lt, lt→ltb, ==_iff, ==_refl,
  Bool-cases, if_cases, Option-cases, length, get_elem?, take, drop, keep, any, all, null,
  length-append, length-take, length-drop, length-keep-le, keep-append, Text, codes, same_text,
  same_text_refl, same_text→eq, same_text_ne, find, insert, assign, find-insert, find-assign,
}

-- DXGI_MODE_DESC1. A format is a number.
pub record Mode : Type 0 where
  pub width : ℕ
  pub height : ℕ
  pub numerator : ℕ
  pub denominator : ℕ
  pub format : ℕ
  pub scaled : Bool
  pub stereo : Bool

-- Resources::MIN_SCREEN_X and MIN_SCREEN_Y.
abbrev min_screen_x : ℕ
min_screen_x = 1024

abbrev min_screen_y : ℕ
min_screen_y = 768

-- The modes that `RTCheckForDisplayChanges` does not erase.
pub is_offered : Mode → Bool
is_offered m =
    not (m.scaled || (m.stereo || (ltb m.width min_screen_x || ltb m.height min_screen_y)))

-- The tuple that is the key of `uniqueModes`, and `operator<` on it.
pub record Key : Type 0 where
  pub width : ℕ
  pub height : ℕ
  pub numerator : ℕ
  pub denominator : ℕ

abbrev key_of : Mode → Key
key_of m = record {
  width = m.width;
  height = m.height;
  numerator = m.numerator;
  denominator = m.denominator;
}

abbrev then_by : ℕ → ℕ → Bool → Bool
then_by a b rest = ltb a b || ((a == b) && rest)

pub less_key : Key → Key → Bool
less_key k j =
    then_by k.width j.width (
      then_by k.height j.height (then_by k.numerator j.numerator (ltb k.denominator j.denominator)))

abbrev same_key : Key → Key → Bool
same_key k j =
    (k.width == j.width)
    && ((k.height == j.height)
        && ((k.numerator == j.numerator) && (k.denominator == j.denominator)))

-- What `RTOnDisplayChange` compares with: the size of the screen and the format of HDR.
pub record Screen : Type 0 where
  pub native_width : ℕ
  pub native_height : ℕ
  pub hdr_format : ℕ

abbrev is_hdr : Screen → Mode → Bool
is_hdr s m = m.format == s.hdr_format

abbrev new_mode : Screen → Mode → DisplayMode
new_mode s m = record {
  width = m.width;
  height = m.height;
  rate_numerator = m.numerator;
  rate_denominator = m.denominator;
  supports_hdr = is_hdr s m;
  is_native_size = (m.width == s.native_width) && (m.height == s.native_height);
}

-- A round of the loop on the map, which is the list of its entries in the order of the keys.
merge : Screen → Mode → List (Key × DisplayMode) → List (Key × DisplayMode)
unfolding less_key
merge s m [] = (key_of m, new_mode s m) ∷ []
merge s m ((k, d) ∷ rest) =
    let found = if is_hdr s m then record d { supports_hdr = true } else d in
    let later = merge s m rest in
    if same_key k (key_of m)
    then (k, found) ∷ rest
    else if less_key (key_of m) k
    then (key_of m, new_mode s m) ∷ (k, d) ∷ rest
    else (k, d) ∷ later

merge_all : Screen → List Mode → List (Key × DisplayMode) → List (Key × DisplayMode)
unfolding merge
merge_all s [] modes = modes
merge_all s (m ∷ rest) modes = merge_all s rest (merge s m modes)

values : List (Key × DisplayMode) → List DisplayMode
values [] = []
values ((k, d) ∷ rest) = d ∷ values rest

-- The display modes of an output's modes.
pub display_modes : Screen → List Mode → List DisplayMode
unfolding merge_all values is_offered
display_modes s modes = values (merge_all s (keep is_offered modes) [])
