-- ===== src/Render/Displays/Merging.antt =====
-- What the display modes are that MGDFApp::RTOnDisplayChange hands on.
use mgdf.RenderSettings.{DisplayMode}
use mgdf.Render.Displays.{
  Mode, is_offered, Key, key_of, less_key, same_key, Screen, is_hdr, new_mode, merge, merge_all,
  values, display_modes,
}
use mathlib.Core.Path.{subst₂}
use mgdf.Prelude.{
  ◌≡◌, refl, sym, ap, ◌∙◌, inl, inr, Bool, true, false, Option, none, some, List, [], ◌∷◌, arith,
  if◌then◌else◌, Bool-cases, if_cases, keep,
}

abbrev key_of_display : DisplayMode → Key
key_of_display d = record {
  width = d.width;
  height = d.height;
  numerator = d.rate_numerator;
  denominator = d.rate_denominator;
}

-- The display modes are in the strict order of their sizes and rates.
abbrev pub AreIncreasing : List DisplayMode → Type 0
AreIncreasing [] = Unit
AreIncreasing (d ∷ []) = Unit
AreIncreasing (d ∷ e ∷ rest) =
    (less_key (key_of_display d) (key_of_display e) ≡ true) × AreIncreasing (e ∷ rest)

-- The first display mode of a size and rate.
abbrev pub shown : Key → List DisplayMode → Option DisplayMode
shown j [] = none
shown j (d ∷ rest) = if same_key (key_of_display d) j then some d else shown j rest

-- What a mode adds to what is known of its size and rate.
abbrev join : Screen → Mode → Option DisplayMode → DisplayMode
join s m none = new_mode s m
join s m (some d) = if is_hdr s m then record d { supports_hdr = true } else d

-- What the modes of a size and rate say together: the first of them, with HDR if any of them has it.
abbrev pub together : Screen → Key → Option DisplayMode → List Mode → Option DisplayMode
together s j known [] = known
together s j known (m ∷ rest) =
    together s j (if same_key (key_of m) j then some (join s m known) else known) rest

-- The entries come after a key, in the strict order of theirs, and each has the mode of its key.
abbrev AreAfter : Key → List (Key × DisplayMode) → Type 0
AreAfter j [] = Unit
AreAfter j ((k, d) ∷ rest) = (less_key j k ≡ true) × (key_of_display d ≡ k) × AreAfter k rest

abbrev AreSorted : List (Key × DisplayMode) → Type 0
AreSorted [] = Unit
AreSorted ((k, d) ∷ rest) = (key_of_display d ≡ k) × AreAfter k rest

abbrev entry : Key → List (Key × DisplayMode) → Option DisplayMode
entry j [] = none
entry j ((k, d) ∷ rest) = if same_key k j then some d else entry j rest

less_key_trans : (j k l : Key) → less_key j k ≡ true → less_key k l ≡ true → less_key j l ≡ true
unfolding less_key
less_key_trans j k l h g = ground (arith, h, g)

less_key_total : (j k : Key) → same_key j k ≡ false → less_key k j ≡ false → less_key j k ≡ true
unfolding less_key
less_key_total j k h g = ground (arith, h, g)

less_key_differ : (j k : Key) → less_key j k ≡ true → same_key k j ≡ false
unfolding less_key
less_key_differ j k h = ground (arith, h)

same_key_agree : (j k l : Key) → same_key k l ≡ true → same_key k j ≡ same_key l j
same_key_agree j k l h = ground (arith, h)

same_key_apart : (j k l : Key) → same_key k l ≡ false → same_key k j ≡ true → same_key l j ≡ false
same_key_apart j k l h g = ground (arith, h, g)

less_key_agree : (i j k : Key) → same_key i j ≡ true → less_key i k ≡ true → less_key j k ≡ true
unfolding less_key
less_key_agree i j k h g = ground (arith, h, g)

AreAfter-earlier :
    (i j : Key) (es : List (Key × DisplayMode))
    → less_key i j ≡ true
    → AreAfter j es
    → AreAfter i es
AreAfter-earlier i j [] h v = tt
AreAfter-earlier i j ((k, d) ∷ rest) h (less, named, after) =
    (less_key_trans i j k h less, named, after)

entry_after : (j : Key) (es : List (Key × DisplayMode)) → AreAfter j es → entry j es ≡ none
entry_after j [] v = refl
entry_after j ((k, d) ∷ rest) (less, named, after) =
    rw (less_key_differ j k less) (entry_after j rest (AreAfter-earlier j k rest less after))

found_named :
    (s : Screen) (m : Mode) (d : DisplayMode)
    → key_of_display (join s m (some d)) ≡ key_of_display d
found_named s m d =
    if_cases (λ (x : DisplayMode). key_of_display x ≡ key_of_display d) (is_hdr s m) _ d (λ _. refl)
      (λ _. refl)

merge-AreAfter :
    (s : Screen) (m : Mode) (j : Key) (es : List (Key × DisplayMode))
    → less_key j (key_of m) ≡ true
    → AreAfter j es
    → AreAfter j (merge s m es)
unfolding merge
merge-AreAfter s m j [] h v = (h, refl, tt)
merge-AreAfter s m j ((k, d) ∷ rest) h (less, named, after) =
    if_cases (AreAfter j) (same_key k (key_of m)) ((k, join s m (some d)) ∷ rest) _
      (λ _. (less, found_named s m d ∙ named, after))
      (λ differ.
        if_cases (AreAfter j) (less_key (key_of m) k) ((key_of m, new_mode s m) ∷ (k, d) ∷ rest)
          ((k, d) ∷ merge s m rest) (λ first. (h, refl, (first, named, after)))
          (λ not_first. (
            less,
            named,
            merge-AreAfter s m k rest (less_key_total k (key_of m) differ not_first) after,
          )))

merge-AreSorted :
    (s : Screen) (m : Mode) (es : List (Key × DisplayMode))
    → AreSorted es
    → AreSorted (merge s m es)
unfolding merge
merge-AreSorted s m [] v = (refl, tt)
merge-AreSorted s m ((k, d) ∷ rest) (named, after) =
    if_cases AreSorted (same_key k (key_of m)) ((k, join s m (some d)) ∷ rest) _
      (λ _. (found_named s m d ∙ named, after))
      (λ differ.
        if_cases AreSorted (less_key (key_of m) k) ((key_of m, new_mode s m) ∷ (k, d) ∷ rest)
          ((k, d) ∷ merge s m rest) (λ first. (refl, (first, named, after)))
          (λ not_first. (
            named,
            merge-AreAfter s m k rest (less_key_total k (key_of m) differ not_first) after,
          )))

abbrev merged_entry : Screen → Mode → Key → Option DisplayMode → Option DisplayMode
merged_entry s m j known = if same_key (key_of m) j then some (join s m known) else known

AreAfter-AreSorted : (j : Key) (es : List (Key × DisplayMode)) → AreAfter j es → AreSorted es
AreAfter-AreSorted j [] v = tt
AreAfter-AreSorted j ((k, d) ∷ rest) (less, named, after) = (named, after)

merged_found :
    (s : Screen) (m : Mode) (d : DisplayMode) (same : Bool) (known : Option DisplayMode)
    → (if same then some (join s m (some d)) else known) ≡ (
        if same
        then some (join s m (if same then some d else known))
        else (if same then some d else known))
merged_found s m d true known = refl
merged_found s m d false known = refl

merge-entry :
    (s : Screen) (m : Mode) (j : Key) (es : List (Key × DisplayMode))
    → AreSorted es
    → entry j (merge s m es) ≡ merged_entry s m j (entry j es)
unfolding merge
merge-entry s m j [] v = refl
merge-entry s m j ((k, d) ∷ rest) (named, after) =
    let Joined = λ (es : List (Key × DisplayMode)).
      entry j es ≡ merged_entry s m j (entry j ((k, d) ∷ rest)) in
    if_cases Joined (same_key k (key_of m)) ((k, join s m (some d)) ∷ rest) _
      (λ same.
        rw (same_key_agree j k (key_of m) same)
          (merged_found s m d (same_key (key_of m) j) (entry j rest)))
      (λ differ.
        if_cases Joined (less_key (key_of m) k) ((key_of m, new_mode s m) ∷ (k, d) ∷ rest)
          ((k, d) ∷ merge s m rest)
          (λ first. elim (Bool-cases (same_key (key_of m) j)) [
            | inl here ↦
                let later : less_key j k ≡ true = less_key_agree (key_of m) j k here first in
                let unknown : entry j ((k, d) ∷ rest) ≡ none =
                  entry_after j ((k, d) ∷ rest) (later, named, after) in
                rw (unknown, here) refl
            | inr apart ↦ rw apart refl
          ])
          (λ not_first. elim (Bool-cases (same_key k j)) [
            | inl here ↦ rw (here, same_key_apart j k (key_of m) differ here) refl
            | inr apart ↦ rw apart (merge-entry s m j rest (AreAfter-AreSorted k rest after))
          ]))

merge_all-AreSorted :
    (s : Screen) (ms : List Mode) (es : List (Key × DisplayMode))
    → AreSorted es
    → AreSorted (merge_all s ms es)
unfolding merge_all
merge_all-AreSorted s [] es v = v
merge_all-AreSorted s (m ∷ ms) es v =
    merge_all-AreSorted s ms (merge s m es) (merge-AreSorted s m es v)

merge_all-entry :
    (s : Screen) (ms : List Mode) (j : Key) (es : List (Key × DisplayMode))
    → AreSorted es
    → entry j (merge_all s ms es) ≡ together s j (entry j es) ms
unfolding merge_all
merge_all-entry s [] j es v = refl
merge_all-entry s (m ∷ ms) j es v =
    merge_all-entry s ms j (merge s m es) (merge-AreSorted s m es v)
    ∙ ap (λ (known : Option DisplayMode). together s j known ms) (merge-entry s m j es v)

shown-values :
    (j : Key) (es : List (Key × DisplayMode)) → AreSorted es → shown j (values es) ≡ entry j es
unfolding values
shown-values j [] v = refl
shown-values j ((k, d) ∷ rest) (named, after) =
    let same = ap (λ (x : Key). same_key x j) named in
    let later = shown-values j rest (AreAfter-AreSorted k rest after) in
    ap (λ (b : Bool). if b then some d else shown j (values rest)) same
    ∙ ap (λ (o : Option DisplayMode). if same_key k j then some d else o) later

values-AreIncreasing : (es : List (Key × DisplayMode)) → AreSorted es → AreIncreasing (values es)
unfolding values
values-AreIncreasing [] v = tt
values-AreIncreasing ((k, d) ∷ []) v = tt
values-AreIncreasing ((k, d) ∷ (l, e) ∷ rest) (named, (less, named_next, after)) = (
  subst₂ (λ (x y : Key). less_key x y ≡ true) (sym named) (sym named_next) less,
  values-AreIncreasing ((l, e) ∷ rest) (named_next, after),
)

-- The display modes are in the strict order of size and rate, so that none comes twice; and each size and
-- rate has what the modes of it that the output offers make together, which is the first of them, with HDR if
-- one of them has the format of HDR, and none if there are none.
pub display_modes-together :
    (s : Screen) (modes : List Mode)
    → AreIncreasing (display_modes s modes)
      × ((j : Key) → shown j (display_modes s modes) ≡ together s j none (keep is_offered modes))
unfolding display_modes
display_modes-together s modes =
    let es = merge_all s (keep is_offered modes) [] in
    let sorted : AreSorted es = merge_all-AreSorted s (keep is_offered modes) [] tt in
    (
      values-AreIncreasing es sorted,
      λ j. shown-values j es sorted ∙ merge_all-entry s (keep is_offered modes) j [] tt,
    )
