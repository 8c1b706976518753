-- ===== src/Audio/Sources.antt =====
-- OpenALSoundSystem of src/core/audio/openal/OpenALSoundSystem.cpp: the pool of sources. What OpenAL
-- gives for each `alGenSources` is an argument, `none` for an error.
use mgdf.Prelude.Count.{count}
use mgdf.Prelude.{
  ℕ, suc, ◌+◌, ◌≤◌, ◌<◌, ◌≡◌, refl, inl, inr, Bool, true, ◌||◌, Option, none, some, List, [], ◌∷◌,
  arith, ltb, ◌==◌, ==_refl, if◌then◌else◌, Bool-cases, length, any, null,
}

-- `_freeSources`, a stack, and `_allocatedSources`, a set.
pub record Sources : Type 0 where
  pub free : List ℕ
  pub allocated : List ℕ

-- MAX_SOURCES.
abbrev max_sources : ℕ
max_sources = 256

-- The loop of `Init`, on the results of the calls in turn; the result `none` is E_FAIL.
generate : List (Option ℕ) → List ℕ → List ℕ
generate [] free = free
generate (none ∷ rest) free = free
generate (some source ∷ rest) free =
    let more = generate rest (source ∷ free) in
    if ltb (suc (length free)) max_sources then more else source ∷ free

init : List (Option ℕ) → Option Sources
unfolding generate
init results =
    let free = generate results [] in
    if null free then none else some (record { free = free; allocated = [] })

acquire_top : List ℕ → List ℕ → Option (ℕ × Sources)
acquire_top [] allocated = none
acquire_top (source ∷ free) allocated =
    some (source, record { free = free; allocated = source ∷ allocated })

-- `none` is E_FAIL, which changes nothing.
unfoldable pub acquire : Sources → Option (ℕ × Sources)
unfolding acquire_top
acquire s = acquire_top s.free s.allocated

pub erase : ℕ → List ℕ → List ℕ
erase x [] = []
erase x (y ∷ ys) = if y == x then ys else y ∷ erase x ys

abbrev pub holds : ℕ → List ℕ → Bool
holds x xs = any (λ y. y == x) xs

unfoldable pub release : ℕ → Sources → Sources
unfolding erase
release source s =
    if holds source s.allocated
    then record { free = source ∷ s.free; allocated = erase source s.allocated }
    else s

-- How often a source is in the pool.
abbrev pub copies : ℕ → Sources → ℕ
copies x s = count x s.free + count x s.allocated

pub holds-count : (x : ℕ) (xs : List ℕ) → holds x xs ≡ ltb 0 (count x xs)
holds-count x [] = refl
holds-count x (y ∷ ys) = ground (arith, holds-count x ys)

pub count-erase :
    (x y : ℕ) (ys : List ℕ)
    → holds x ys ≡ true
    → count y (erase x ys) + (if x == y then 1 else 0) ≡ count y ys
unfolding erase
count-erase x y (z ∷ ys) h = ground (arith, count-erase x y ys)
count-erase x y [] h = ground arith

acquire_top-copies :
    (free allocated : List ℕ) (t : Sources) (x y : ℕ)
    → acquire_top free allocated ≡ some (x, t)
    → copies y t ≡ count y free + count y allocated
unfolding acquire_top
acquire_top-copies [] allocated t x y h = absurd (ground arith)
acquire_top-copies (z ∷ zs) allocated t x y h = ground arith

-- Acquiring a source neither makes nor loses one: each is in the pool as often as before.
pub copies-acquire : (s t : Sources) (x y : ℕ) → acquire s ≡ some (x, t) → copies y t ≡ copies y s
unfolding acquire
copies-acquire s t x y h = acquire_top-copies s.free s.allocated t x y h

pub copies-release : (s : Sources) (x y : ℕ) → copies y (release x s) ≡ copies y s
unfolding release
copies-release s x y = elim (Bool-cases (holds x s.allocated)) [
  | inl e ↦ ground (arith, e, count-erase x y s.allocated)
  | inr e ↦ ground (arith, e)
]

-- The sources are never more than 256.
generate-bound :
    (rs : List (Option ℕ)) (free : List ℕ) → length free < 256 → length (generate rs free) ≤ 256
unfolding generate
generate-bound [] free h = omega arith
generate-bound (none ∷ rs) free h = omega arith
generate-bound (some x ∷ rs) free h = ground (arith, generate-bound rs (x ∷ free))

acquire_top-allocated :
    (free allocated : List ℕ) (t : Sources) (x y : ℕ)
    → acquire_top free allocated ≡ some (x, t)
    → (holds y t.allocated ≡ ((x == y) || holds y allocated)) × (0 < count x free)
unfolding acquire_top
acquire_top-allocated [] allocated t x y h = absurd (ground arith)
acquire_top-allocated (z ∷ zs) allocated t x y h = ground arith

-- What is acquired was free; it is allocated then, next to what was allocated before.
pub acquire-allocated :
    (s t : Sources) (x y : ℕ)
    → acquire s ≡ some (x, t)
    → (holds y t.allocated ≡ ((x == y) || holds y s.allocated)) × (0 < count x s.free)
unfolding acquire
acquire-allocated s t x y h = acquire_top-allocated s.free s.allocated t x y h

release-acquire_top :
    (free allocated : List ℕ) (x : ℕ) (t : Sources)
    → acquire_top free allocated ≡ some (x, t)
    → release x t ≡ record { free = free; allocated = allocated }
unfolding acquire_top release erase
release-acquire_top [] allocated x t h = absurd (ground arith)
release-acquire_top (y ∷ free) allocated x t h = ground (arith, ==_refl y)

-- What was acquired last is given back, and the pool is as before.
pub release-acquire : (s t : Sources) (x : ℕ) → acquire s ≡ some (x, t) → release x t ≡ s
unfolding acquire
release-acquire s t x h = release-acquire_top s.free s.allocated x t h
