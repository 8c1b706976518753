-- ===== src/RenderSettings/Device.antt =====
-- InitFromDevice, InitD3D12 and Cleanup of src/core/core.impl/MGDFRenderSettingsManagerImpl.cpp: the
-- multisample levels. Direct3D is not part of the repository: `CheckMultisampleQualityLevels` is a
-- function of the format and the level, with `none` for a failed call.
use mgdf.RenderSettings.{Format, Settings, find_quality}
use mgdf.Prelude.{
  ℕ, zero, suc, ◌+◌, ◌-◌, min, ◌≡◌, refl, false, ◌&&◌, Option, none, some, List, [], ◌∷◌, ◌++◌,
  arith, ltb, leb, ◌==◌, if◌then◌else◌,
}

-- D3D11_MAX_MULTISAMPLE_SAMPLE_COUNT.
abbrev max_sample_count : ℕ
max_sample_count = 32

cleanup : Settings → Settings
cleanup s = record s { change_pending = false; multi_sample_levels = []; multi_sample_quality = [] }

module _ (check : Format → ℕ → Option ℕ) where
  -- The quality of a level, if both formats support it.
  both : Option ℕ → Option ℕ → Option ℕ
  both none hdr = none
  both (some q) none = none
  both (some q) (some h) = if min q h == 0 then none else some (min q h)

  pub quality_of : Format → Format → ℕ → Option ℕ
  unfolding both
  quality_of sdr hdr level = both (check sdr level) (check hdr level)

  push : ℕ → Option ℕ → Settings → Settings
  push i none s = s
  push i (some q) s = record s {
    multi_sample_levels = s.multi_sample_levels ++ i ∷ [];
    multi_sample_quality = s.multi_sample_quality ++ (i, q) ∷ [];
  }

  -- The loop, with its counter and the number of rounds that are left.
  probe : ℕ → ℕ → Settings → Settings
  unfolding push quality_of
  probe zero i s = s
  probe (suc n) i s =
      probe n (i + 1) (push i (quality_of s.sdr_back_buffer_format s.hdr_back_buffer_format i) s)

  pub init_from_device : Settings → Settings
  unfolding probe cleanup
  init_from_device s = probe (max_sample_count - 1) 1 (cleanup s)

unfoldable pub init_d3d12 : Settings → Settings
unfolding cleanup
init_d3d12 s = record (cleanup s) {
  multi_sample_levels = 1 ∷ [];
  multi_sample_quality = (1, 1) ∷ [];
  back_buffer_multi_sample_level = 1;
  current_multi_sample_level = 1;
}

-- What the levels found so far give for a level: the quality that the device reports for it.
probed : (Format → ℕ → Option ℕ) → Settings → ℕ → ℕ → ℕ → Option ℕ
probed check s i n level =
    if leb i level && ltb level (i + n)
    then quality_of check s.sdr_back_buffer_format s.hdr_back_buffer_format level
    else none

abbrev or_else : Option ℕ → Option ℕ → Option ℕ
or_else none b = b
or_else (some a) b = some a

find_quality-append :
    (level : ℕ) (xs ys : List (ℕ × ℕ))
    → find_quality level (xs ++ ys) ≡ or_else (find_quality level xs) (find_quality level ys)
find_quality-append level [] ys = refl
find_quality-append level ((l, q) ∷ xs) ys = ground (arith, find_quality-append level xs ys)

push-find :
    (check : Format → ℕ → Option ℕ) (i level : ℕ) (o : Option ℕ) (s : Settings)
    → find_quality level (push check i o s).multi_sample_quality
      ≡ or_else (find_quality level s.multi_sample_quality) (if i == level then o else none)
unfolding push
push-find check i level none s = ground arith
push-find check i level (some q) s =
    ground (arith, find_quality-append level s.multi_sample_quality ((i, q) ∷ []))

push-formats :
    (check : Format → ℕ → Option ℕ) (i : ℕ) (o : Option ℕ) (s : Settings)
    → ((push check i o s).sdr_back_buffer_format ≡ s.sdr_back_buffer_format)
      × ((push check i o s).hdr_back_buffer_format ≡ s.hdr_back_buffer_format)
unfolding push
push-formats check i none s = (refl, refl)
push-formats check i (some q) s = (refl, refl)

probe-find :
    (check : Format → ℕ → Option ℕ) (n i level : ℕ) (s : Settings)
    → find_quality level (probe check n i s).multi_sample_quality
      ≡ or_else (find_quality level s.multi_sample_quality) (probed check s i n level)
unfolding probe probed
probe-find check zero i level s = ground arith
probe-find check (suc n) i level s =
    let o = quality_of check s.sdr_back_buffer_format s.hdr_back_buffer_format i in
    let s' = push check i o s in
    let f = push-formats check i o s in
    ground (arith, probe-find check n (i + 1) level s', push-find check i level o s, f.0, f.1)

-- After the device is examined, whatever was known before, a level from 1 to 31 is supported exactly
-- when both back buffer formats support it, with the lower of the two qualities, and no other level is.
init_from_device-find :
    (check : Format → ℕ → Option ℕ) (level : ℕ) (s : Settings)
    → find_quality level (init_from_device check s).multi_sample_quality ≡ (
        if leb 1 level && ltb level 32
        then quality_of check s.sdr_back_buffer_format s.hdr_back_buffer_format level
        else none)
unfolding init_from_device probed cleanup
init_from_device-find check level s = ground (arith, probe-find check 31 1 level (cleanup s))
