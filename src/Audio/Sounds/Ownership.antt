-- ===== src/Audio/Sounds/Ownership.antt =====
-- Who holds which source.
use mgdf.Audio.Sources.{
  Sources, acquire, release, erase, copies, holds, holds-count, copies-acquire, copies-release,
  count-erase, acquire-allocated,
}
use mgdf.Audio.Sounds.{Mixer, update, deactivate, with_source, reactivate}
use mgdf.Prelude.{
  ℕ, ◌≤◌, ◌≡◌, refl, ◌≢◌, inl, inr, Bool, true, false, some, arith, ◌==◌, ==_refl, Bool-cases,
  Option-cases,
}

-- No source is in the pool twice; an active sound holds an allocated source; and no two do the same one.
pub record Owned (m : Mixer) : Type 0 where
  pub single : (x : ℕ) → copies x m.sources ≤ 1
  pub held :
      (i : ℕ)
      → (m.sounds i).is_active ≡ true
      → holds (m.sounds i).source_id m.sources.allocated ≡ true
  pub apart :
      (i j : ℕ)
      → (m.sounds i).is_active ≡ true
      → (m.sounds j).is_active ≡ true
      → (m.sounds i).source_id ≡ (m.sounds j).source_id
      → i ≡ j

count-release :
    (s : Sources) (x y : ℕ) → x ≢ y → holds y (release x s).allocated ≡ holds y s.allocated
unfolding release
count-release s x y n = elim (Bool-cases (holds x s.allocated)) [
  | inl e ↦ ground (
    arith,
    e,
    count-erase x y s.allocated,
    holds-count y s.allocated,
    holds-count y (erase x s.allocated),
  )
  | inr e ↦ ground (arith, e)
]

-- A sound that lets its source go keeps the others' sources theirs.
pub deactivate-Owned :
    (playing : Bool) (i : ℕ) (m : Mixer) → Owned m → Owned (deactivate playing i m)
unfolding deactivate
deactivate-Owned playing i m v = elim (Bool-cases (m.sounds i).is_active) [
  | inr e ↦ rw e v
  | inl e ↦ rw e (record {
    single = λ x. ground (arith, copies-release m.sources (m.sounds i).source_id x, v.single x);
    held = λ j a. ground (
      arith,
      count-release m.sources (m.sounds i).source_id (m.sounds j).source_id,
      v.held j,
      v.apart i j,
      e,
    );
    apart = λ j k a b c. ground (arith, v.apart j k);
  })
]

with_source-Owned :
    (i x : ℕ) (t : Sources) (m : Mixer)
    → acquire m.sources ≡ some (x, t)
    → (m.sounds i).is_active ≡ false
    → Owned m
    → Owned (with_source true i m (some (x, t)))
unfolding with_source
with_source-Owned i x t m h e v = record {
  single = λ y. ground (arith, copies-acquire m.sources t x y h, v.single y);
  held = λ j a. ground (
    arith,
    acquire-allocated m.sources t x x h,
    acquire-allocated m.sources t x (m.sounds j).source_id h,
    v.held j,
  );
  apart = λ j k a b c. ground (
    arith,
    v.apart j k,
    v.held j,
    v.held k,
    v.single x,
    acquire-allocated m.sources t x x h,
    holds-count x m.sources.allocated,
  );
}

refused :
    (i x : ℕ) (t : Sources) (m : Mixer)
    → (m.sounds i).is_active ≡ false
    → with_source false i m (some (x, t))
      ≡ record { sources = t; sounds = update m.sounds i (record (m.sounds i) { source_id = x }) }
unfolding with_source deactivate
refused i x t m e = ground (arith, e, ==_refl i)

refused-Owned :
    (i x : ℕ) (t : Sources) (m : Mixer)
    → acquire m.sources ≡ some (x, t)
    → (m.sounds i).is_active ≡ false
    → Owned m
    → Owned
        (record { sources = t; sounds = update m.sounds i (record (m.sounds i) { source_id = x }) })
refused-Owned i x t m h e v = record {
  single = λ y. ground (arith, copies-acquire m.sources t x y h, v.single y);
  held =
      λ j a. ground (arith, acquire-allocated m.sources t x (m.sounds j).source_id h, v.held j, e);
  apart = λ j k a b c. ground (arith, v.apart j k, e);
}

-- A sound that takes a source takes one that no sound holds, whether OpenAL then accepts the buffer or
-- not: this is called on inactive sounds only.
pub reactivate-Owned :
    (accepts : Bool) (i : ℕ) (m : Mixer)
    → (m.sounds i).is_active ≡ false
    → Owned m
    → Owned (reactivate accepts i m)
unfolding reactivate
reactivate-Owned accepts i m e v = elim (Option-cases (acquire m.sources)) [
  | inl n ↦ rw (n, with_source) v
  | inr ((x, t), n) ↦ rw n (either accepts x t n)
]
  where
    either :
        (b : Bool) (x : ℕ) (t : Sources)
        → acquire m.sources ≡ some (x, t)
        → Owned (with_source b i m (some (x, t)))
    either true x t n = with_source-Owned i x t m n e v
    either false x t n = rw (refused i x t m e) (refused-Owned i x t m n e v)

-- A source that does not take the buffer is lost: the sound is not active, so that nothing gives the
-- source back, and it stays allocated.
reactivate_refused :
    (i x : ℕ) (t : Sources) (m : Mixer)
    → (m.sounds i).is_active ≡ false
    → acquire m.sources ≡ some (x, t)
    → let n = reactivate false i m in
      (holds x n.sources.allocated ≡ true)
      × ((n.sounds i).is_active ≡ false)
      × ((playing : Bool) → (deactivate playing i n).sources ≡ n.sources)
unfolding reactivate deactivate
reactivate_refused i x t m e h =
    rw (h, refused i x t m e)
      (
        ground (arith, acquire-allocated m.sources t x x h, ==_refl x),
        ground (arith, e),
        λ playing. ground (arith, e, ==_refl i),
      )

with_source-elsewhere :
    (accepts : Bool) (i j x : ℕ) (t : Sources) (m : Mixer)
    → (i == j) ≡ false
    → (with_source accepts i m (some (x, t))).sounds j ≡ m.sounds j
unfolding with_source deactivate
with_source-elsewhere true i j x t m e = ground (arith, e)
with_source-elsewhere false i j x t m e = ground (arith, e, ==_refl i)

-- Another sound is not touched.
pub reactivate-elsewhere :
    (accepts : Bool) (i j : ℕ) (m : Mixer)
    → (i == j) ≡ false
    → (reactivate accepts i m).sounds j ≡ m.sounds j
unfolding reactivate
reactivate-elsewhere accepts i j m e = elim (Option-cases (acquire m.sources)) [
  | inl n ↦ rw (n, with_source) refl
  | inr (t, n) ↦ rw n (ground (arith, with_source-elsewhere accepts i j t.0 t.1 m e))
]
