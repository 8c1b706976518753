-- ===== src/Timers/Samples.antt =====
-- CounterBase::AddSample of src/core/core.impl/MGDFTimer.cpp: the samples that an average is taken of,
-- the latest first. A sample is counted in ticks.
use mgdf.Prelude.{
  ℕ, zero, suc, ◌+◌, ◌≤◌, ◌<◌, min, ◌≡◌, refl, sym, ap, ◌∙◌, inl, inr, List, [], ◌∷◌, arith, leb,
  if◌then◌else◌, Bool-cases, length, take, length-take,
}

-- MaxSamples.
abbrev max_samples : ℕ
max_samples = 5

pop_back : List ℕ → List ℕ
pop_back [] = []
pop_back (x ∷ []) = []
pop_back (x ∷ y ∷ rest) = x ∷ pop_back (y ∷ rest)

sum : List ℕ → ℕ
sum [] = 0
sum (x ∷ xs) = x + sum xs

pub record Window : Type 0 where
  pub samples : List ℕ
  -- The sum and the number that the average is the quotient of.
  pub total : ℕ
  pub number : ℕ

add_sample : ℕ → Window → Window
unfolding pop_back sum
add_sample x w =
    let pushed = x ∷ w.samples in
    let samples = if leb max_samples (length pushed) then pop_back pushed else pushed in
    record { samples = samples; total = sum samples; number = length samples }

abbrev empty_window : Window
empty_window = record { samples = []; total = 0; number = 0 }

add_all : List ℕ → Window → Window
add_all [] w = w
add_all (x ∷ xs) w = add_all xs (add_sample x w)

-- The values in the order in which they come back, the latest first.
latest : List ℕ → List ℕ → List ℕ
latest [] before = before
latest (x ∷ xs) before = latest xs (x ∷ before)

pop_back-take : (xs : List ℕ) (n : ℕ) → length xs ≡ suc n → pop_back xs ≡ take n xs
unfolding pop_back
pop_back-take [] n h = absurd (omega arith)
pop_back-take (x ∷ []) zero h = refl
pop_back-take (x ∷ []) (suc n) h = absurd (omega arith)
pop_back-take (x ∷ y ∷ rest) zero h = absurd (omega arith)
pop_back-take (x ∷ y ∷ rest) (suc n) h = ap (λ r. x ∷ r) (pop_back-take (y ∷ rest) n (omega arith))

take-all : (n : ℕ) (xs : List ℕ) → length xs ≤ n → take n xs ≡ xs
take-all zero [] h = refl
take-all zero (x ∷ xs) h = absurd (omega arith)
take-all (suc n) [] h = refl
take-all (suc n) (x ∷ xs) h = ap (λ r. x ∷ r) (take-all n xs (omega arith))

take-take : (xs : List ℕ) → take 3 (take 4 xs) ≡ take 3 xs
take-take [] = refl
take-take (a ∷ []) = refl
take-take (a ∷ b ∷ []) = refl
take-take (a ∷ b ∷ c ∷ []) = refl
take-take (a ∷ b ∷ c ∷ d ∷ xs) = refl

add_sample-take :
    (x : ℕ) (before : List ℕ) (w : Window)
    → w.samples ≡ take 4 before
    → (add_sample x w).samples ≡ take 4 (x ∷ before)
unfolding add_sample
add_sample-take x before w h =
    let size : length w.samples ≡ min 4 (length before) = ap length h ∙ length-take 4 before in
    elim (Bool-cases (leb max_samples (suc (length w.samples)))) [
      | inl e ↦
          let four : length (x ∷ w.samples) ≡ suc 4 = ground (arith, size) in
          rw e (
            pop_back-take (x ∷ w.samples) 4 four
            ∙ ap (λ r. x ∷ r) (ap (take 3) h ∙ take-take before))
      | inr e ↦
          let few : length before ≤ 3 = ground (arith, size) in
          rw e (ap (λ r. x ∷ r) (h ∙ take-all 4 before (omega arith) ∙ sym (take-all 3 before few)))
    ]

add_all-latest :
    (xs before : List ℕ) (w : Window)
    → w.samples ≡ take 4 before
    → (add_all xs w).samples ≡ take 4 (latest xs before)
unfolding add_all latest
add_all-latest [] before w h = h
add_all-latest (x ∷ xs) before w h =
    add_all-latest xs (x ∷ before) (add_sample x w) (add_sample-take x before w h)

add_sample-average :
    (x : ℕ) (w : Window)
    → ((add_sample x w).total ≡ sum (add_sample x w).samples)
      × ((add_sample x w).number ≡ length (add_sample x w).samples)
unfolding add_sample
add_sample-average x w = (refl, refl)

abbrev IsAverage : Window → Type 0
IsAverage w = (w.total ≡ sum w.samples) × (w.number ≡ length w.samples)

add_all-IsAverage : (xs : List ℕ) (w : Window) → IsAverage w → IsAverage (add_all xs w)
unfolding add_all
add_all-IsAverage [] w h = h
add_all-IsAverage (x ∷ xs) w h = add_all-IsAverage xs (add_sample x w) (add_sample-average x w)

length-latest : (xs before : List ℕ) → length (latest xs before) ≡ length xs + length before
unfolding latest
length-latest [] before = omega arith
length-latest (x ∷ xs) before = omega (arith, length-latest xs (x ∷ before))

-- After any values were added, the average is that of the last four of them, or of all if they are fewer:
-- `MaxSamples` is 5, but a fifth sample pushes one out at once. It is the quotient of their sum and of
-- their number, which is not zero once a value was added.
add_all-average :
    (xs : List ℕ) (x : ℕ)
    → let w = add_all (x ∷ xs) empty_window in
      (w.samples ≡ take 4 (latest (x ∷ xs) []))
      × (w.total ≡ sum (take 4 (latest (x ∷ xs) [])))
      × (w.number ≡ min 4 (length (x ∷ xs)))
      × (0 < w.number)
unfolding sum
add_all-average xs x =
    let w = add_all (x ∷ xs) empty_window in
    let kept = add_all-latest (x ∷ xs) [] empty_window refl in
    let (total, number) = add_all-IsAverage (x ∷ xs) empty_window (refl, refl) in
    let size = ap length kept ∙ length-take 4 (latest (x ∷ xs) []) in
    (
      kept,
      total ∙ ap sum kept,
      omega (arith, length-latest (x ∷ xs) []),
      omega (arith, length-latest (x ∷ xs) []),
    )
