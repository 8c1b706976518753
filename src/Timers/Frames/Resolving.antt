-- ===== src/Timers/Frames/Resolving.antt =====
-- What the end of a frame resolves.
use mgdf.Timers.Frames.{Sample, run_length, resolve}
use mgdf.Prelude.{
  ℕ, zero, suc, ◌+◌, ◌*◌, ◌≤◌, ◌≡◌, refl, ap, ◌∙◌, inl, inr, true, false, List, [], ◌∷◌, ◌++◌,
  arith, if◌then◌else◌, Bool-cases, length, drop, null, length-drop,
}

-- The queries of a range.
range : ℕ → ℕ → List ℕ
range from zero = []
range from (suc n) = from ∷ range (suc from) n

pub expand : List (ℕ × ℕ) → List ℕ
unfolding range
expand [] = []
expand ((from, n) ∷ rest) = range from n ++ expand rest

-- The two queries of each sample that ended.
pub ended_queries : (ℕ → Sample) → List ℕ → List ℕ
ended_queries samples [] = []
ended_queries samples (i ∷ rest) =
    let more = ended_queries samples rest in
    if (samples i).ended then (samples i).index ∷ suc (samples i).index ∷ more else more

pub expand_nil : expand [] ≡ []
unfolding expand
expand_nil = refl

pub ended_queries-null : (f : ℕ → Sample) (p : List ℕ) → null p ≡ true → ended_queries f p ≡ []
unfolding ended_queries
ended_queries-null f [] h = refl
ended_queries-null f (i ∷ p) h = absurd (ground arith)

-- The samples have the even queries from `n` on, in order.
abbrev pub IsIndexed : (ℕ → Sample) → ℕ → List ℕ → Type 0
IsIndexed samples n [] = Unit
IsIndexed samples n (i ∷ rest) = ((samples i).index ≡ n) × IsIndexed samples (suc (suc n)) rest

run-ended :
    (samples : ℕ → Sample) (i : ℕ) (rest : List ℕ)
    → (samples i).ended ≡ true
    → run_length samples (i ∷ rest) ≡ suc (run_length samples rest)
unfolding run_length
run-ended samples i rest e = rw e refl

run-open :
    (samples : ℕ → Sample) (i : ℕ) (rest : List ℕ)
    → (samples i).ended ≡ false
    → run_length samples (i ∷ rest) ≡ 0
unfolding run_length
run-open samples i rest e = rw e refl

ended-ended :
    (samples : ℕ → Sample) (i : ℕ) (rest : List ℕ)
    → (samples i).ended ≡ true
    → ended_queries samples (i ∷ rest)
      ≡ (samples i).index ∷ suc (samples i).index ∷ ended_queries samples rest
unfolding ended_queries
ended-ended samples i rest e = rw e refl

-- A run of samples that ended is one range.
range-run :
    (samples : ℕ → Sample) (n : ℕ) (pending : List ℕ)
    → IsIndexed samples n pending
    → range n (run_length samples pending * 2)
        ++ ended_queries samples (drop (run_length samples pending) pending)
      ≡ ended_queries samples pending
unfolding range ended_queries run_length
range-run samples n [] h = refl
range-run samples n (i ∷ rest) h = elim (Bool-cases (samples i).ended) [
  | inl e ↦
      rw (run-ended samples i rest e, ended-ended samples i rest e, h.0)
        (let two : suc (run_length samples rest) * 2 ≡ suc (suc (run_length samples rest * 2)) =
            omega arith in
          rw two (ap (λ r. n ∷ suc n ∷ r) (range-run samples (suc (suc n)) rest h.1)))
  | inr e ↦ rw (run-open samples i rest e) refl
]

IsIndexed-drop :
    (samples : ℕ → Sample) (k n m : ℕ) (pending : List ℕ)
    → m ≡ n + k * 2
    → IsIndexed samples n pending
    → IsIndexed samples m (drop k pending)
IsIndexed-drop samples zero n m pending e h = let same : m ≡ n = omega arith in rw same h
IsIndexed-drop samples (suc k) n m [] e h = tt
IsIndexed-drop samples (suc k) n m (i ∷ rest) e h =
    IsIndexed-drop samples k (suc (suc n)) m rest (omega arith) h.1

-- `EndFrame` resolves exactly the queries of the samples that ended, in order, each once, whatever runs
-- they form.
pub resolve-ended_queries :
    (samples : ℕ → Sample) (fuel n : ℕ) (pending : List ℕ)
    → length pending ≤ fuel
    → IsIndexed samples n pending
    → expand (resolve samples fuel pending) ≡ ended_queries samples pending
unfolding resolve expand ended_queries range
resolve-ended_queries samples zero n [] l h = refl
resolve-ended_queries samples zero n (i ∷ rest) l h = absurd (omega arith)
resolve-ended_queries samples (suc fuel) n [] l h = refl
resolve-ended_queries samples (suc fuel) n (i ∷ rest) l h = elim (Bool-cases (samples i).ended) [
  | inl e ↦
      let k = run_length samples rest in
      let after =
        resolve-ended_queries samples fuel (suc (suc n) + k * 2) (drop k rest)
          (omega (arith, length-drop k rest))
          (IsIndexed-drop samples k (suc (suc n)) _ rest refl h.1) in
      let two : suc k * 2 ≡ suc (suc (k * 2)) = omega arith in
      rw (e, h.0, two)
        (ap (λ r. n ∷ suc n ∷ r)
          (ap (λ r. range (suc (suc n)) (k * 2) ++ r) after
            ∙ range-run samples (suc (suc n)) rest h.1))
  | inr e ↦ rw e (resolve-ended_queries samples fuel (suc (suc n)) rest (omega arith) h.1)
]
