-- ===== src/Timers/Frames/Fit.antt =====
-- The samples of one slot: they have the even queries in order, and are no more than the heap has pairs for.
use mgdf.Timers.Frames.{push_sample, mark_ended, max_pairs, Sample, Manager, update, current}
use mgdf.Timers.Frames.Resolving.{IsIndexed}
use mgdf.Prelude.{
  ℕ, suc, ◌+◌, ◌*◌, ◌≤◌, ◌<◌, ◌≡◌, refl, ap, ◌∙◌, ◌⊎◌, inl, inr, true, false, List, [], ◌∷◌, ◌++◌,
  arith, ◌==◌, ==_refl, Bool-cases, length, length-append,
}

abbrev Below : ℕ → List ℕ → Type 0
Below n [] = Unit {0}
Below n (i ∷ rest) = (i < n) × Below n rest

Below-append : (n i : ℕ) (p : List ℕ) → Below n p → i < n → Below n (p ++ i ∷ [])
Below-append n i [] h l = (l, tt)
Below-append n i (j ∷ p) h l = (h.0, Below-append n i p h.1 l)

Below-suc : (n : ℕ) (p : List ℕ) → Below n p → Below (n + 1) p
Below-suc n [] h = tt
Below-suc n (j ∷ p) h = (omega (arith, h.0), Below-suc n p h.1)

-- Samples whose numbers are below `n` keep their queries if these do.
IsIndexed-same :
    (f g : ℕ → Sample) (n m : ℕ) (p : List ℕ)
    → ((i : ℕ) → i < n → (g i).index ≡ (f i).index)
    → Below n p
    → IsIndexed f m p
    → IsIndexed g m p
IsIndexed-same f g n m [] same below h = tt
IsIndexed-same f g n m (i ∷ p) same below h =
    (same i below.0 ∙ h.0, IsIndexed-same f g n (suc (suc m)) p same below.1 h.1)

IsIndexed-append :
    (f : ℕ → Sample) (m i : ℕ) (p : List ℕ)
    → IsIndexed f m p
    → (f i).index ≡ m + length p * 2
    → IsIndexed f m (p ++ i ∷ [])
IsIndexed-append f m i [] h e = (omega (arith, e), tt)
IsIndexed-append f m i (j ∷ p) h e =
    (h.0, IsIndexed-append f (suc (suc m)) i p h.1 (omega (arith, e)))

-- Of one slot.
pub record IsFit (m : Manager) (j : ℕ) : Type 0 where
  pub indexed : IsIndexed m.samples 0 (m.slots j).pending
  pub few : length (m.slots j).pending ≤ max_pairs
  pub below : Below m.count (m.slots j).pending

-- The samples of a slot that gets no new one stay as they were.
pub IsFit-kept :
    (m n : Manager) (j : ℕ)
    → IsFit m j
    → ((i : ℕ) → i < m.count → (n.samples i).index ≡ (m.samples i).index)
    → (n.slots j).pending ≡ (m.slots j).pending
    → (n.count ≡ m.count) ⊎ (n.count ≡ m.count + 1)
    → IsFit n j
IsFit-kept m n j v same p c = record {
  indexed =
      rw p
        (IsIndexed-same m.samples n.samples m.count 0 (m.slots j).pending same v.below v.indexed);
  few = rw p v.few;
  below = rw p (elim c [
    | inl e ↦ rw e v.below
    | inr e ↦ rw e (Below-suc m.count (m.slots j).pending v.below)
  ]);
}

update_other :
    (m : Manager) (s : Sample) (i : ℕ) → i < m.count → update m.samples m.count s i ≡ m.samples i
update_other m s i h = ground arith

push-pending :
    (counter generation : ℕ) (m : Manager) (j : ℕ)
    → (m.frame_slot == j) ≡ true
    → ((push_sample counter generation m).slots j).pending ≡ (current m).pending ++ m.count ∷ []
unfolding push_sample
push-pending counter generation m j e = rw e refl

push-count :
    (counter generation : ℕ) (m : Manager) → (push_sample counter generation m).count ≡ m.count + 1
unfolding push_sample
push-count counter generation m = refl

push-new :
    (counter generation : ℕ) (m : Manager)
    → ((push_sample counter generation m).samples m.count).index ≡ length (current m).pending * 2
unfolding push_sample
push-new counter generation m = rw (==_refl m.count) refl

push-old :
    (counter generation : ℕ) (m : Manager) (i : ℕ)
    → i < m.count
    → ((push_sample counter generation m).samples i).index ≡ (m.samples i).index
unfolding push_sample
push-old counter generation m i h = ap (λ (s : Sample). s.index) (update_other m _ i h)

push-elsewhere :
    (counter generation : ℕ) (m : Manager) (j : ℕ)
    → (m.frame_slot == j) ≡ false
    → ((push_sample counter generation m).slots j).pending ≡ (m.slots j).pending
unfolding push_sample
push-elsewhere counter generation m j e = rw e refl

zero_plus : (n : ℕ) → n ≡ 0 + n
zero_plus n = omega arith

pub push-IsFit :
    (counter generation : ℕ) (m : Manager) (j : ℕ)
    → ((k : ℕ) → IsFit m k)
    → (length (current m).pending == max_pairs) ≡ false
    → IsFit (push_sample counter generation m) j
push-IsFit counter generation m j v room = elim (Bool-cases (m.frame_slot == j)) [
  | inl e ↦
      let old = v m.frame_slot in
      record {
        indexed = rw (push-pending counter generation m j e) (
            IsIndexed-append (push_sample counter generation m).samples 0 m.count
              (current m).pending
              (IsIndexed-same m.samples (push_sample counter generation m).samples m.count 0
                (current m).pending (push-old counter generation m) old.below old.indexed)
              (push-new counter generation m ∙ zero_plus (length (current m).pending * 2)));
        few =
            rw
              (
                push-pending counter generation m j e,
                length-append (current m).pending (m.count ∷ []),
              )
              (ground (arith, old.few));
        below =
            rw (push-pending counter generation m j e, push-count counter generation m)
              (Below-append (m.count + 1) m.count (current m).pending
                (Below-suc m.count (current m).pending old.below) (omega arith));
      }
  | inr e ↦
      IsFit-kept m (push_sample counter generation m) j (v j) (push-old counter generation m)
        (push-elsewhere counter generation m j e) (inr (push-count counter generation m))
]

pub mark-IsFit : (i : ℕ) (m : Manager) (j : ℕ) → IsFit m j → IsFit (mark_ended i m) j
unfolding mark_ended
mark-IsFit i m j v = IsFit-kept m (mark_ended i m) j v (λ k h. ground arith) refl (inl refl)
