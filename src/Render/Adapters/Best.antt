-- ===== src/Render/Adapters/Best.antt =====
-- Which adapter D3D12RenderBackend::RTInit takes.
use mgdf.Render.Adapters.{
  default_adapter, AdapterScore, less_score, prefer, Adapter, is_some, score_of, consider,
  consider_all, choose_adapter,
}
use mgdf.Prelude.Every.{all-append, any-append, all_weaker, all_without}
use mgdf.Prelude.{
  if◌then◌else◌, ◌≡◌, refl, sym, ◌∙◌, inl, inr, Bool, true, false, not, ◌&&◌, ◌||◌, Option, none,
  some, List, [], ◌∷◌, ◌++◌, append-nil, append_assoc, arith, Bool-cases, if_cases, any, all,
}

-- An adapter on which a device can be made.
abbrev is_usable : Adapter → Bool
is_usable a = not a.software && is_some a.device

-- Whether `b` is usable and scores more than `a`.
abbrev is_beaten : Adapter → Adapter → Bool
is_beaten a b = is_usable b && less_score (score_of a) (score_of b)

-- Whether `b` scores less than `a`, if it is usable.
abbrev is_less : Adapter → Adapter → Bool
is_less a b = not (is_usable b) || less_score (score_of b) (score_of a)

-- The choice among adapters: none, if none is usable; or one that is usable, after adapters that score less,
-- where they are usable, and before adapters that do not score more.
pub data IsBest : List Adapter → Option Adapter → Type 0 where
  no_adapter : (xs : List Adapter) → any is_usable xs ≡ false → IsBest xs none
  best_adapter :
      (xs ys : List Adapter) (a : Adapter)
      → is_usable a ≡ true
      → all (is_less a) xs ≡ true
      → any (is_beaten a) ys ≡ false
      → IsBest (xs ++ a ∷ ys) (some a)

less_score_trans :
    (s t u : AdapterScore) → less_score s t ≡ true → less_score t u ≡ true → less_score s u ≡ true
unfolding less_score
less_score_trans s t u h k = ground (arith, h, k)

not_more_trans :
    (s t u : AdapterScore) → less_score t s ≡ false → less_score t u ≡ true → less_score s u ≡ true
unfolding less_score
not_more_trans s t u h k = ground (arith, h, k)

-- The best adapter stays so after one that does not beat it.
stays :
    (xs ys : List Adapter) (b a : Adapter)
    → is_usable b ≡ true
    → all (is_less b) xs ≡ true
    → any (is_beaten b) ys ≡ false
    → is_beaten b a ≡ false
    → IsBest ((xs ++ b ∷ ys) ++ a ∷ []) (some b)
stays xs ys b a usable before after no_more = rw (append_assoc xs (b ∷ ys) (a ∷ [])) (
    best_adapter xs (ys ++ a ∷ []) b usable before
      (any-append (is_beaten b) ys (a ∷ []) ∙ ground (arith, after, no_more)))

-- One that beats it takes its place.
gives_way :
    (xs ys : List Adapter) (b a : Adapter)
    → all (is_less b) xs ≡ true
    → any (is_beaten b) ys ≡ false
    → is_usable a ≡ true
    → less_score (score_of b) (score_of a) ≡ true
    → IsBest ((xs ++ b ∷ ys) ++ a ∷ []) (some a)
gives_way xs ys b a before after usable more =
    let of_xs =
      all_weaker (is_less b) (is_less a) xs
        (λ x less. elim (Bool-cases (less_score (score_of x) (score_of b))) [
          | inl l ↦ ground (arith, less_score_trans (score_of x) (score_of b) (score_of a) l more)
          | inr n ↦ ground (arith, less, n)
        ])
        before in
    let of_ys =
      all_without (is_beaten b) (is_less a) ys
        (λ x no. elim (Bool-cases (less_score (score_of b) (score_of x))) [
          | inl l ↦ ground (arith, no, l)
          | inr n ↦ ground (arith, not_more_trans (score_of x) (score_of b) (score_of a) n more)
        ])
        after in
    best_adapter (xs ++ b ∷ ys) [] a usable
      (all-append (is_less a) xs (b ∷ ys) ∙ ground (arith, of_xs, of_ys, more)) refl

consider-IsBest :
    (xs : List Adapter) (best : Option Adapter) (a : Adapter)
    → IsBest xs best
    → IsBest (xs ++ a ∷ []) (consider best a)
unfolding consider prefer
consider-IsBest seen best a (no_adapter xs unusable) =
    if_cases (IsBest (xs ++ a ∷ [])) a.software none _
      (λ soft.
        no_adapter (xs ++ a ∷ [])
          (any-append is_usable xs (a ∷ []) ∙ ground (arith, unusable, soft)))
      (λ hard.
        if_cases (IsBest (xs ++ a ∷ [])) (is_some a.device) (some a) none
          (λ made.
            best_adapter xs [] a (ground (arith, hard, made))
              (all_without is_usable (is_less a) xs (λ x no. ground (arith, no)) unusable) refl)
          (λ not_made.
            no_adapter (xs ++ a ∷ [])
              (any-append is_usable xs (a ∷ []) ∙ ground (arith, unusable, not_made))))
consider-IsBest seen best a (best_adapter xs ys b usable before after) =
    if_cases (IsBest ((xs ++ b ∷ ys) ++ a ∷ [])) a.software (some b) _
      (λ soft. stays xs ys b a usable before after (ground (arith, soft)))
      (λ hard.
        if_cases (IsBest ((xs ++ b ∷ ys) ++ a ∷ []))
          (is_some a.device && less_score (score_of b) (score_of a)) (some a) (some b)
          (λ more.
            gives_way xs ys b a before after (ground (arith, hard, more)) (ground (arith, more)))
          (λ less. stays xs ys b a usable before after (ground (arith, less))))

consider_all-IsBest :
    (xs ys : List Adapter) (best : Option Adapter)
    → IsBest xs best
    → IsBest (xs ++ ys) (consider_all best ys)
unfolding consider_all
consider_all-IsBest xs [] best v = rw (append-nil xs) v
consider_all-IsBest xs (a ∷ ys) best v =
    rw (sym (append_assoc xs (a ∷ []) ys))
      (consider_all-IsBest (xs ++ a ∷ []) ys (consider best a) (consider-IsBest xs best a v))

-- With a factory, the adapter that is taken is the best of those that it lists and on which a device can be
-- made, software adapters aside: ray tracing ranks before memory, and the first of equal adapters is taken;
-- and if there is no such adapter, none is taken. Without a factory, the default adapter is taken if a device
-- can be made on it, whatever it scores and though it is a software adapter, and otherwise none.
pub choose_adapter-IsBest :
    (default : Adapter) (adapters : List Adapter)
    → IsBest adapters (choose_adapter default (some adapters))
      × (choose_adapter default none ≡ (if is_some default.device then some default else none))
unfolding choose_adapter default_adapter
choose_adapter-IsBest default adapters =
    (consider_all-IsBest [] adapters none (no_adapter [] refl), refl)
