-- ===== src/Prelude/Every.antt =====
-- What holds of every entry of a list, or of none.
use mathlib.Core.Path.{◌≡◌, refl}
use mathlib.Core.Bool.{Bool, true, false, ◌&&◌, ◌||◌}
use mathlib.Core.List.{List, [], ◌∷◌, ◌++◌}
use native.Mathlib.Omega.{arith}
use mgdf.Prelude.Lists.{any, all}

module _ {ℓ} {A : Type ℓ} where
  pub all-append : (p : A → Bool) (xs ys : List A) → all p (xs ++ ys) ≡ (all p xs && all p ys)
  all-append p [] ys = refl
  all-append p (x ∷ xs) ys = ground (arith, all-append p xs ys)

  pub any-append : (p : A → Bool) (xs ys : List A) → any p (xs ++ ys) ≡ (any p xs || any p ys)
  any-append p [] ys = refl
  any-append p (x ∷ xs) ys = ground (arith, any-append p xs ys)

  pub all_weaker :
      (p q : A → Bool) (xs : List A)
      → ((x : A) → p x ≡ true → q x ≡ true)
      → all p xs ≡ true
      → all q xs ≡ true
  all_weaker p q [] weaker h = refl
  all_weaker p q (x ∷ xs) weaker h =
      let rest = all_weaker p q xs weaker (ground (arith, h)) in
      let here = weaker x (ground (arith, h)) in ground (arith, here, rest)

  pub all_without :
      (p q : A → Bool) (xs : List A)
      → ((x : A) → p x ≡ false → q x ≡ true)
      → any p xs ≡ false
      → all q xs ≡ true
  all_without p q [] without h = refl
  all_without p q (x ∷ xs) without h =
      let rest = all_without p q xs without (ground (arith, h)) in
      let here = without x (ground (arith, h)) in ground (arith, here, rest)
