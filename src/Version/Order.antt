-- ===== src/Version/Order.antt =====
-- That versions are in a total order.
use mgdf.Prelude.Int.{ℤ, pos, negsuc, pos_part, neg_part, eq_of_parts}
use mgdf.Version.{Version, compare_part, compare_versions}
use mgdf.Prelude.{◌+◌, ◌≡◌, refl, ◌↔◌, arith, ==_refl}

part_zero : (x y r : ℤ) → compare_part x y r ≡ pos 0 → (x ≡ y) × (r ≡ pos 0)
unfolding compare_part
part_zero x y r h = (ground (arith, eq_of_parts x y), ground arith)

part_same : (x r : ℤ) → compare_part x x r ≡ r
unfolding compare_part
part_same x r = ground (arith, ==_refl (pos_part x + neg_part x))

part_flip :
    (x y r s : ℤ)
    → (r ≡ pos 1 → s ≡ negsuc 0)
    → compare_part x y r ≡ pos 1
    → compare_part y x s ≡ negsuc 0
unfolding compare_part
part_flip x y r s f h = ground (arith, f)

part_trans :
    (x y z p q r : ℤ)
    → (p ≡ pos 1 → q ≡ pos 1 → r ≡ pos 1)
    → compare_part x y p ≡ pos 1
    → compare_part y z q ≡ pos 1
    → compare_part x z r ≡ pos 1
unfolding compare_part
part_trans x y z p q r f h k = ground (arith, f)

-- Comparing gives 0 exactly for equal versions.
compare_versions_zero : (a b : Version) → (compare_versions a b ≡ pos 0) ↔ (a ≡ b)
unfolding compare_versions
compare_versions_zero a b = (forward, λ e. rw e (same b))
  where
    same : (v : Version) → compare_versions v v ≡ pos 0
    same v = rw (part_same v.major, part_same v.minor, part_same v.build, part_same v.revision) refl

    forward : compare_versions a b ≡ pos 0 → a ≡ b
    forward h =
        let (i, h1) = part_zero a.major b.major _ h in
        let (j, h2) = part_zero a.minor b.minor _ h1 in
        let (k, h3) = part_zero a.build b.build _ h2 in
        let (l, h4) = part_zero a.revision b.revision _ h3 in ground (arith, i, j, k, l)

-- A version is later than another only if the other is earlier than it.
compare_versions_flip :
    (a b : Version) → compare_versions a b ≡ pos 1 → compare_versions b a ≡ negsuc 0
unfolding compare_versions
compare_versions_flip a b = part_flip a.major b.major _ _ (
    part_flip a.minor b.minor _ _ (
      part_flip a.build b.build _ _
        (part_flip a.revision b.revision (pos 0) (pos 0) (λ e. absurd (ground (arith, e))))))

-- "Later than" is transitive.
compare_versions_trans :
    (a b c : Version)
    → compare_versions a b ≡ pos 1
    → compare_versions b c ≡ pos 1
    → compare_versions a c ≡ pos 1
unfolding compare_versions
compare_versions_trans a b c = part_trans a.major b.major c.major _ _ _ (
    part_trans a.minor b.minor c.minor _ _ _ (
      part_trans a.build b.build c.build _ _ _
        (part_trans a.revision b.revision c.revision (pos 0) (pos 0) (pos 0) (λ e f. e))))
