-- ===== src/Prelude/Assoc.antt =====
-- The maps of the source (`std::map`, `std::unordered_map`) with text keys, as association lists.
use mathlib.Core.Path.{◌≡◌, refl}
use mathlib.Core.List.{List, [], ◌∷◌}
use mathlib.Core.Option.{Option, none, some}
use native.Mathlib.Omega.{arith}
use mgdf.Prelude.Tests.{if◌then◌else◌}
use mgdf.Prelude.Bytes.{Text, same_text, same_text_refl, same_text→eq}

module _ {ℓ} {V : Type ℓ} where
  unfoldable pub find : Text → List (Text × V) → Option V
  find k [] = none
  find k ((j, v) ∷ m) = if same_text j k then some v else find k m

  -- `map::insert` and `map::emplace`: a key that is there keeps its value.
  unfoldable pub insert : Text → V → List (Text × V) → List (Text × V)
  insert k v [] = (k, v) ∷ []
  insert k v ((j, w) ∷ m) = if same_text j k then (j, w) ∷ m else (j, w) ∷ insert k v m

  -- `m[k] = v`: a key that is there gets the new value.
  unfoldable pub assign : Text → V → List (Text × V) → List (Text × V)
  assign k v [] = (k, v) ∷ []
  assign k v ((j, w) ∷ m) = if same_text j k then (j, v) ∷ m else (j, w) ∷ assign k v m

  abbrev pub value_or : Option V → V → Option V
  value_or none v = some v
  value_or (some w) v = some w

  pub find-insert :
      (k j : Text) (v : V) (m : List (Text × V))
      → find j (insert k v m) ≡ (if same_text k j then value_or (find k m) v else find j m)
  unfolding find insert
  find-insert k j v [] = refl
  find-insert k j v ((i, w) ∷ m) = ground (
    arith,
    find-insert k j v m,
    same_text→eq i k,
    same_text→eq i j,
    same_text→eq k j,
    same_text_refl k,
  )

  pub find-assign :
      (k j : Text) (v : V) (m : List (Text × V))
      → find j (assign k v m) ≡ (if same_text k j then some v else find j m)
  unfolding find assign
  find-assign k j v [] = refl
  find-assign k j v ((i, w) ∷ m) = ground (
    arith,
    find-assign k j v m,
    same_text→eq i k,
    same_text→eq i j,
    same_text→eq k j,
    same_text_refl k,
  )
