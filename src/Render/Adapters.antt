-- ===== src/Render/Adapters.antt =====
-- The choice of an adapter in D3D12RenderBackend::RTInit of src/core/MGDFD3D12RenderBackend.cpp, by
-- PreferD3D12Adapter of src/core/MGDFD3D12FrameState.hpp.
pub mod Best
use mgdf.Prelude.{
  ℕ, zero, suc, ◌+◌, ◌-◌, ◌*◌, ◌/◌, ◌%◌, ◌^◌, ◌≤◌, ◌<◌, min, max, ◌≡◌, refl, sym, ap, ◌∙◌, ◌≢◌, ◌↔◌,
  ◌⊎◌, inl, inr, Bool, true, false, not, ◌&&◌, ◌||◌, Option, none, some, List, [], ◌∷◌, ◌++◌, map,
  append-nil, append_assoc, arith, ltb, leb, ◌==◌, if◌then◌else◌, ltb→lt, lt→ltb, ==_iff, ==_refl,
  Bool-cases, if_cases, Option-cases, length, get_elem?, take, drop, keep, any, all, null,
  length-append, length-take, length-drop, length-keep-le, keep-append, Text, codes, same_text,
  same_text_refl, same_text→eq, same_text_ne, find, insert, assign, find-insert, find-assign,
}

-- D3D12AdapterScore.
pub record AdapterScore : Type 0 where
  pub ray_tracing : Bool
  pub memory : ℕ

-- Its `operator<=>`, the order of the fields.
pub less_score : AdapterScore → AdapterScore → Bool
less_score s t =
    (not s.ray_tracing && t.ray_tracing)
    || (((s.ray_tracing && t.ray_tracing) || (not s.ray_tracing && not t.ray_tracing))
        && ltb s.memory t.memory)

-- `PreferD3D12Adapter`.
prefer : Bool → Bool → AdapterScore → Option AdapterScore → Bool
unfolding less_score
prefer software supported score none = not software && supported
prefer software supported score (some best) = (not software && supported) && less_score best score

-- What DXGI says of an adapter: `device` is whether it can trace rays, if a device can be made.
pub record Adapter : Type 0 where
  pub software : Bool
  pub device : Option Bool
  pub dedicated_memory : ℕ

abbrev is_some {ℓ} : {A : Type ℓ} → Option A → Bool
is_some none = false
is_some (some a) = true

abbrev score_of : Adapter → AdapterScore
score_of a = record {
  ray_tracing = elim a.device [ none ↦ false | some traces ↦ traces ];
  memory = a.dedicated_memory;
}

abbrev best_score : Option Adapter → Option AdapterScore
best_score none = none
best_score (some a) = some (score_of a)

-- One round of the loop, on the adapter that is the best so far.
consider : Option Adapter → Adapter → Option Adapter
unfolding prefer
consider best a =
    if a.software
    then best
    else if prefer false (is_some a.device) (score_of a) (best_score best)
    then some a
    else best

consider_all : Option Adapter → List Adapter → Option Adapter
unfolding consider
consider_all best [] = best
consider_all best (a ∷ rest) = consider_all (consider best a) rest

-- The adapter of `D3D12CreateDevice` without an adapter, if a device can be made on it.
default_adapter : Adapter → Option Adapter
default_adapter a = if is_some a.device then some a else none

-- The adapter that `RTInit` takes, if there is one: of those that the factory lists, or the default one if
-- there is no factory (`none`), as with the parameter -usedefaultadapter.
pub choose_adapter : Adapter → Option (List Adapter) → Option Adapter
unfolding default_adapter consider_all
choose_adapter default none = default_adapter default
choose_adapter default (some adapters) = consider_all none adapters
