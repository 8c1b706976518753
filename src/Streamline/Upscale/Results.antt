-- ===== src/Streamline/Upscale/Results.antt =====
-- What an upscale that succeeds had, and what an upscale leaves alone.
use mgdf.Streamline.{State, DlssOptions}
use mgdf.Streamline.Frames.{has_token, Result, s_ok, e_invalidarg, e_notimpl, e_illegal_method_call}
use mgdf.Streamline.Upscale.{
  UpscaleMode, to_dlss_mode, UpscaleDesc, complete, same_options, options_of, evaluate, with_mode,
  rt_upscale, holds_options,
}
use mgdf.Prelude.{
  ◌≡◌, refl, ◌≢◌, inl, inr, Bool, true, false, not, ◌&&◌, ◌||◌, Option, none, some, arith,
  if◌then◌else◌, ==_refl, Bool-cases,
}

same_options_refl : (o : DlssOptions) → same_options o (some o) ≡ true
unfolding same_options
same_options_refl o =
    ground (arith, ==_refl o.mode, ==_refl o.output_width, ==_refl o.output_height)

guard_ok :
    (g : Bool) (s : State) (r : Result) (k : State × Result)
    → r ≢ s_ok
    → (if g then (s, r) else k).1 ≡ s_ok
    → (g ≡ false) × (k.1 ≡ s_ok)
guard_ok true s r k n h = absurd (n h)
guard_ok false s r k n h = (refl, h)

evaluate-s_ok :
    (a e : Bool) (o : DlssOptions) (s : State)
    → (evaluate a e o s).1 ≡ s_ok
    → same_options o (evaluate a e o s).0.dlss_options ≡ true
unfolding evaluate
evaluate-s_ok a e o s h = elim (Bool-cases (same_options o s.dlss_options)) [
  | inl q ↦ rw (q, q) refl
  | inr q ↦ elim (Bool-cases a) [
    | inl r ↦ rw (q, r) (same_options_refl o)
    | inr r ↦ absurd (ground (arith, q, r, h))
  ]
]

with_mode-s_ok :
    (a e : Bool) (m : Option UpscaleMode) (d : UpscaleDesc) (s : State)
    → (with_mode a e m d s).1 ≡ s_ok
    → (s.constants_set ≡ true) × (holds_options m d (with_mode a e m d s).0.dlss_options ≡ true)
unfolding with_mode holds_options
with_mode-s_ok a e none d s h = absurd (ground arith)
with_mode-s_ok a e (some mode) d s h =
    let o = options_of (to_dlss_mode mode) d in
    let (c, k) =
      guard_ok (not s.constants_set) s e_illegal_method_call (evaluate a e o s) (ground arith) h in
    let set : s.constants_set ≡ true = ground (arith, c) in (set, rw c (evaluate-s_ok a e o s k))

-- An upscale that succeeds had everything it needs: an active feature and a frame, a list that records,
-- all the resources and sizes, and the frame's constants; and the options that the plugin holds are
-- those of this call.
rt_upscale-s_ok :
    (recording accepted evaluated : Bool) (d : UpscaleDesc) (s : State)
    → (rt_upscale recording accepted evaluated d s).1 ≡ s_ok
    → (s.upscale ≡ true)
      × (has_token s ≡ true)
      × (s.constants_set ≡ true)
      × (complete d ≡ true)
      × (holds_options d.mode d (rt_upscale recording accepted evaluated d s).0.dlss_options ≡ true)
unfolding rt_upscale with_mode
rt_upscale-s_ok recording accepted evaluated d s h =
    let k = with_mode accepted evaluated d.mode d s in
    let ready = recording && complete d in
    let (g, h') =
      guard_ok (not s.upscale || not (has_token s)) s e_notimpl
        (if not ready then (s, e_invalidarg) else k) (ground arith) h in
    let (r, h'') = guard_ok (not ready) s e_invalidarg k (ground arith) h' in
    let (c, o) = with_mode-s_ok accepted evaluated d.mode d s h'' in
    (ground (arith, g), ground (arith, g), c, ground (arith, r), rw (g, r) o)

-- Nothing but the options has changed.
abbrev KeepsSession : State → State → Type 0
KeepsSession s t = (o : Option DlssOptions) × (t ≡ record s { dlss_options = o })

guard-KeepsSession :
    (g : Bool) (s : State) (r : Result) (k : State × Result)
    → KeepsSession s k.0
    → KeepsSession s (if g then (s, r) else k).0
guard-KeepsSession true s r k h = (s.dlss_options, refl)
guard-KeepsSession false s r k h = h

evaluate-KeepsSession :
    (a e : Bool) (o : DlssOptions) (s : State) → KeepsSession s (evaluate a e o s).0
unfolding evaluate
evaluate-KeepsSession a e o s = elim (Bool-cases (same_options o s.dlss_options)) [
  | inl q ↦ rw q (s.dlss_options, refl)
  | inr q ↦ elim (Bool-cases a) [
    | inl r ↦ rw (q, r) (some o, refl)
    | inr r ↦ rw (q, r) (s.dlss_options, refl)
  ]
]

with_mode-KeepsSession :
    (a e : Bool) (m : Option UpscaleMode) (d : UpscaleDesc) (s : State)
    → KeepsSession s (with_mode a e m d s).0
unfolding with_mode
with_mode-KeepsSession a e none d s = (s.dlss_options, refl)
with_mode-KeepsSession a e (some mode) d s =
    let o = options_of (to_dlss_mode mode) d in
    guard-KeepsSession (not s.constants_set) s e_illegal_method_call (evaluate a e o s)
      (evaluate-KeepsSession a e o s)

pub rt_upscale-KeepsSession :
    (recording a e : Bool) (d : UpscaleDesc) (s : State)
    → KeepsSession s (rt_upscale recording a e d s).0
unfolding rt_upscale
rt_upscale-KeepsSession recording a e d s =
    let k = with_mode a e d.mode d s in
    let ready = recording && complete d in
    guard-KeepsSession (not s.upscale || not (has_token s)) s e_notimpl
      (if not ready then (s, e_invalidarg) else k)
      (guard-KeepsSession (not ready) s e_invalidarg k (with_mode-KeepsSession a e d.mode d s))
