-- ===== src/Render/Devices/Calls.antt =====
-- What the module is told while devices are set up and taken down.
use mgdf.Render.Host.{
  Host, Callback, before_first_draw, set_devices, before_back_buffer_change, back_buffer_change,
  before_device_reset, device_reset, draw, after_present, ModuleCall, forward,
}
use mgdf.Render.Devices.{
  windowed, is_exclusive, is_borderless, App, Run, running, terminated, ◌>>=◌, Outcome, succeeded,
  removed, failed, Attempt, tell, uninit, prepare_reinit, reset_swap_chain, resize_back_buffer,
  apply_fullscreen, make_swap_chain, allow_mode, open_device, init_d3d, after_attempt, retry,
  reinit,
}
use mgdf.Prelude.Every.{all-append}
use mgdf.Prelude.{
  ℕ, zero, suc, ◌+◌, ◌≡◌, refl, ap, ◌∙◌, Bool, true, false, not, ◌&&◌, ◌||◌, Option, none, some, [],
  ◌∷◌, ltb, if◌then◌else◌, if_cases, keep, all,
}

-- What a callback of the module may rely on: a frame is drawn and presented with a device and a back buffer;
-- there is a device when the back buffer has changed, and before the device is reset; and the back buffer is
-- gone before it changes and before the device is reset.
abbrev pub is_safe : ModuleCall → Bool
is_safe c = elim c.callback [
  | draw ↦ c.device && c.back_buffer
  | after_present ↦ c.device && c.back_buffer
  | back_buffer_change ↦ c.device && c.back_buffer
  | before_device_reset ↦ c.device && not c.back_buffer
  | before_back_buffer_change ↦ not c.back_buffer
  | _ ↦ true
]

-- All callbacks were safe, and the host has a device and a back buffer or not.
pub record Has (d b : Bool) (h : Host) : Type 0 where
  pub safe : all is_safe h.calls ≡ true
  pub of_device : h.device ≡ d
  pub of_back_buffer : h.back_buffer ≡ b

-- All callbacks were safe, and an initialized backend is one that the host has a device and a back buffer of.
pub record IsSafe (a : App) : Type 0 where
  pub safe : all is_safe a.host.calls ≡ true
  pub ready : (not a.initialized || (a.host.device && a.host.back_buffer)) ≡ true

abbrev call_of : Callback → Bool → Bool → ModuleCall
call_of c d b = record { callback = c; device = d; back_buffer = b }

forward-Has :
    (c : Callback) (d b : Bool) (h : Host)
    → is_safe (call_of c d b) ≡ true
    → Has d b h
    → Has d b (forward c h)
unfolding forward
forward-Has c d b h s v =
    let at_h : is_safe (call_of c h.device h.back_buffer) ≡ true =
      ap (λ (x : Bool). is_safe (call_of c x h.back_buffer)) v.of_device
      ∙ ap (λ (y : Bool). is_safe (call_of c d y)) v.of_back_buffer
      ∙ s in
    if_cases (Has d b) h.has_module _ h
      (λ _. record {
        safe =
            all-append is_safe h.calls (call_of c h.device h.back_buffer ∷ [])
            ∙ rw (v.safe, at_h) refl;
        of_device = v.of_device;
        of_back_buffer = v.of_back_buffer;
      })
      (λ _. v)

tell-first_draw : (d b : Bool) (a : App) → Has d b a.host → Has d b (tell before_first_draw a).host
unfolding tell
tell-first_draw d b a v = forward-Has before_first_draw d b a.host refl v

tell-set_devices : (d b : Bool) (a : App) → Has d b a.host → Has true b (tell set_devices a).host
unfolding tell
tell-set_devices d b a v = record {
  safe = v.safe;
  of_device = refl;
  of_back_buffer = v.of_back_buffer;
}

pub tell-before_change :
    (d b : Bool) (a : App) → Has d b a.host → Has d false (tell before_back_buffer_change a).host
unfolding tell
tell-before_change d b a v =
    forward-Has before_back_buffer_change d false (record a.host { back_buffer = false }) refl
      (record { safe = v.safe; of_device = v.of_device; of_back_buffer = refl })

tell-change :
    (b : Bool) (a : App) → Has true b a.host → Has true true (tell back_buffer_change a).host
unfolding tell
tell-change b a v =
    forward-Has back_buffer_change true true (record a.host { back_buffer = true }) refl
      (record { safe = v.safe; of_device = v.of_device; of_back_buffer = refl })

tell-before_reset :
    (a : App) → Has true false a.host → Has false false (tell before_device_reset a).host
unfolding tell
tell-before_reset a v =
    let w = forward-Has before_device_reset true false a.host refl v in
    record { safe = w.safe; of_device = refl; of_back_buffer = w.of_back_buffer }

tell-device_reset : (d b : Bool) (a : App) → Has d b a.host → Has d b (tell device_reset a).host
unfolding tell
tell-device_reset d b a v = forward-Has device_reset d b a.host refl v

pub tell-frame :
    (a : App) → Has true true a.host → Has true true (tell after_present (tell draw a)).host
unfolding tell
tell-frame a v =
    let w = forward-Has draw true true a.host refl v in
    let drawn = (tell draw a).host in
    forward-Has after_present true true
      (record drawn { rendered_frames = drawn.rendered_frames + 1 }) refl
      (record { safe = w.safe; of_device = w.of_device; of_back_buffer = w.of_back_buffer })

-- Where a run ends or goes on, it is safe.
abbrev pub RunIsSafe : Run → Type 0
RunIsSafe (running a) = IsSafe a
RunIsSafe (terminated a) = all is_safe a.host.calls ≡ true

or_true : (x : Bool) → (x || true) ≡ true
or_true true = refl
or_true false = refl

pub IsSafe-ready : (a : App) → Has true true a.host → IsSafe a
IsSafe-ready a v = record {
  safe = v.safe;
  ready = rw (v.of_device, v.of_back_buffer) (or_true (not a.initialized));
}

pub prepare_reinit-IsSafe : (b : Bool) (a : App) → Has true b a.host → IsSafe (prepare_reinit a)
unfolding prepare_reinit uninit
prepare_reinit-IsSafe b a v =
    let waits = record a { awaiting_reset = true } in
    let w =
      tell-before_reset (tell before_back_buffer_change waits)
        (tell-before_change true b waits v) in
    record { safe = w.safe; ready = refl }

pub resize_back_buffer-IsSafe :
    (o : Outcome) (b : Bool) (a : App) → Has true b a.host → RunIsSafe (resize_back_buffer o a)
unfolding resize_back_buffer
resize_back_buffer-IsSafe succeeded b a v =
    IsSafe-ready (tell back_buffer_change a) (tell-change b a v)
resize_back_buffer-IsSafe removed b a v = prepare_reinit-IsSafe b a v
resize_back_buffer-IsSafe failed b a v = v.safe

pub make_swap_chain-IsSafe :
    (t : Attempt) (b : Bool) (a : App) → Has true b a.host → RunIsSafe (make_swap_chain t a)
unfolding make_swap_chain apply_fullscreen reset_swap_chain
make_swap_chain-IsSafe t b a v =
    let shown = reset_swap_chain a in
    let again = reset_swap_chain (record shown { wanted = windowed }) in
    let after = λ (r : Run). RunIsSafe (r >>= λ c. resize_back_buffer t.resize c) in
    if_cases RunIsSafe t.has_rect _ (terminated a)
      (λ _.
        if_cases after (not (is_exclusive shown.current) || t.is_exclusive_ok) _ _
          (λ _. resize_back_buffer-IsSafe t.resize b shown v)
          (λ _.
            if_cases after t.has_rect_again _ _ (λ _. resize_back_buffer-IsSafe t.resize b again v)
              (λ _. v.safe)))
      (λ _. v.safe)

abbrev pub InitIsSafe : App × Option Run → Type 0
InitIsSafe (a, none) = all is_safe a.host.calls ≡ true
InitIsSafe (a, some r) = RunIsSafe r

pub allow_mode-host : (t : Attempt) (a : App) → (allow_mode t a).host ≡ a.host
unfolding allow_mode
allow_mode-host t a =
    if_cases (λ (b : App). b.host ≡ a.host) (is_borderless a.wanted && not t.changes_mode) _ a
      (λ _. refl) (λ _. refl)

open_device-Has :
    (t : Attempt) (a : App)
    → all is_safe a.host.calls ≡ true
    → Has true false (open_device t a).host
unfolding open_device
open_device-Has t a v =
    let loaded = record a { initialized = true; wanted = t.preferred } in
    let told = tell set_devices loaded in
    let before : Has a.host.device a.host.back_buffer a.host = record {
      safe = v;
      of_device = refl;
      of_back_buffer = refl;
    } in
    rw (allow_mode-host t (tell before_back_buffer_change told)) (
      tell-before_change true a.host.back_buffer told
        (tell-set_devices a.host.device a.host.back_buffer loaded before))

pub init_d3d-IsSafe :
    (t : Attempt) (a : App) → all is_safe a.host.calls ≡ true → InitIsSafe (init_d3d t a)
unfolding init_d3d
init_d3d-IsSafe t a v =
    if_cases InitIsSafe (not t.inits) _ _ (λ _. v)
      (λ _.
        if_cases InitIsSafe (not t.has_outputs) _ _ (λ _. v)
          (λ _. make_swap_chain-IsSafe t false (open_device t a) (open_device-Has t a v)))

device_reset-IsSafe : (a : App) → IsSafe a → IsSafe (tell device_reset a)
unfolding tell
device_reset-IsSafe a v =
    let w =
      tell-device_reset a.host.device a.host.back_buffer a
        (record { safe = v.safe; of_device = refl; of_back_buffer = refl }) in
    record { safe = w.safe; ready = rw (w.of_device, w.of_back_buffer) v.ready }

pub first_draw-IsSafe : (a : App) → IsSafe a → IsSafe (tell before_first_draw a)
unfolding tell
first_draw-IsSafe a v =
    let w =
      tell-first_draw a.host.device a.host.back_buffer a
        (record { safe = v.safe; of_device = refl; of_back_buffer = refl }) in
    record { safe = w.safe; ready = rw (w.of_device, w.of_back_buffer) v.ready }

after_attempt-IsSafe :
    (again : App → Run) (x : App × Option Run)
    → ((a : App) → all is_safe a.host.calls ≡ true → RunIsSafe (again a))
    → InitIsSafe x
    → RunIsSafe (after_attempt again x)
unfolding after_attempt
after_attempt-IsSafe again (a, none) keep v = keep a v
after_attempt-IsSafe again (a, some (running b)) keep v = device_reset-IsSafe b v
after_attempt-IsSafe again (a, some (terminated b)) keep v = v

retry-IsSafe :
    (n i : ℕ) (answers : ℕ → Attempt) (a : App)
    → all is_safe a.host.calls ≡ true
    → RunIsSafe (retry n i answers a)
unfolding retry uninit
retry-IsSafe zero i answers a v = v
retry-IsSafe (suc n) i answers a v =
    after_attempt-IsSafe (retry n (i + 1) answers) _ (λ b w. retry-IsSafe n (i + 1) answers b w)
      (init_d3d-IsSafe (answers i) (if ltb 0 i then uninit a else a) (
        if_cases (λ (c : App). all is_safe c.host.calls ≡ true) (ltb 0 i) (uninit a) a (λ _. v)
          (λ _. v)))

pub reinit-IsSafe : (answers : ℕ → Attempt) (a : App) → IsSafe a → RunIsSafe (reinit answers a)
unfolding reinit
reinit-IsSafe answers a v = retry-IsSafe 6 0 answers a v.safe
