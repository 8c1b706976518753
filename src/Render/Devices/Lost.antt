-- ===== src/Render/Devices/Lost.antt =====
-- The device that is lost while D3DAppFramework::RTReinitD3D sets it up.
use mgdf.Render.Host.{
  Callback, before_first_draw, set_devices, before_back_buffer_change, back_buffer_change,
  before_device_reset, device_reset, draw, after_present, shut_down, Host, ModuleCall, forward,
  receive,
}
use mgdf.Render.Devices.{
  windowed, is_exclusive, App, Run, running, ◌>>=◌, removed, Attempt, tell, uninit, prepare_reinit,
  reset_swap_chain, resize_back_buffer, apply_fullscreen, make_swap_chain, open_device, reinit,
}
use mgdf.Render.Devices.Calls.{allow_mode-host}
use mgdf.Render.Devices.Retries.{first_ready, fresh, succeed, EndsAs, reinit-EndsAs}
use mathlib.Core.Path.{subst}
use mgdf.Prelude.{
  Bool-cases, inl, inr, ℕ, ◌+◌, ◌≡◌, refl, ap, ◌∙◌, true, false, not, ◌||◌, Option, none, some,
  List, [], ◌∷◌, ◌++◌, arith, ltb, if_cases,
}

-- The last callback that the module was given.
abbrev last_call : List ModuleCall → Option ModuleCall
last_call [] = none
last_call (c ∷ []) = some c
last_call (c ∷ d ∷ rest) = last_call (d ∷ rest)

last_call-append : (xs : List ModuleCall) (c : ModuleCall) → last_call (xs ++ c ∷ []) ≡ some c
last_call-append [] c = refl
last_call-append (x ∷ []) c = refl
last_call-append (x ∷ y ∷ rest) c = last_call-append (y ∷ rest) c

forward-has_module : (c : Callback) (h : Host) → (forward c h).has_module ≡ h.has_module
unfolding forward
forward-has_module c h =
    if_cases (λ (x : Host). x.has_module ≡ h.has_module) h.has_module _ h (λ _. refl) (λ _. refl)

tell-has_module : (c : Callback) (a : App) → (tell c a).host.has_module ≡ a.host.has_module
unfolding tell receive
tell-has_module before_first_draw a = forward-has_module before_first_draw a.host
tell-has_module set_devices a = refl
tell-has_module before_back_buffer_change a =
    forward-has_module before_back_buffer_change (record a.host { back_buffer = false })
tell-has_module back_buffer_change a =
    forward-has_module back_buffer_change (record a.host { back_buffer = true })
tell-has_module before_device_reset a = forward-has_module before_device_reset a.host
tell-has_module device_reset a = forward-has_module device_reset a.host
tell-has_module draw a = forward-has_module draw a.host
tell-has_module after_present a =
    forward-has_module after_present
      (record a.host { rendered_frames = a.host.rendered_frames + 1 })
tell-has_module shut_down a = forward-has_module shut_down a.host

open_device-has_module :
    (t : Attempt) (a : App) → (open_device t a).host.has_module ≡ a.host.has_module
unfolding open_device
open_device-has_module t a =
    let loaded = record a { initialized = true; wanted = t.preferred } in
    let told = tell set_devices loaded in
    rw (allow_mode-host t (tell before_back_buffer_change told))
      (tell-has_module before_back_buffer_change told ∙ tell-has_module set_devices loaded)

prepare_reinit-has_module : (a : App) → (prepare_reinit a).host.has_module ≡ a.host.has_module
unfolding prepare_reinit uninit
prepare_reinit-has_module a =
    let waits = record a { awaiting_reset = true } in
    tell-has_module before_device_reset (tell before_back_buffer_change waits)
    ∙ tell-has_module before_back_buffer_change waits

prepare_reinit-down : (a : App) → (prepare_reinit a).initialized ≡ false
unfolding prepare_reinit uninit
prepare_reinit-down a = refl

prepare_reinit-awaits : (a : App) → (prepare_reinit a).awaiting_reset ≡ true
unfolding prepare_reinit uninit tell
prepare_reinit-awaits a = refl

fresh-has_module : (k : ℕ) (a : App) → (fresh k a).host.has_module ≡ a.host.has_module
unfolding uninit
fresh-has_module k a =
    if_cases (λ (x : App). x.host.has_module ≡ a.host.has_module) (ltb 0 k) (uninit a) a (λ _. refl)
      (λ _. refl)

prepare_reinit-device : (a : App) → (prepare_reinit a).host.device ≡ false
unfolding prepare_reinit uninit tell receive
prepare_reinit-device a = refl

-- A resize that finds the device removed takes it down, also after a switch to exclusive mode was refused.
make_swap_chain-removed :
    (t : Attempt) (a : App)
    → t.has_rect ≡ true
    → (t.is_exclusive_ok || t.has_rect_again) ≡ true
    → t.resize ≡ removed
    → (b : App) × (make_swap_chain t a ≡ running (prepare_reinit b)) × (b.host ≡ a.host)
unfolding make_swap_chain apply_fullscreen resize_back_buffer reset_swap_chain
make_swap_chain-removed t a rect again lost =
    let shown = reset_swap_chain a in
    let shown_again = reset_swap_chain (record shown { wanted = windowed }) in
    elim (Bool-cases (not (is_exclusive shown.current) || t.is_exclusive_ok)) [
      | inl as_wanted ↦ (shown, rw (rect, as_wanted, lost) refl, refl)
      | inr refused ↦
          let read_again : t.has_rect_again ≡ true = ground (arith, again, refused) in
          (shown_again, rw (rect, refused, read_again, lost) refl, refl)
    ]

-- The module was last told of a reset of the device, and the host has no device.
pub record IsToldInVain (a : App) : Type 0 where
  pub is_down : a.initialized ≡ false
  pub awaits : a.awaiting_reset ≡ true
  pub without_device : a.host.device ≡ false
  pub told :
      (c : ModuleCall) × (last_call a.host.calls ≡ some c)
      × (c.callback ≡ device_reset)
      × (c.device ≡ false)

forward_told :
    (c : Callback) (h : Host)
    → h.has_module ≡ true
    → forward c h ≡ record h {
      calls =
          h.calls ++ record { callback = c; device = h.device; back_buffer = h.back_buffer } ∷ [];
    }
unfolding forward
forward_told c h m = rw m refl

tell-IsToldInVain :
    (a : App) → a.host.has_module ≡ true → IsToldInVain (tell device_reset (prepare_reinit a))
unfolding tell receive
tell-IsToldInVain a m =
    let h = (prepare_reinit a).host in
    let call : ModuleCall = record {
      callback = device_reset;
      device = h.device;
      back_buffer = h.back_buffer;
    } in
    let told : forward device_reset h ≡ record h { calls = h.calls ++ call ∷ [] } =
      forward_told device_reset h (prepare_reinit-has_module a ∙ m) in
    record {
      is_down = prepare_reinit-down a;
      awaits = prepare_reinit-awaits a;
      without_device = ap (λ (x : Host). x.device) told ∙ prepare_reinit-device a;
      told = (
        call,
        ap (λ (x : Host). last_call x.calls) told ∙ last_call-append h.calls call,
        refl,
        prepare_reinit-device a,
      );
    }

-- Where there is a module: when a lost device is set up again, the size of the window can be read (once more
-- if exclusive mode is refused), and the resize of the back buffer finds the device removed once more, then the
-- process goes on, and the device is down and awaits a reset; but the module is told after that that the
-- device was reset, although the host has none.
pub reinit-removed :
    (answers : ℕ → Attempt) (a : App) (k : ℕ)
    → a.host.has_module ≡ true
    → first_ready 6 0 answers ≡ some k
    → (answers k).has_rect ≡ true
    → ((answers k).is_exclusive_ok || (answers k).has_rect_again) ≡ true
    → (answers k).resize ≡ removed
    → (b : App) × (reinit answers a ≡ running b) × IsToldInVain b
unfolding succeed
reinit-removed answers a k m at_k rect again lost =
    let t = answers k in
    let opened = open_device t (fresh k a) in
    let (b, made, same_host) = make_swap_chain-removed t opened rect again lost in
    let there : b.host.has_module ≡ true =
      ap (λ (h : Host). h.has_module) same_host
      ∙ open_device-has_module t (fresh k a)
      ∙ fresh-has_module k a
      ∙ m in
    let ends : reinit answers a ≡ succeed t (fresh k a) =
      subst (EndsAs answers a (reinit answers a)) at_k (reinit-EndsAs answers a) in
    (
      tell device_reset (prepare_reinit b),
      ends ∙ ap (λ (r : Run). r >>= λ c. running (tell device_reset c)) made,
      tell-IsToldInVain b there,
    )
