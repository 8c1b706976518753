-- ===== src/Render/Devices.antt =====
-- The devices of the render thread of src/core/MGDFD3DAppFramework.cpp: how they are set up, taken down and
-- set up again. What the window system and the render backend answer is an argument; an error that the
-- backend itself calls fatal is not among the answers.
pub mod Calls
pub mod Retries
pub mod Lost
use mgdf.Render.Host.{
  Host, Callback, before_first_draw, set_devices, before_back_buffer_change, back_buffer_change,
  before_device_reset, device_reset, draw, after_present, shut_down, receive, create_module,
  new_host,
}
use mgdf.Render.Window.{
  DisplayChange, window_move, window_resize, window_maximize, display_change, pop, Window,
  new_window, Message, handle,
}
use mgdf.Prelude.{
  ℕ, zero, suc, ◌+◌, ◌-◌, ◌*◌, ◌/◌, ◌%◌, ◌^◌, ◌≤◌, ◌<◌, min, max, ◌≡◌, refl, sym, ap, ◌∙◌, ◌≢◌, ◌↔◌,
  ◌⊎◌, inl, inr, Bool, true, false, not, ◌&&◌, ◌||◌, Option, none, some, List, [], ◌∷◌, ◌++◌, map,
  append-nil, append_assoc, arith, ltb, leb, ◌==◌, if◌then◌else◌, ltb→lt, lt→ltb, ==_iff, ==_refl,
  Bool-cases, if_cases, Option-cases, length, get_elem?, take, drop, keep, any, all, null,
  length-append, length-take, length-drop, length-keep-le, keep-append, Text, codes, same_text,
  same_text_refl, same_text→eq, same_text_ne, find, insert, assign, find-insert, find-assign,
}

-- MGDFFullScreenDesc.
pub record FullScreen : Type 0 where
  pub full_screen : Bool
  pub exclusive_mode : Bool

abbrev pub windowed : FullScreen
windowed = record { full_screen = false; exclusive_mode = false }

abbrev pub is_exclusive : FullScreen → Bool
is_exclusive f = f.full_screen && f.exclusive_mode

abbrev pub is_borderless : FullScreen → Bool
is_borderless f = f.full_screen && not f.exclusive_mode

-- `initialized` is what `RTIsInitialized` answers, `current` is `_rtCurrentFullScreen`, and `wanted` what the
-- render settings have.
pub record App : Type 0 where
  pub window : Window
  pub initialized : Bool
  pub has_swap_chain : Bool
  pub awaiting_reset : Bool
  pub current : FullScreen
  pub wanted : FullScreen
  pub host : Host

abbrev pub new_app : FullScreen → App
new_app wanted = record {
  window = new_window;
  initialized = false;
  has_swap_chain = false;
  awaiting_reset = false;
  current = windowed;
  wanted = wanted;
  host = new_host;
}

-- FATALERROR ends the process.
pub data Run : Type 0 where
  running terminated : App → Run

infixl 5 ◌>>=◌
abbrev pub ◌>>=◌ : Run → (App → Run) → Run
running a >>= f = f a
terminated a >>= f = terminated a

-- An HRESULT: success, DXGI_ERROR_DEVICE_REMOVED or DXGI_ERROR_DEVICE_RESET, or another error.
pub data Outcome : Type 0 where
  succeeded removed failed : Outcome

-- A callback; what the app's methods do besides (RTOnX) is in other components.
pub tell : Callback → App → App
unfolding receive
tell c a = record a { host = receive c a.host }

-- `RTUninitD3D`.
pub uninit : App → App
uninit a = record a { initialized = false; has_swap_chain = false }

-- `RTPrepareToReinitD3D`.
pub prepare_reinit : App → App
unfolding tell uninit
prepare_reinit a =
    uninit (
      tell before_device_reset
        (tell before_back_buffer_change (record a { awaiting_reset = true })))

-- `RTOnResetSwapChain` and `RTCreateSwapChain`.
reset_swap_chain : App → App
reset_swap_chain a = record a { current = a.wanted; has_swap_chain = true }

-- `RTResizeBackBuffer`, on what the backend answers.
pub resize_back_buffer : Outcome → App → Run
unfolding tell prepare_reinit
resize_back_buffer succeeded a = running (tell back_buffer_change a)
resize_back_buffer removed a = running (prepare_reinit a)
resize_back_buffer failed a = terminated a

-- The fullscreen preference, which `RTSetDevices` loads, and the answers: of the backend's `RTInit`, of the check of the outputs, of a change of the window's mode, of
-- `GetClientRect` before the swap chain is made and when it is made again, of the switch to exclusive mode, and
-- of the resize.
pub record Attempt : Type 0 where
  pub preferred : FullScreen
  pub inits : Bool
  pub has_outputs : Bool
  pub changes_mode : Bool
  pub has_rect : Bool
  pub has_rect_again : Bool
  pub is_exclusive_ok : Bool
  pub resize : Outcome

-- `RTApplyFullscreen`.
apply_fullscreen : Attempt → App → Run
unfolding reset_swap_chain
apply_fullscreen t a =
    if not (is_exclusive a.current) || t.is_exclusive_ok
    then running a
    else if t.has_rect_again
    then running (reset_swap_chain (record a { wanted = windowed }))
    else terminated (record a { wanted = windowed })

-- The last part of `RTInitD3D` and of a change of the back buffer.
pub make_swap_chain : Attempt → App → Run
unfolding reset_swap_chain apply_fullscreen resize_back_buffer
make_swap_chain t a =
    if t.has_rect
    then (apply_fullscreen t (reset_swap_chain a) >>= λ b. resize_back_buffer t.resize b)
    else terminated a

-- A borderless window that the window system refuses is no longer wanted.
pub allow_mode : Attempt → App → App
allow_mode t a =
    if is_borderless a.wanted && not t.changes_mode then record a { wanted = windowed } else a

-- `RTOnInitDevice` and what is done before the swap chain is made.
pub open_device : Attempt → App → App
unfolding tell allow_mode
open_device t a =
    let loaded = record a { initialized = true; wanted = t.preferred } in
    allow_mode t (tell before_back_buffer_change (tell set_devices loaded))

-- `RTInitD3D`: `none` is the result false, with the state that it leaves.
pub init_d3d : Attempt → App → App × Option Run
unfolding open_device make_swap_chain
init_d3d t a =
    if not t.inits
    then (record a { initialized = false }, none)
    else if not t.has_outputs
    then (record a { initialized = true }, none)
    else (open_device t a, some (make_swap_chain t (open_device t a)))

-- What `RTReinitD3D` does after an attempt.
after_attempt : (App → Run) → App × Option Run → Run
unfolding tell
after_attempt again (a, none) = again a
after_attempt again (a, some r) = r >>= λ b. running (tell device_reset b)

-- The loop of `RTReinitD3D`, on the number of attempts that are left.
retry : ℕ → ℕ → (ℕ → Attempt) → App → Run
unfolding init_d3d after_attempt uninit
retry zero attempt answers a = terminated a
retry (suc n) attempt answers a =
    after_attempt (retry n (attempt + 1) answers)
      (init_d3d (answers attempt) (if ltb 0 attempt then uninit a else a))

-- `RTReinitD3D`; `maxRetries` is 5.
pub reinit : (ℕ → Attempt) → App → Run
unfolding retry
reinit answers a = retry 6 0 answers a
