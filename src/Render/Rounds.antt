-- ===== src/Render/Rounds.antt =====
-- The loop of the render thread of src/core/MGDFD3DAppFramework.cpp (D3DAppFramework::Run), and what other
-- threads do between its rounds.
pub mod Calls
use mgdf.Render.Host.{
  Callback, before_first_draw, before_back_buffer_change, draw, after_present, shut_down,
  create_module,
}
use mgdf.Render.Window.{
  DisplayChangeType, window_move, window_resize, window_maximize, display_change, DisplayChange,
  pop, Message, Surface, handle,
}
use mgdf.Render.Devices.{
  FullScreen, is_exclusive, is_borderless, App, new_app, Run, running, terminated, ◌>>=◌, Outcome,
  succeeded, removed, failed, Attempt, tell, uninit, prepare_reinit, resize_back_buffer,
  make_swap_chain, init_d3d, reinit,
}
use mgdf.Prelude.{
  ℕ, zero, suc, ◌+◌, ◌-◌, ◌*◌, ◌/◌, ◌%◌, ◌^◌, ◌≤◌, ◌<◌, min, max, ◌≡◌, refl, sym, ap, ◌∙◌, ◌≢◌, ◌↔◌,
  ◌⊎◌, inl, inr, Bool, true, false, not, ◌&&◌, ◌||◌, Option, none, some, List, [], ◌∷◌, ◌++◌, map,
  append-nil, append_assoc, arith, ltb, leb, ◌==◌, if◌then◌else◌, ltb→lt, lt→ltb, ==_iff, ==_refl,
  Bool-cases, if_cases, Option-cases, length, get_elem?, take, drop, keep, any, all, null,
  length-append, length-take, length-drop, length-keep-le, keep-append, Text, codes, same_text,
  same_text_refl, same_text→eq, same_text_ne, find, insert, assign, find-insert, find-assign,
}

-- How a part of a round ends: the round goes on to draw, or skips that (`continue`), or the process ends.
pub data Next : Type 0 where
  draws skips ends : App → Next

-- The answers to a round: of `GetWindowRect`, whether `GetClientRect` gives a size that is not empty,
-- whether a change of the back buffer is pending, and those of setting up a swap chain.
pub record Events : Type 0 where
  pub has_window_rect : Bool
  pub has_client : Bool
  pub is_change_pending : Bool
  pub attempt : Attempt

abbrev is_recorded : Option DisplayChange → Bool
is_recorded none = false
is_recorded (some m) = elim m.kind [ window_move ↦ true | window_resize ↦ true | _ ↦ false ]

abbrev is_resize : Option DisplayChange → Bool
is_resize none = false
is_resize (some m) = elim m.kind [ window_resize ↦ true | window_maximize ↦ true | _ ↦ false ]

to_next : Run → Next
to_next (running a) = draws a
to_next (terminated a) = ends a

-- A change of the window's size.
on_resize : Events → App → Next
unfolding to_next
on_resize e a =
    if not e.has_client || is_exclusive a.current
    then skips a
    else to_next (resize_back_buffer e.attempt.resize (tell before_back_buffer_change a))

-- A change of the back buffer that the game has asked for. If the window's mode cannot be changed, the
-- fullscreen setting goes back to what is shown.
on_change : Events → App → Next
unfolding to_next
on_change e a =
    let b = tell before_back_buffer_change a in
    let was = is_borderless b.current in
    let is = is_borderless b.wanted in
    let differ = (was && not is) || (not was && is) in
    let c = if differ && not e.attempt.changes_mode then record b { wanted = b.current } else b in
    to_next (make_swap_chain e.attempt c)

-- The part of a round that looks for messages and changes, on the message that is popped.
on_events : Events → Option DisplayChange → App → Next
unfolding on_resize on_change
on_events e m a =
    if (is_recorded m && not a.current.full_screen) && not e.has_window_rect
    then ends a
    else if is_resize m
    then on_resize e a
    else if e.is_change_pending
    then on_change e a
    else draws a

check_events : Events → App → Next
unfolding on_events
check_events e a =
    let (m, rest) = pop a.window.pending in
    on_events e m (record a { window = record a.window { pending = rest } })

-- The answers to the part that draws: whether the wait for the frame succeeds, whether the device was removed
-- after it, and the results of `RTPresent` and `RTEndFrame`.
pub record Frame : Type 0 where
  pub waits : Bool
  pub is_removed : Bool
  pub present : Outcome
  pub end_frame : Outcome

abbrev result_of : Outcome → Outcome → Outcome
result_of succeeded e = e
result_of p e = p

settle : Outcome → App → Run
settle succeeded a = running a
settle removed a = running (prepare_reinit a)
settle failed a = terminated a

-- The part of a round that draws.
draw_frame : Frame → App → Run
unfolding settle
draw_frame f a =
    if a.window.minimized || not a.initialized
    then running a
    else if f.is_removed
    then running (prepare_reinit a)
    else if not f.waits
    then running a
    else settle (result_of f.present f.end_frame) (tell after_present (tell draw a))

after_events : Frame → Next → Run
unfolding draw_frame
after_events f (draws a) = draw_frame f a
after_events f (skips a) = running a
after_events f (ends a) = terminated a

pub record Round : Type 0 where
  pub is_late : Bool
  pub events : Events
  pub attempts : ℕ → Attempt
  pub frame : Frame

-- A round; `is_late` is whether the deadline for the reset has passed.
round : Round → App → Run
unfolding check_events after_events
round r a =
    if a.awaiting_reset
    then (if r.is_late then terminated a else running a)
    else if a.initialized
    then after_events r.frame (check_events r.events a)
    else (reinit r.attempts a >>= λ b. draw_frame r.frame b)

-- What happens: the module is created, the render thread starts and makes rounds; the game sets the
-- fullscreen mode and is ready for a reset (`QueueResetDevice`), and the window gets messages.
pub data Step : Type 0 where
  creates_module starts : Step
  rounds : Round → Step
  wants : FullScreen → Step
  resets : Step
  gets : Message → Step

step : Step → App → Run
unfolding round
step creates_module a = running (record a { host = create_module a.host })
step starts a = running (tell before_first_draw a)
step (rounds r) a = round r a
step (wants f) a = running (record a { wanted = f })
step resets a = running (record a { awaiting_reset = false })
step (gets m) a =
    let s : Surface = record {
      has_swap_chain = a.has_swap_chain;
      full_screen = a.current.full_screen;
    } in
    running (record a { window = handle s m a.window })

steps : List Step → App → Run
unfolding step
steps [] a = running a
steps (s ∷ rest) a = step s a >>= λ b. steps rest b

started : App × Option Run → Run
started (a, none) = terminated a
started (a, some r) = r

-- `InitWindow`, and what follows it.
pub life : FullScreen → Attempt → List Step → Run
unfolding started steps
life wanted t ss = started (init_d3d t (new_app wanted)) >>= λ a. steps ss a

-- The end of the process: the host's `RTShutDown`, and `RTUninitD3D`.
close : App → App
close a = uninit (tell shut_down a)
