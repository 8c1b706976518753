-- ===== src/Render/Rounds/Calls.antt =====
-- What the module is told over a whole run of the render thread.
use mgdf.Render.Host.{ModuleCall, create_module, before_back_buffer_change, draw, after_present}
use mgdf.Render.Window.{DisplayChange, pop}
use mgdf.Render.Devices.{
  FullScreen, is_exclusive, is_borderless, App, new_app, Run, running, terminated, ◌>>=◌, Outcome,
  succeeded, removed, failed, Attempt, tell, resize_back_buffer, make_swap_chain, init_d3d, reinit,
}
use mgdf.Render.Devices.Calls.{
  is_safe, Has, IsSafe, RunIsSafe, InitIsSafe, first_draw-IsSafe, tell-before_change, tell-frame,
  IsSafe-ready, prepare_reinit-IsSafe, resize_back_buffer-IsSafe, make_swap_chain-IsSafe,
  init_d3d-IsSafe, reinit-IsSafe,
}
use mgdf.Render.Rounds.{
  Next, draws, skips, ends, Events, is_recorded, is_resize, to_next, on_resize, on_change,
  on_events, check_events, Frame, result_of, settle, draw_frame, after_events, Round, round, Step,
  creates_module, starts, rounds, wants, resets, gets, step, steps, started, life,
}
use mgdf.Prelude.{
  ◌≡◌, refl, true, false, not, ◌&&◌, ◌||◌, Option, none, some, List, [], ◌∷◌, arith, if_cases, keep,
  all,
}

abbrev NextIsSafe : Next → Type 0
NextIsSafe (draws a) = IsSafe a
NextIsSafe (skips a) = IsSafe a
NextIsSafe (ends a) = all is_safe a.host.calls ≡ true

to_next-IsSafe : (r : Run) → RunIsSafe r → NextIsSafe (to_next r)
unfolding to_next
to_next-IsSafe (running a) v = v
to_next-IsSafe (terminated a) v = v

-- An initialized backend has a device and a back buffer.
IsSafe-Has : (a : App) → a.initialized ≡ true → IsSafe a → Has true true a.host
IsSafe-Has a e v =
    let both : (a.host.device && a.host.back_buffer) ≡ true = rw e at v.ready in
    record {
      safe = v.safe;
      of_device = ground (arith, both);
      of_back_buffer = ground (arith, both);
    }

module _ (e : Events) where
  on_resize-IsSafe : (a : App) → a.initialized ≡ true → IsSafe a → NextIsSafe (on_resize e a)
  unfolding on_resize
  on_resize-IsSafe a on v =
      let w = tell-before_change true true a (IsSafe-Has a on v) in
      if_cases NextIsSafe (not e.has_client || is_exclusive a.current) (skips a) _ (λ _. v)
        (λ _.
          to_next-IsSafe (resize_back_buffer e.attempt.resize (tell before_back_buffer_change a))
            (resize_back_buffer-IsSafe e.attempt.resize false (tell before_back_buffer_change a) w))

  on_change-IsSafe : (a : App) → a.initialized ≡ true → IsSafe a → NextIsSafe (on_change e a)
  unfolding on_change
  on_change-IsSafe a on v =
      let b = tell before_back_buffer_change a in
      let w = tell-before_change true true a (IsSafe-Has a on v) in
      let was = is_borderless b.current in
      let is = is_borderless b.wanted in
      if_cases (λ (c : App). NextIsSafe (to_next (make_swap_chain e.attempt c)))
        (((was && not is) || (not was && is)) && not e.attempt.changes_mode)
        (record b { wanted = b.current }) b
        (λ _.
          let c = record b { wanted = b.current } in
          to_next-IsSafe (make_swap_chain e.attempt c) (make_swap_chain-IsSafe e.attempt false c w))
        (λ _.
          to_next-IsSafe (make_swap_chain e.attempt b) (make_swap_chain-IsSafe e.attempt false b w))

  on_events-IsSafe :
      (m : Option DisplayChange) (a : App)
      → a.initialized ≡ true
      → IsSafe a
      → NextIsSafe (on_events e m a)
  unfolding on_events
  on_events-IsSafe m a on v =
      if_cases NextIsSafe ((is_recorded m && not a.current.full_screen) && not e.has_window_rect)
        (ends a) _ (λ _. v.safe)
        (λ _.
          if_cases NextIsSafe (is_resize m) (on_resize e a) _ (λ _. on_resize-IsSafe a on v)
            (λ _.
              if_cases NextIsSafe e.is_change_pending (on_change e a) (draws a)
                (λ _. on_change-IsSafe a on v) (λ _. v)))

settle-IsSafe : (o : Outcome) (a : App) → Has true true a.host → RunIsSafe (settle o a)
unfolding settle
settle-IsSafe succeeded a v = IsSafe-ready a v
settle-IsSafe removed a v = prepare_reinit-IsSafe true a v
settle-IsSafe failed a v = v.safe

draw_frame-IsSafe : (f : Frame) (a : App) → IsSafe a → RunIsSafe (draw_frame f a)
unfolding draw_frame
draw_frame-IsSafe f a v =
    if_cases RunIsSafe (a.window.minimized || not a.initialized) (running a) _ (λ _. v)
      (λ off.
        let w = IsSafe-Has a (ground (arith, off)) v in
        if_cases RunIsSafe f.is_removed _ _ (λ _. prepare_reinit-IsSafe true a w)
          (λ _.
            if_cases RunIsSafe (not f.waits) (running a) _ (λ _. v)
              (λ _.
                settle-IsSafe (result_of f.present f.end_frame) (tell after_present (tell draw a))
                  (tell-frame a w))))

after_events-IsSafe : (f : Frame) (n : Next) → NextIsSafe n → RunIsSafe (after_events f n)
unfolding after_events
after_events-IsSafe f (draws a) v = draw_frame-IsSafe f a v
after_events-IsSafe f (skips a) v = v
after_events-IsSafe f (ends a) v = v

-- What follows a run that is safe, if it keeps that.
next-IsSafe :
    (r : Run) (f : App → Run)
    → RunIsSafe r
    → ((a : App) → IsSafe a → RunIsSafe (f a))
    → RunIsSafe (r >>= f)
next-IsSafe (running a) f v keep = keep a v
next-IsSafe (terminated a) f v keep = v

round-IsSafe : (r : Round) (a : App) → IsSafe a → RunIsSafe (round r a)
unfolding round check_events
round-IsSafe r a v =
    let seen = record a { window = record a.window { pending = (pop a.window.pending).1 } } in
    if_cases RunIsSafe a.awaiting_reset _ _
      (λ _. if_cases RunIsSafe r.is_late (terminated a) (running a) (λ _. v.safe) (λ _. v))
      (λ _.
        if_cases RunIsSafe a.initialized _ _
          (λ on. after_events-IsSafe r.frame (on_events r.events (pop a.window.pending).0 seen) (
            on_events-IsSafe r.events (pop a.window.pending).0 seen on
              (record { safe = v.safe; ready = v.ready })))
          (λ _.
            next-IsSafe (reinit r.attempts a) (λ b. draw_frame r.frame b)
              (reinit-IsSafe r.attempts a v) (λ b w. draw_frame-IsSafe r.frame b w)))

step-IsSafe : (s : Step) (a : App) → IsSafe a → RunIsSafe (step s a)
unfolding step create_module
step-IsSafe creates_module a v = record { safe = v.safe; ready = v.ready }
step-IsSafe starts a v = first_draw-IsSafe a v
step-IsSafe (rounds r) a v = round-IsSafe r a v
step-IsSafe (wants f) a v = record { safe = v.safe; ready = v.ready }
step-IsSafe resets a v = record { safe = v.safe; ready = v.ready }
step-IsSafe (gets m) a v = record { safe = v.safe; ready = v.ready }

steps-IsSafe : (ss : List Step) (a : App) → IsSafe a → RunIsSafe (steps ss a)
unfolding steps
steps-IsSafe [] a v = v
steps-IsSafe (s ∷ rest) a v =
    next-IsSafe (step s a) (λ b. steps rest b) (step-IsSafe s a v) (λ b w. steps-IsSafe rest b w)

started-IsSafe : (x : App × Option Run) → InitIsSafe x → RunIsSafe (started x)
unfolding started
started-IsSafe (a, none) v = v
started-IsSafe (a, some r) v = v

-- The callbacks that the module had, as far as the run came.
pub calls_of : Run → List ModuleCall
calls_of (running a) = a.host.calls
calls_of (terminated a) = a.host.calls

RunIsSafe-calls : (r : Run) → RunIsSafe r → all is_safe (calls_of r) ≡ true
unfolding calls_of
RunIsSafe-calls (running a) v = v.safe
RunIsSafe-calls (terminated a) v = v

-- Over the whole life of the application, with device losses, resizes, changes of the back buffer and failed
-- attempts at any time, and whatever the window system and the backend answer: the module is called to draw,
-- and told of a presented frame, only while the host has a device and a back buffer; it is told of a new back
-- buffer only once these are there; and when it is told of a reset of the device, the device is still there
-- and the back buffer is not, nor is it when it is told that the back buffer changes.
pub life-is_safe :
    (wanted : FullScreen) (t : Attempt) (ss : List Step)
    → all is_safe (calls_of (life wanted t ss)) ≡ true
unfolding life
life-is_safe wanted t ss =
    RunIsSafe-calls (started (init_d3d t (new_app wanted)) >>= λ a. steps ss a) (
      next-IsSafe (started (init_d3d t (new_app wanted))) (λ a. steps ss a)
        (started-IsSafe (init_d3d t (new_app wanted)) (init_d3d-IsSafe t (new_app wanted) refl))
        (λ a v. steps-IsSafe ss a v))
