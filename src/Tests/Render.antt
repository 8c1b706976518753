-- ===== src/Tests/Render.antt =====
-- The properties of rendering at concrete messages, attempts, rounds, frames, adapters and modes.
use mgdf.Timers.Frames.{start}
use mgdf.Render.Window.{window_move, window_resize, size_restored, new_change}
use mgdf.Render.Window.Queue.{Push, push_all, runs, runs_from, push_all-runs}
use mgdf.Render.Devices.{
  App, windowed, new_app, running, Outcome, succeeded, removed, Attempt, reinit,
}
use mgdf.Render.Devices.Calls.{is_safe}
use mgdf.Render.Devices.Retries.{first_ready, EndsAs, reinit-EndsAs}
use mgdf.Render.Devices.Lost.{IsToldInVain, reinit-removed}
use mgdf.Render.Rounds.{
  Frame, Round, Step, creates_module, starts, rounds, wants, resets, gets, life,
}
use mgdf.Render.Rounds.Calls.{calls_of, life-is_safe}
use mgdf.Render.Frames
use mgdf.Render.Frames.{
  Device, init_device, reaches, FrameInfo, began, wait_for_frame, wait_for_fence, opens, closes,
  mark_all, count_frame, end_of_frame, after_wait, frame, frames, submitted,
}
use mgdf.Render.Frames.InFlight.{HasCompleted, wait_for_frame-completed, wait_for_frame-ends}
use mgdf.Render.Adapters.{Adapter, choose_adapter}
use mgdf.Render.Adapters.Best.{IsBest, choose_adapter-IsBest}
use mgdf.Render.Displays.{Mode, is_offered, Key, Screen, display_modes}
use mgdf.Render.Displays.Merging.{AreIncreasing, shown, together, display_modes-together}
use mgdf.Prelude.{
  ℕ, ◌≤◌, ◌≡◌, refl, Bool, true, false, Option, none, some, List, [], ◌∷◌, arith, ltb, keep, all,
}

abbrev pushes : List Push
pushes =
    (window_resize, some (800, 600)) ∷ (window_resize, some (1024, 768)) ∷ (window_move, none) ∷ []

push_all-runs_example :
    (push_all pushes [] ≡ runs pushes)
    × (push_all pushes (new_change window_resize (some (640, 480)) ∷ [])
        ≡ runs_from (new_change window_resize (some (640, 480))) pushes)
push_all-runs_example = push_all-runs pushes [] (new_change window_resize (some (640, 480)))

abbrev attempt : Bool → Outcome → Attempt
attempt has_outputs resize = record {
  preferred = windowed;
  inits = true;
  has_outputs = has_outputs;
  changes_mode = true;
  has_rect = true;
  has_rect_again = true;
  is_exclusive_ok = true;
  resize = resize;
}

-- The first two attempts find no output.
abbrev answers : Outcome → ℕ → Attempt
answers resize i = attempt (ltb 1 i) resize

abbrev app : App
app = new_app windowed

reinit-EndsAs_example :
    EndsAs
      (answers succeeded)
      app
      (reinit (answers succeeded) app)
      (first_ready 6 0 (answers succeeded))
reinit-EndsAs_example = reinit-EndsAs (answers succeeded) app

abbrev app_with_module : App
app_with_module = record app { host = record app.host { has_module = true } }

reinit-removed_example :
    (b : App) × (reinit (answers removed) app_with_module ≡ running b) × IsToldInVain b
unfolding first_ready
reinit-removed_example = reinit-removed (answers removed) app_with_module 2 refl refl refl refl refl

abbrev drawing : Frame
drawing = record { waits = true; is_removed = false; present = succeeded; end_frame = succeeded }

abbrev a_round : Frame → Round
a_round f = record {
  is_late = false;
  events = record {
    has_window_rect = true;
    has_client = true;
    is_change_pending = true;
    attempt = attempt true succeeded;
  };
  attempts = answers succeeded;
  frame = f;
}

-- Frames, a resize, a change of the back buffer, the loss of the device, and its reset.
abbrev some_steps : List Step
some_steps =
    creates_module
    ∷ starts
    ∷ rounds (a_round drawing)
    ∷ gets (size_restored (1024, 768))
    ∷ rounds (a_round drawing)
    ∷ wants (record { full_screen = true; exclusive_mode = true })
    ∷ rounds (a_round (record drawing { present = removed }))
    ∷ rounds (a_round drawing)
    ∷ resets
    ∷ rounds (a_round drawing)
    ∷ []

life-is_safe_example :
    all is_safe (calls_of (life windowed (attempt true succeeded) some_steps)) ≡ true
life-is_safe_example = life-is_safe windowed (attempt true succeeded) some_steps

abbrev a_frame : ℕ → Frames.Frame
a_frame reached = record {
  times_out = false;
  wake = reaches reached;
  results = λ q. q;
  marks = opens 3 (some 9) ∷ closes 0 (some 9) ∷ [];
  answers = record { allocator_reset = true; list_reset = true; list_close = true };
  is_there = true;
  is_there_still = true;
  presents = true;
  signals = true;
}

abbrev three_frames : List Frames.Frame
three_frames = a_frame 0 ∷ a_frame 0 ∷ a_frame 1 ∷ []

abbrev device_of : Option Device → Device
device_of none = init_device start
device_of (some d) = d

three_done : Device
unfolding frames
three_done = device_of (frames three_frames (init_device start))

three_frames_done : frames three_frames (init_device start) ≡ some three_done
unfolding frames init_device three_done
three_frames_done = refl

abbrev next_info : FrameInfo
next_info = record { frame_ordinal = 4; completed_ordinal = 2; frame_slot = 0 }

next_began :
    wait_for_frame false (reaches 2) three_done ≡ began next_info (record three_done { fence = 2 })
unfolding frames init_device three_done wait_for_frame
next_began = refl

wait_for_frame-completed_example : HasCompleted next_info (record three_done { fence = 2 })
wait_for_frame-completed_example =
    wait_for_frame-completed start three_frames false (reaches 2) three_done
      (record three_done { fence = 2 }) next_info (omega arith) three_frames_done next_began

signalled_three : three_done.signalled ≤ 3
unfolding frames init_device three_done
signalled_three = omega arith

wait_for_frame-ends_example :
    (info : FrameInfo) × (e : Device) × (wait_for_frame false (reaches 3) three_done ≡ began info e)
wait_for_frame-ends_example =
    wait_for_frame-ends start three_frames three_done 3 (omega arith) three_frames_done
      signalled_three

abbrev adapters : List Adapter
adapters =
    record { software = true; device = some true; dedicated_memory = 9000 }
    ∷ record { software = false; device = some false; dedicated_memory = 8000 }
    ∷ record { software = false; device = some true; dedicated_memory = 4000 }
    ∷ record { software = false; device = some true; dedicated_memory = 4000 }
    ∷ record { software = false; device = none; dedicated_memory = 16000 }
    ∷ []

abbrev basic : Adapter
basic = record { software = true; device = some false; dedicated_memory = 0 }

choose_adapter-IsBest_example :
    IsBest adapters (choose_adapter basic (some adapters))
    × (choose_adapter basic none ≡ some basic)
choose_adapter-IsBest_example = choose_adapter-IsBest basic adapters

abbrev mode : ℕ → ℕ → ℕ → ℕ → Mode
mode width height rate format = record {
  width = width;
  height = height;
  numerator = rate;
  denominator = 1;
  format = format;
  scaled = false;
  stereo = false;
}

abbrev modes : List Mode
modes =
    mode 1920 1080 60 28
    ∷ mode 640 480 60 28
    ∷ mode 1280 720 60 28
    ∷ mode 1920 1080 144 28
    ∷ mode 1920 1080 60 10
    ∷ []

abbrev screen : Screen
screen = record { native_width = 1920; native_height = 1080; hdr_format = 10 }

display_modes-together_example :
    AreIncreasing (display_modes screen modes)
    × ((j : Key)
        → shown j (display_modes screen modes) ≡ together screen j none (keep is_offered modes))
display_modes-together_example = display_modes-together screen modes
