-- ===== src/Tests/Input.antt =====
-- The properties of the input at concrete events.
use mgdf.Input.{Event, Input, keyboard, mouse}
use mgdf.Input.Keys.{last_event, was_released}
use mgdf.Input.Keys.Simulation.{process_sim-handle_input, IsIdle, down_or}
use mgdf.Input.{handle_input, process_sim}
use mgdf.Prelude.{◌≡◌, refl, true, false, none, List, [], ◌∷◌, arith, ◌==◌}

abbrev idle : Input
idle = record {
  pending_dx = 0;
  pending_dy = 0;
  pending_dz = 0;
  pending_left = (0, false);
  pending_middle = (0, false);
  pending_right = (0, false);
  pending_key_down = λ k. 0;
  key_down_events = [];
  key_press_events = [];
  dx = 0;
  dy = 0;
  dz = 0;
  left = (false, false);
  middle = (false, false);
  right = (false, false);
  key_down = λ k. k == 65;
  key_press = λ k. false;
}

idle-IsIdle : IsIdle idle
idle-IsIdle = (λ k. refl, refl, refl)

abbrev moved : Event
moved = mouse 3 4 none record {
  left_down = true;
  left_up = false;
  middle_down = false;
  middle_up = false;
  right_down = false;
  right_up = false;
}

-- The key A, which was down, comes up; B goes down, and the mouse moves.
abbrev typed : List Event
typed = keyboard 65 1 ∷ moved ∷ keyboard 66 0 ∷ []

process_sim-handle_input_example :
    ((process_sim (handle_input typed idle)).key_down 65 ≡ down_or (last_event 65 typed none) true)
    × ((process_sim (handle_input typed idle)).key_press 65 ≡ was_released 65 typed)
process_sim-handle_input_example =
    process_sim-handle_input typed idle 65 idle-IsIdle (omega arith) refl
