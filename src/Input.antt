-- ===== src/Input.antt =====
-- XInputManagerComponent of src/core/input/xinput/XInputManagerComponentImpl.cpp: what raw input events
-- leave pending, and what a step of the simulation takes over. The position of the mouse and the search
-- for gamepads are left out; Gamepads is a gamepad of XInputGamepad.cpp.
pub mod Keys
pub mod Overflow
pub mod Gamepads
use mgdf.Prelude.Int.{ℤ, pos, negsuc}
use mgdf.Prelude.{
  ℕ, zero, suc, ◌+◌, ◌-◌, ◌*◌, ◌/◌, ◌%◌, ◌^◌, ◌≤◌, ◌<◌, min, max, ◌≡◌, refl, sym, ap, ◌∙◌, ◌≢◌, ◌↔◌,
  ◌⊎◌, inl, inr, Bool, true, false, not, ◌&&◌, ◌||◌, Option, none, some, List, [], ◌∷◌, ◌++◌, map,
  append-nil, append_assoc, arith, ltb, leb, ◌==◌, if◌then◌else◌, ltb→lt, lt→ltb, ==_iff, ==_refl,
  Bool-cases, Option-cases, length, get_elem?, take, drop, keep, any, all, null, length-append,
  length-take, length-drop, length-keep-le, keep-append, Text, codes, same_text, same_text_refl,
  same_text→eq, same_text_ne, find, insert, assign, find-insert, find-assign,
}

-- The flags of a mouse event, those of the Windows SDK.
pub record Buttons : Type 0 where
  pub left_down : Bool
  pub left_up : Bool
  pub middle_down : Bool
  pub middle_up : Bool
  pub right_down : Bool
  pub right_up : Bool

-- A raw input event: a virtual key with its flags, or a mouse event with the bit patterns of its
-- movement, and that of the wheel's if it has one.
pub data Event : Type 0 where
  keyboard : ℕ → ℕ → Event
  mouse : ℕ → ℕ → Option ℕ → Buttons → Event

-- A button: 0 is no event, 1 down and 2 up; and whether it was clicked.
abbrev Button : Type 0
Button = ℕ × Bool

pub record Input : Type 0 where
  pub pending_dx : ℕ
  pub pending_dy : ℕ
  pub pending_dz : ℕ
  pub pending_left : Button
  pub pending_middle : Button
  pub pending_right : Button
  pub pending_key_down : ℕ → ℕ
  -- The first entries of the two arrays of events, as many as their lengths say.
  pub key_down_events : List ℕ
  pub key_press_events : List ℕ
  pub dx : ℕ
  pub dy : ℕ
  pub dz : ℕ
  pub left : Bool × Bool
  pub middle : Bool × Bool
  pub right : Bool × Bool
  pub key_down : ℕ → Bool
  pub key_press : ℕ → Bool

abbrev update {ℓ} : {A : Type ℓ} → (ℕ → A) → ℕ → A → ℕ → A
update f i a j = if i == j then a else f j

-- An entry is written at the length, which is a UINT8: the 256th takes it back to 0.
push_event : ℕ → List ℕ → List ℕ
push_event key es = let longer = es ++ key ∷ [] in if length longer == 256 then [] else longer

-- A key's new state, with an entry if it is another one.
note_down : ℕ → ℕ → Input → Input
unfolding push_event
note_down key state m = if m.pending_key_down key == state then m else record m {
  pending_key_down = update m.pending_key_down key state;
  key_down_events = push_event key m.key_down_events;
}

note_up : ℕ → Input → Input
unfolding note_down push_event
note_up key m =
    if m.pending_key_down key == 2
    then m
    else record (note_down key 2 m) { key_press_events = push_event key m.key_press_events }

-- `Flags & RI_KEY_BREAK`, which is 1. RI_KEY_MAKE is 0, so that its test holds of every event.
abbrev is_break : ℕ → Bool
is_break flags = flags % 2 == 1

handle_key : ℕ → ℕ → Input → Input
unfolding note_down note_up
handle_key key flags m =
    let made = note_down key 1 m in if is_break flags then note_up key made else made

press : Bool → Bool → Button → Button
press down up (state, clicked) =
    if up then (2, true) else if down then (1, clicked) else (state, clicked)

-- MOUSE_MOVE_RELATIVE is 0, so that its test holds of every event.
handle_mouse : ℕ → ℕ → Option ℕ → Buttons → Input → Input
unfolding press
handle_mouse x y wheel b m = record m {
  pending_dx = (m.pending_dx + x) % 2 ^ 32;
  pending_dy = (m.pending_dy + y) % 2 ^ 32;
  pending_dz = elim wheel [ none ↦ m.pending_dz | some z ↦ (m.pending_dz + z) % 2 ^ 16 ];
  pending_left = press b.left_down b.left_up m.pending_left;
  pending_middle = press b.middle_down b.middle_up m.pending_middle;
  pending_right = press b.right_down b.right_up m.pending_right;
}

-- `HandleInput` on the events of a call: a virtual key above 255 ends it.
pub handle_input : List Event → Input → Input
unfolding handle_key handle_mouse
handle_input [] m = m
handle_input (mouse x y wheel b ∷ rest) m = handle_input rest (handle_mouse x y wheel b m)
handle_input (keyboard key flags ∷ rest) m =
    let more = handle_input rest (handle_key key flags m) in if ltb 255 key then m else more

take_button : Button → Bool × Bool → Bool × Bool
take_button (state, clicked) (down, _) = (if state == 0 then down else state == 1, clicked)

-- The two loops of `ProcessSim` over the entries.
take_down : List ℕ → (ℕ → ℕ) → (ℕ → Bool) → ℕ → Bool
take_down [] pending down = down
take_down (key ∷ rest) pending down = take_down rest pending (update down key (pending key == 1))

take_press : List ℕ → (ℕ → Bool) → ℕ → Bool
take_press [] pressed = pressed
take_press (key ∷ rest) pressed = take_press rest (update pressed key true)

-- `ProcessSim`, but for the gamepads.
pub process_sim : Input → Input
unfolding take_button take_down take_press
process_sim m = record m {
  dx = m.pending_dx;
  dy = m.pending_dy;
  dz = m.pending_dz;
  pending_dx = 0;
  pending_dy = 0;
  pending_dz = 0;
  left = take_button m.pending_left m.left;
  middle = take_button m.pending_middle m.middle;
  right = take_button m.pending_right m.right;
  pending_left = (0, false);
  pending_middle = (0, false);
  pending_right = (0, false);
  key_down = take_down m.key_down_events m.pending_key_down m.key_down;
  pending_key_down = λ _. 0;
  key_down_events = [];
  key_press = take_press m.key_press_events (λ _. false);
  key_press_events = [];
}
