-- ===== src/Input/Gamepads.antt =====
-- XInputGamepad::IsButtonPress of src/core/input/xinput/XInputGamepad.cpp.
use mgdf.Prelude.{
  ℕ, ◌≡◌, refl, ap, Bool, true, false, not, ◌&&◌, List, [], ◌∷◌, ◌==◌, if◌then◌else◌,
}

-- `_buttonpressState` of a button after a call, and the result, for a button that is down or not.
button_press : Bool → ℕ → ℕ × Bool
button_press down state =
    let held = if down then 1 else state in
    let let_go = if held == 1 && not down then 2 else held in
    if let_go == 2 then (0, true) else (let_go, false)

-- The results of calls, each with the button's state at the time.
polls : List Bool → ℕ → List Bool
unfolding button_press
polls [] state = []
polls (down ∷ rest) state =
    let (state', pressed) = button_press down state in pressed ∷ polls rest state'

-- The moments at which the button came up.
releases : Bool → List Bool → List Bool
releases before [] = []
releases before (down ∷ rest) = (before && not down) ∷ releases down rest

polls-state :
    (downs : List Bool) (before : Bool)
    → polls downs (if before then 1 else 0) ≡ releases before downs
unfolding polls releases button_press
polls-state [] before = refl
polls-state (true ∷ rest) true = ap (λ r. false ∷ r) (polls-state rest true)
polls-state (true ∷ rest) false = ap (λ r. false ∷ r) (polls-state rest true)
polls-state (false ∷ rest) true = ap (λ r. true ∷ r) (polls-state rest false)
polls-state (false ∷ rest) false = ap (λ r. false ∷ r) (polls-state rest false)

-- A gamepad's button that is asked for again and again reports a press exactly when it is found up after
-- it was found down.
polls-releases : (downs : List Bool) → polls downs 0 ≡ releases false downs
polls-releases downs = polls-state downs false
