-- ===== src/Input/Keys/Simulation.antt =====
-- What the simulation sees of the keys.
use mgdf.Input.{
  Event, keyboard, mouse, Input, update, note_down, note_up, handle_key, handle_mouse, handle_input,
  take_down, take_press, process_sim,
}
use mgdf.Input.Keys.{
  last_event, was_released, is_key, code_of, known, holds, Agrees, handle_input-Agrees,
}
use mgdf.Prelude.{
  ℕ, ◌≤◌, ◌≡◌, refl, ap, ◌∙◌, Bool, true, false, ◌||◌, Option, none, some, List, [], ◌∷◌, arith,
  ltb, ◌==◌, if◌then◌else◌, if_cases, length, all,
}

take_down-holds :
    (es : List ℕ) (pending : ℕ → ℕ) (down : ℕ → Bool) (k : ℕ)
    → take_down es pending down k ≡ (if holds k es then pending k == 1 else down k)
unfolding take_down
take_down-holds [] pending down k = refl
take_down-holds (e ∷ es) pending down k =
    ground (arith, take_down-holds es pending (update down e (pending e == 1)) k)

take_press-holds :
    (es : List ℕ) (pressed : ℕ → Bool) (k : ℕ) → take_press es pressed k ≡ (holds k es || pressed k)
unfolding take_press
take_press-holds [] pressed k = refl
take_press-holds (e ∷ es) pressed k = ground (arith, take_press-holds es (update pressed e true) k)

-- Nothing is pending, as after a step of the simulation.
abbrev pub IsIdle : Input → Type 0
IsIdle m =
    ((k : ℕ) → m.pending_key_down k ≡ 0) × (m.key_down_events ≡ []) × (m.key_press_events ≡ [])

abbrev pub down_or : Option Bool → Bool → Bool
down_or none before = before
down_or (some b) before = b

seen :
    (o : Option Bool) (held : Bool) (p : ℕ) (before : Bool)
    → held ≡ known o
    → p ≡ code_of o
    → (if held then p == 1 else before) ≡ down_or o before
seen none held p before h e = rw h refl
seen (some true) held p before h e = rw (h, e) refl
seen (some false) held p before h e = rw (h, e) refl

or_false : (b : Bool) → (b || false) ≡ b
or_false true = refl
or_false false = refl

handle_key-key_down : (key flags : ℕ) (m : Input) → (handle_key key flags m).key_down ≡ m.key_down
unfolding handle_key note_up note_down
handle_key-key_down key flags m = ground arith

-- Events change nothing that the simulation sees.
pub handle_input-key_down :
    (k : ℕ) (es : List Event) (m : Input) → (handle_input es m).key_down k ≡ m.key_down k
unfolding handle_input handle_mouse
handle_input-key_down k [] m = refl
handle_input-key_down k (mouse x y w b ∷ es) m = handle_input-key_down k es (handle_mouse x y w b m)
handle_input-key_down k (keyboard key flags ∷ es) m =
    if_cases (λ (n : Input). n.key_down k ≡ m.key_down k) (ltb 255 key) m _ (λ e. refl)
      (λ e.
        handle_input-key_down k es (handle_key key flags m)
        ∙ ap (λ (f : ℕ → Bool). f k) (handle_key-key_down key flags m))

-- A step of the simulation sees each key as its last event left it, and as before if it had none; and it
-- sees a press exactly of the keys that came up. Nothing is pending when the events start, they are at
-- most 127, and none has a virtual key above 255; there may be mouse events among them.
pub process_sim-handle_input :
    (es : List Event) (m : Input) (k : ℕ)
    → IsIdle m
    → length es ≤ 127
    → all is_key es ≡ true
    → ((process_sim (handle_input es m)).key_down k ≡ down_or (last_event k es none) (m.key_down k))
      × ((process_sim (handle_input es m)).key_press k ≡ was_released k es)
unfolding process_sim
process_sim-handle_input es m k (pend, downs, ups) few keys =
    let start : Agrees k none false 0 m = record {
      pending = pend k;
      downs = rw downs refl;
      ups = rw ups refl;
      few_downs = rw downs (omega arith);
      few_ups = rw ups (omega arith);
    } in
    let v = handle_input-Agrees k es 0 none false m (omega arith) keys start in
    let h = handle_input es m in
    (
      take_down-holds h.key_down_events h.pending_key_down h.key_down k
          ∙ seen (last_event k es none) _ _ _ v.downs v.pending
          ∙ ap (down_or (last_event k es none)) (handle_input-key_down k es m),
      take_press-holds h.key_press_events (λ _. false) k ∙ or_false _ ∙ v.ups ∙ or_false _,
    )
