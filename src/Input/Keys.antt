-- ===== src/Input/Keys.antt =====
-- The keys that a simulation step sees, against the events since the last one.
pub mod Simulation
use mgdf.Input.{
  Buttons, Event, keyboard, mouse, Input, update, push_event, note_down, note_up, is_break,
  handle_key, handle_mouse, handle_input, take_down, take_press, process_sim,
}
use mgdf.Prelude.{
  ℕ, ◌+◌, ◌*◌, ◌≤◌, ◌<◌, ◌≡◌, refl, ap, ◌∙◌, inl, inr, Bool, true, false, not, ◌&&◌, ◌||◌, Option,
  none, some, List, [], ◌∷◌, ◌++◌, arith, ltb, leb, ◌==◌, if◌then◌else◌, Bool-cases, if_cases,
  length, any, all, length-append,
}

-- What the last event of a key says: `some true` down, `some false` up; `none` without one, where `before`
-- is what was known before.
pub last_event : ℕ → List Event → Option Bool → Option Bool
last_event k [] before = before
last_event k (mouse x y w b ∷ rest) before = last_event k rest before
last_event k (keyboard key flags ∷ rest) before =
    last_event k rest (if key == k then some (not (is_break flags)) else before)

-- Whether a key came up in one of the events.
pub was_released : ℕ → List Event → Bool
was_released k [] = false
was_released k (mouse x y w b ∷ rest) = was_released k rest
was_released k (keyboard key flags ∷ rest) = key == k && is_break flags || was_released k rest

abbrev is_key : Event → Bool
is_key (keyboard key flags) = leb key 255
is_key (mouse x y w b) = true

abbrev code_of : Option Bool → ℕ
code_of none = 0
code_of (some true) = 1
code_of (some false) = 2

abbrev known : Option Bool → Bool
known none = false
known (some b) = true

abbrev holds : ℕ → List ℕ → Bool
holds k es = any (λ e. e == k) es

holds-append : (k key : ℕ) (es : List ℕ) → holds k (es ++ key ∷ []) ≡ (holds k es || key == k)
holds-append k key [] = ground arith
holds-append k key (e ∷ es) = ground (arith, holds-append k key es)

push-append : (key : ℕ) (es : List ℕ) → length es < 255 → push_event key es ≡ es ++ key ∷ []
unfolding push_event
push-append key es h = ground (arith, length-append es (key ∷ []))

-- For one key: the pending state is that of the last event, it has an entry if there was one, and an
-- entry of the other kind if it came up.
pub record Agrees (k : ℕ) (d : Option Bool) (r : Bool) (n : ℕ) (m : Input) : Type 0 where
  pending : m.pending_key_down k ≡ code_of d
  downs : holds k m.key_down_events ≡ known d
  ups : holds k m.key_press_events ≡ r
  few_downs : length m.key_down_events ≤ n
  few_ups : length m.key_press_events ≤ n

note_down-Agrees :
    (k key n : ℕ) (b : Bool) (d : Option Bool) (r : Bool) (m : Input)
    → n < 255
    → Agrees k d r n m
    → Agrees k (if key == k then some b else d) r (n + 1) (note_down key (code_of (some b)) m)
unfolding note_down
note_down-Agrees k key n true d r m h v = ground (
  arith,
  push-append key m.key_down_events,
  holds-append k key m.key_down_events,
  length-append m.key_down_events (key ∷ []),
)
note_down-Agrees k key n false d r m h v = ground (
  arith,
  push-append key m.key_down_events,
  holds-append k key m.key_down_events,
  length-append m.key_down_events (key ∷ []),
)

note_down_kept :
    (key state : ℕ) (m : Input) → (note_down key state m).key_press_events ≡ m.key_press_events
unfolding note_down
note_down_kept key state m = ground arith

note_up-Agrees :
    (k key n : ℕ) (d : Option Bool) (r : Bool) (m : Input)
    → n < 255
    → (m.pending_key_down key == 2) ≡ false
    → Agrees k d r n m
    → Agrees k (if key == k then some false else d) (key == k || r) (n + 1) (note_up key m)
unfolding note_up
note_up-Agrees k key n d r m h new v =
    let w = note_down-Agrees k key n false d r m h v in
    ground (
      arith,
      note_down_kept key 2 m,
      w.pending,
      w.downs,
      w.few_downs,
      push-append key m.key_press_events,
      holds-append k key m.key_press_events,
      length-append m.key_press_events (key ∷ []),
    )

note_down_new : (key : ℕ) (m : Input) → ((note_down key 1 m).pending_key_down key == 2) ≡ false
unfolding note_down
note_down_new key m = ground arith

if_again :
    (b : Bool) (d : Option Bool)
    → (if b then some false else (if b then some true else d)) ≡ (if b then some false else d)
if_again true d = refl
if_again false d = refl

handle_key-Agrees :
    (k key flags n : ℕ) (d : Option Bool) (r : Bool) (m : Input)
    → n < 254
    → Agrees k d r n m
    → Agrees k
        (if key == k then some (not (is_break flags)) else d)
        (key == k && is_break flags || r)
        (n + 2)
        (handle_key key flags m)
unfolding handle_key
handle_key-Agrees k key flags n d r m h v =
    let made = note_down-Agrees k key n true d r m (omega arith) v in
    elim (Bool-cases (is_break flags)) [
      | inl e ↦
          let up =
            note_up-Agrees k key (n + 1) _ r (note_down key 1 m) (omega arith) (note_down_new key m)
              made in
          record {
            pending = rw e (up.pending ∙ ap code_of (if_again (key == k) d));
            downs = rw e (up.downs ∙ ap (λ (o : Option Bool). known o) (if_again (key == k) d));
            ups = rw e (up.ups ∙ ground arith);
            few_downs = rw e (omega (arith, up.few_downs));
            few_ups = rw e (omega (arith, up.few_ups));
          }
      | inr e ↦ record {
        pending = rw e made.pending;
        downs = rw e made.downs;
        ups = rw e (made.ups ∙ ground arith);
        few_downs = rw e (omega (arith, made.few_downs));
        few_ups = rw e (omega (arith, made.few_ups));
      }
    ]

grow :
    (k n n' : ℕ) (d : Option Bool) (r r' : Bool) (m : Input)
    → n ≤ n'
    → r ≡ r'
    → Agrees k d r n m
    → Agrees k d r' n' m
grow k n n' d r r' m h e v = record {
  pending = v.pending;
  downs = v.downs;
  ups = v.ups ∙ e;
  few_downs = omega (arith, v.few_downs);
  few_ups = omega (arith, v.few_ups);
}

handle_mouse-Agrees :
    (k x y n : ℕ) (w : Option ℕ) (b : Buttons) (d : Option Bool) (r : Bool) (m : Input)
    → Agrees k d r n m
    → Agrees k d r n (handle_mouse x y w b m)
unfolding handle_mouse
handle_mouse-Agrees k x y n w b d r m v = record {
  pending = v.pending;
  downs = v.downs;
  ups = v.ups;
  few_downs = v.few_downs;
  few_ups = v.few_ups;
}

swap_or : (a b c : Bool) → (a || (b || c)) ≡ ((b || a) || c)
swap_or true true c = refl
swap_or true false c = refl
swap_or false true c = refl
swap_or false false c = refl

-- The events of a call, as long as the lists of entries hold them.
handle_input-Agrees :
    (k : ℕ) (es : List Event) (n : ℕ) (d : Option Bool) (r : Bool) (m : Input)
    → n + 2 * length es < 256
    → all is_key es ≡ true
    → Agrees k d r n m
    → Agrees k (last_event k es d) (was_released k es || r) (n + 2 * length es) (handle_input es m)
unfolding handle_input last_event was_released
handle_input-Agrees k [] n d r m h keys v = grow k n _ d r r m (omega arith) refl v
handle_input-Agrees k (mouse x y w b ∷ es) n d r m h keys v =
    grow k (n + 2 * length es) _ _ _ _ (handle_input es (handle_mouse x y w b m)) (omega arith) refl
      (handle_input-Agrees k es n d r (handle_mouse x y w b m) (omega arith) keys
        (handle_mouse-Agrees k x y n w b d r m v))
handle_input-Agrees k (keyboard key flags ∷ es) n d r m h keys v =
    if_cases (Agrees k _ _ _) (ltb 255 key) m (handle_input es (handle_key key flags m))
      (λ e. absurd (ground arith))
      (λ e.
        grow k (n + 2 + 2 * length es) _ _ _ _ (handle_input es (handle_key key flags m))
          (omega arith) (swap_or (was_released k es) (key == k && is_break flags) r)
          (handle_input-Agrees k es (n + 2) _ _ (handle_key key flags m) (omega arith)
            (ground arith) (handle_key-Agrees k key flags n d r m (omega arith) v)))
