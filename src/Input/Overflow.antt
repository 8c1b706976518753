-- ===== src/Input/Overflow.antt =====
-- What becomes of the entries of one simulation step when there are 256 of them.
use mgdf.Input.{
  Event, keyboard, mouse, Input, push_event, note_down, note_up, is_break, handle_key, handle_input,
  take_down, process_sim,
}
use mgdf.Input.Keys.Simulation.{IsIdle, handle_input-key_down}
use mgdf.Prelude.{
  ℕ, ◌+◌, ◌*◌, ◌<◌, ◌≡◌, refl, ◌∙◌, Bool, true, false, ◌&&◌, List, [], ◌∷◌, arith, ltb, leb, ◌==◌,
  if◌then◌else◌, if_cases, length, all, length-append,
}

abbrev is_release : Event → Bool
is_release (keyboard key flags) = leb key 255 && is_break flags
is_release (mouse x y w b) = false

-- No key is pending as down, and there are `n` entries.
record IsFilled (n : ℕ) (m : Input) : Type 0 where
  released : (k : ℕ) → (m.pending_key_down k == 1) ≡ false
  size : length m.key_down_events ≡ n

abbrev wrapped : ℕ → ℕ
wrapped n = if n == 256 then 0 else n

push-length : (key : ℕ) (es : List ℕ) → length (push_event key es) ≡ wrapped (length es + 1)
unfolding push_event
push-length key es = ground (arith, length-append es (key ∷ []))

-- A key that comes up, after no key went down, has two entries.
release-IsFilled :
    (key flags n : ℕ) (m : Input)
    → is_break flags ≡ true
    → n < 255
    → IsFilled n m
    → IsFilled (wrapped (n + 2)) (handle_key key flags m)
unfolding handle_key note_up note_down
release-IsFilled key flags n m e h v = record {
  released = λ k. ground (arith, v.released k, v.released key);
  size = ground (
    arith,
    v.released key,
    push-length key m.key_down_events,
    push-length key (push_event key m.key_down_events),
  );
}

and_right : (a b : Bool) → (a && b) ≡ true → b ≡ true
and_right true b h = h
and_right false b h = ground arith

wrapped_few : (n : ℕ) → n < 256 → wrapped n ≡ n
wrapped_few n h = ground arith

length-zero : (es : List ℕ) → length es ≡ 0 → es ≡ []
length-zero [] h = refl
length-zero (e ∷ es) h = absurd (omega arith)

-- Entries that end with the 256th leave none.
releases-IsFilled :
    (es : List Event) (n : ℕ) (m : Input)
    → n + 2 * length es ≡ 256
    → n < 256
    → all is_release es ≡ true
    → IsFilled n m
    → (handle_input es m).key_down_events ≡ []
unfolding handle_input
releases-IsFilled [] n m h l keys v = absurd (omega arith)
releases-IsFilled (mouse x y w b ∷ es) n m h l keys v = absurd (ground arith)
releases-IsFilled (keyboard key flags ∷ []) n m h l keys v =
    if_cases (λ (r : Input). r.key_down_events ≡ []) (ltb 255 key) m (handle_key key flags m)
      (λ e. absurd (ground arith))
      (λ e.
        let w = release-IsFilled key flags n m (ground arith) (omega arith) v in
        length-zero _ (w.size ∙ ground arith))
releases-IsFilled (keyboard key flags ∷ (e' ∷ es)) n m h l keys v =
    if_cases (λ (r : Input). r.key_down_events ≡ []) (ltb 255 key) m _ (λ e. absurd (ground arith))
      (λ e.
        let w = release-IsFilled key flags n m (ground arith) (omega arith) v in
        releases-IsFilled (e' ∷ es) (n + 2) (handle_key key flags m) (omega arith) (omega arith)
          (and_right (is_release (keyboard key flags)) (all is_release (e' ∷ es)) keys)
          record { released = w.released; size = w.size ∙ wrapped_few (n + 2) (omega arith) })

-- When 128 keys come up in a step at whose start nothing is pending, the 256 entries that they make are
-- counted as none, and the simulation sees every key as it was before.
process_sim-releases :
    (es : List Event) (m : Input) (k : ℕ)
    → IsIdle m
    → length es ≡ 128
    → all is_release es ≡ true
    → (process_sim (handle_input es m)).key_down k ≡ m.key_down k
unfolding process_sim take_down
process_sim-releases es m k (pend, downs, ups) n keys =
    let v : IsFilled 0 m = record { released = λ k. rw (pend k) refl; size = rw downs refl } in
    rw (releases-IsFilled es 0 m (omega arith) (omega arith) keys v) (handle_input-key_down k es m)
