-- ===== src/Timers/Frames.antt =====
-- D3D12CounterManager of src/core/core.impl/MGDFD3D12Timer.cpp: time stamps of scopes, which are written
-- to the query heap of the frame's slot, resolved at the frame's end and read when the slot comes round
-- again. A sample, which a scope shares with its slot, is a number with a store; what Direct3D says of a
-- command list is an argument.
pub mod Resolving
pub mod Fit
pub mod Bounds
use mgdf.Prelude.{
  ℕ, zero, suc, ◌+◌, ◌-◌, ◌*◌, ◌/◌, ◌%◌, ◌^◌, ◌≤◌, ◌<◌, min, max, ◌≡◌, refl, sym, ap, ◌∙◌, ◌≢◌, ◌↔◌,
  ◌⊎◌, inl, inr, Bool, true, false, not, ◌&&◌, ◌||◌, Option, none, some, List, [], ◌∷◌, ◌++◌, map,
  append-nil, append_assoc, arith, ltb, leb, ◌==◌, if◌then◌else◌, ltb→lt, lt→ltb, ==_iff, ==_refl,
  Bool-cases, Option-cases, length, get_elem?, take, drop, keep, any, all, null, length-append,
  length-take, length-drop, length-keep-le, keep-append, Text, codes, same_text, same_text_refl,
  same_text→eq, same_text_ne, find, insert, assign, find-insert, find-assign,
}

-- MaxPairs.
abbrev max_pairs : ℕ
max_pairs = 256

pub record Sample : Type 0 where
  pub counter : ℕ
  pub generation : ℕ
  pub frame : ℕ
  pub index : ℕ
  pub ended : Bool

pub record Slot : Type 0 where
  pub pending : List ℕ
  pub fence : ℕ

-- `_frame` is the ordinal and the slot; `written` are the queries of the slot's heap that were written, in
-- order.
pub record Manager : Type 0 where
  pub recording : Bool
  pub ordinal : ℕ
  pub frame_slot : ℕ
  pub slots : ℕ → Slot
  pub samples : ℕ → Sample
  pub count : ℕ
  pub written : List ℕ

abbrev pub update {ℓ} : {A : Type ℓ} → (ℕ → A) → ℕ → A → ℕ → A
update f i a j = if i == j then a else f j

abbrev pub current : Manager → Slot
current m = m.slots m.frame_slot

pub data BeginResult : Type 0 where
  invalid_arg out_of_memory : BeginResult
  scope : ℕ → BeginResult

-- A new sample of the current slot, whose first time stamp is written.
unfoldable pub push_sample : ℕ → ℕ → Manager → Manager
push_sample counter generation m =
    let slot = current m in
    let index = length slot.pending * 2 in
    let sample : Sample = record {
      counter = counter;
      generation = generation;
      frame = m.ordinal;
      index = index;
      ended = false;
    } in
    record m {
      samples = update m.samples m.count sample;
      count = m.count + 1;
      slots = update m.slots m.frame_slot (record slot { pending = slot.pending ++ m.count ∷ [] });
      written = m.written ++ index ∷ [];
    }

-- `Begin`; `list` is the generation of a command list that is recording.
unfoldable pub begin : ℕ → Option ℕ → Manager → Manager × BeginResult
unfolding push_sample
begin counter none m = (m, invalid_arg)
begin counter (some generation) m =
    if not m.recording
    then (m, invalid_arg)
    else if length (current m).pending == max_pairs
    then (m, out_of_memory)
    else (push_sample counter generation m, scope m.count)

unfoldable pub mark_ended : ℕ → Manager → Manager
mark_ended i m = record m {
  samples = update m.samples i (record (m.samples i) { ended = true });
  written = m.written ++ ((m.samples i).index + 1) ∷ [];
}

-- `End` of a scope; a sample whose frame or recording is over is left as it is.
unfoldable pub end_scope : ℕ → Option ℕ → Manager → Manager
unfolding mark_ended
end_scope i none m = m
end_scope i (some generation) m =
    let s = m.samples i in
    if not m.recording || (not (s.frame == m.ordinal) || not (generation == s.generation))
    then m
    else mark_ended i m

-- What the slot's last frame recorded: each counter with the difference of its time stamps.
read_back : (ℕ → Sample) → (ℕ → ℕ) → List ℕ → List (ℕ × ℕ)
read_back samples results [] = []
read_back samples results (i ∷ rest) =
    let s = samples i in
    let from = results s.index in
    let to = results (s.index + 1) in
    let more = read_back samples results rest in
    if s.ended && leb from to then (s.counter, to - from) ∷ more else more

-- `BeginFrame`, on what the slot's read-back buffer holds.
unfoldable pub begin_frame : ℕ → ℕ → (ℕ → ℕ) → Manager → Manager × List (ℕ × ℕ)
unfolding read_back
begin_frame ordinal slot results m = (
  record m {
    ordinal = ordinal;
    frame_slot = slot;
    recording = true;
    slots = update m.slots slot (record (m.slots slot) { pending = [] });
    written = [];
  },
  read_back m.samples results (m.slots slot).pending,
)

-- The leading samples that ended.
run_length : (ℕ → Sample) → List ℕ → ℕ
run_length samples [] = 0
run_length samples (i ∷ rest) =
    let more = run_length samples rest in if (samples i).ended then suc more else 0

-- The loop of `EndFrame`, on fuel: the ranges of queries that are resolved, each with its first query and
-- its length. Each round takes a sample, so the number of samples is enough.
pub resolve : (ℕ → Sample) → ℕ → List ℕ → List (ℕ × ℕ)
unfolding run_length
resolve samples zero pending = []
resolve samples (suc fuel) [] = []
resolve samples (suc fuel) (i ∷ rest) =
    let n = run_length samples rest in
    let skipped = resolve samples fuel rest in
    let after = resolve samples fuel (drop n rest) in
    if not (samples i).ended then skipped else ((samples i).index, suc n * 2) ∷ after

-- The results of the calls of `EndFrame` that may fail.
pub record Answers : Type 0 where
  pub allocator_reset : Bool
  pub list_reset : Bool
  pub list_close : Bool

-- `EndFrame`: the ranges that are executed, and whether it succeeded.
unfoldable pub end_frame : Answers → Manager → Manager × List (ℕ × ℕ) × Bool
unfolding resolve
end_frame a m =
    let slot = current m in
    let ranges = resolve m.samples (length slot.pending) slot.pending in
    let m' = record m {
      recording = false;
      slots = update m.slots m.frame_slot (record slot { fence = m.ordinal });
    } in
    if null slot.pending
    then (m', [], true)
    else if not (a.allocator_reset && (a.list_reset && a.list_close))
    then (m', [], false)
    else (m', ranges, true)

-- `Reset`, with the new slots that `Init` makes.
unfoldable pub reset : Manager → Manager
reset m = record m {
  recording = false;
  ordinal = 0;
  frame_slot = 0;
  slots = λ _. record { pending = []; fence = 0 };
  written = [];
}

abbrev pub start : Manager
start = record {
  recording = false;
  ordinal = 0;
  frame_slot = 0;
  slots = λ _. record { pending = []; fence = 0 };
  samples = λ _. record { counter = 0; generation = 0; frame = 0; index = 0; ended = false };
  count = 0;
  written = [];
}

pub data Call : Type 0 where
  begins : ℕ → Option ℕ → Call
  ends : ℕ → Option ℕ → Call
  begins_frame : ℕ → ℕ → (ℕ → ℕ) → Call
  ends_frame : Answers → Call
  resets : Call

call : Call → Manager → Manager
unfolding begin end_scope begin_frame end_frame reset
call (begins counter list) m = (begin counter list m).0
call (ends i list) m = end_scope i list m
call (begins_frame ordinal slot results) m = (begin_frame ordinal slot results m).0
call (ends_frame a) m = (end_frame a m).0
call resets m = reset m

pub call_all : List Call → Manager → Manager
unfolding call
call_all [] m = m
call_all (c ∷ cs) m = call_all cs (call c m)
