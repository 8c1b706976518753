-- ===== src/Render/Frames.antt =====
-- The frames of src/core/MGDFD3D12RenderBackend.cpp and src/core/MGDFD3D12FrameState.hpp, with the counters of
-- the frames that Host::RTDraw and Host::RTAfterPresent begin and end. The GPU is what the fence reads at a
-- wait's end.
pub mod InFlight
use mgdf.Timers.Frames.{Answers, Manager, update, begin, end_scope, begin_frame, end_frame, reset}
use mgdf.Prelude.{
  ℕ, zero, suc, ◌+◌, ◌-◌, ◌*◌, ◌/◌, ◌%◌, ◌^◌, ◌≤◌, ◌<◌, min, max, ◌≡◌, refl, sym, ap, ◌∙◌, ◌≢◌, ◌↔◌,
  ◌⊎◌, inl, inr, Bool, true, false, not, ◌&&◌, ◌||◌, Option, none, some, List, [], ◌∷◌, ◌++◌, map,
  append-nil, append_assoc, arith, ltb, leb, ◌==◌, if◌then◌else◌, ltb→lt, lt→ltb, ==_iff, ==_refl,
  Bool-cases, if_cases, Option-cases, length, get_elem?, take, drop, keep, any, all, null,
  length-append, length-take, length-drop, length-keep-le, keep-append, Text, codes, same_text,
  same_text_refl, same_text→eq, same_text_ne, find, insert, assign, find-insert, find-assign,
}

-- D3D12FrameState.
pub record FrameState : Type 0 where
  pub ordinal : ℕ
  pub slots : ℕ → ℕ

abbrev new_frames : FrameState
new_frames = record { ordinal = 1; slots = λ _. 0 }

-- FramesInFlight.
abbrev frames_in_flight : ℕ
frames_in_flight = 2

abbrev pub slot : FrameState → ℕ
slot s = s.ordinal % frames_in_flight

abbrev previous_fence : FrameState → ℕ
previous_fence s = s.slots (slot s)

-- `Submitted`.
pub submitted : FrameState → FrameState
submitted s = record {
  ordinal = (s.ordinal + 1) % 2 ^ 64;
  slots = update s.slots (slot s) s.ordinal;
}

-- The frame fence reads UINT64_MAX once the device is removed.
abbrev lost : ℕ
lost = 18446744073709551615

-- `fence` is what `_frameFence` last read, and `signalled` the last value that the queue was told to signal.
pub record Device : Type 0 where
  pub frames : FrameState
  pub fence : ℕ
  pub signalled : ℕ
  pub counters : Manager

-- A new device of `RTInit`, and the counters that `Timer::InitFromDevice12` sets up for it.
unfoldable pub init_device : Manager → Device
unfolding reset
init_device counters = record {
  frames = new_frames;
  fence = 0;
  signalled = 0;
  counters = reset counters;
}

-- How a wait ends: with a value of the fence, with the device removed, or with another error.
pub data Wake : Type 0 where
  reaches : ℕ → Wake
  is_removed errs : Wake

-- `RTWaitForFence`, on what the fence reads: what it reads then; `none` is a fatal error.
pub wait_for_fence : ℕ → Wake → ℕ → Option ℕ
wait_for_fence value wake fence =
    if fence == lost then some fence else if leb value fence then some fence else elim wake [
      | reaches n ↦ if ltb n value then none else some n
      | is_removed ↦ some lost
      | errs ↦ none
    ]

-- MGDFFrameInfo, less the back buffer.
pub record FrameInfo : Type 0 where
  pub frame_ordinal : ℕ
  pub completed_ordinal : ℕ
  pub frame_slot : ℕ

abbrev info_of : FrameState → ℕ → FrameInfo
info_of s fence = record {
  frame_ordinal = s.ordinal;
  completed_ordinal = fence;
  frame_slot = slot s;
}

-- The result of `RTWaitForFrame`: false, the frame, or a fatal error.
pub data Waited : Type 0 where
  late fatal : Waited
  began : FrameInfo → Device → Waited

abbrev waited_of : Device → Option ℕ → Waited
waited_of d none = fatal
waited_of d (some n) = began (info_of d.frames n) (record d { fence = n })

-- `RTWaitForFrame`; `times_out` is whether the wait for the swap chain does.
unfoldable pub wait_for_frame : Bool → Wake → Device → Waited
unfolding wait_for_fence
wait_for_frame times_out wake d =
    if times_out then late else waited_of d (wait_for_fence (previous_fence d.frames) wake d.fence)

-- What the module does with the counters while it draws: a scope is begun or ended on a command list.
pub data Mark : Type 0 where
  opens closes : ℕ → Option ℕ → Mark

pub mark_all : List Mark → Manager → Manager
unfolding begin end_scope
mark_all [] m = m
mark_all (opens counter list ∷ rest) m = mark_all rest (begin counter list m).0
mark_all (closes sample list ∷ rest) m = mark_all rest (end_scope sample list m)

-- What a frame meets: the wait, the counters' results of the slot's last frame, the marks, the answers to the
-- counters at the frame's end, and whether the device is there after the wait and after the counters' end, the
-- frame is presented and the signal of `RTEndFrame` succeeds.
pub record Frame : Type 0 where
  pub times_out : Bool
  pub wake : Wake
  pub results : ℕ → ℕ
  pub marks : List Mark
  pub answers : Answers
  pub is_there : Bool
  pub is_there_still : Bool
  pub presents : Bool
  pub signals : Bool

-- The counters from `BeginD3D12Frame` to `EndD3D12Frame`, and whether that succeeded.
pub count_frame : Frame → FrameInfo → Manager → Manager × Bool
unfolding mark_all begin_frame end_frame
count_frame f info m =
    let begun = (begin_frame info.frame_ordinal info.frame_slot f.results m).0 in
    let (ended, ranges, ok) = end_frame f.answers (mark_all f.marks begun) in (ended, ok)

-- `RTEndFrame` where the signal succeeds.
pub end_of_frame : Device → Device
unfolding submitted
end_of_frame d = record d { frames = submitted d.frames; signalled = d.frames.ordinal }

-- A frame from the wait to its end; `none` is a fatal error or a device that is to be set up again.
pub after_wait : Frame → Device → Waited → Option Device
unfolding count_frame end_of_frame
after_wait f d late = some d
after_wait f d fatal = none
after_wait f d (began info e) =
    let counted = count_frame f info e.counters in
    let goes_on =
      f.is_there && ((counted.1 || not f.is_there_still) && (f.presents && f.signals)) in
    if goes_on then some (end_of_frame (record e { counters = counted.0 })) else none

pub frame : Frame → Device → Option Device
unfolding wait_for_frame after_wait
frame f d = after_wait f d (wait_for_frame f.times_out f.wake d)

unfoldable pub frames : List Frame → Device → Option Device
unfolding frame
frames [] d = some d
frames (f ∷ rest) d = elim (frame f d) [ none ↦ none | some e ↦ frames rest e ]
