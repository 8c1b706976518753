-- ===== src/Render/Frames/InFlight.antt =====
-- How far the frames of src/core/MGDFD3D12RenderBackend.cpp run ahead of the GPU.
use mgdf.Timers.Frames.{
  BeginResult, current, invalid_arg, out_of_memory, scope, Answers, Manager, Slot, update, begin,
  end_scope, begin_frame, end_frame, reset, push_sample, mark_ended,
}
use mgdf.Render.Frames.{
  FrameState, slot, previous_fence, submitted, lost, Device, init_device, Wake, reaches, is_removed,
  errs, wait_for_fence, FrameInfo, info_of, Waited, late, began, waited_of, wait_for_frame, Mark,
  opens, closes, mark_all, Frame, count_frame, end_of_frame, after_wait, frame, frames,
}
use mathlib.Core.Path.{subst₂}
use mgdf.Prelude.{
  ℕ, suc, ◌+◌, ◌-◌, ◌%◌, ◌^◌, ◌≤◌, ◌<◌, ◌≡◌, refl, sym, ap, ◌∙◌, ◌≢◌, inl, inr, Bool, false, not,
  ◌&&◌, ◌||◌, Option, none, some, List, [], ◌∷◌, arith, ltb, leb, ◌==◌, if◌then◌else◌, ==_iff,
  if_cases, Option-cases, length, null,
}

-- The frame is the same, and so are the fences of the slots.
record Same (m n : Manager) : Type 0 where
  same_ordinal : n.ordinal ≡ m.ordinal
  same_slot : n.frame_slot ≡ m.frame_slot
  same_fence : (s : ℕ) → (n.slots s).fence ≡ (m.slots s).fence

Same-refl : (m : Manager) → Same m m
Same-refl m = record { same_ordinal = refl; same_slot = refl; same_fence = λ s. refl }

Same-trans : (m n o : Manager) → Same m n → Same n o → Same m o
Same-trans m n o v w = record {
  same_ordinal = w.same_ordinal ∙ v.same_ordinal;
  same_slot = w.same_slot ∙ v.same_slot;
  same_fence = λ s. w.same_fence s ∙ v.same_fence s;
}

update-fence :
    (f : ℕ → Slot) (i s : ℕ) (x : Slot)
    → (update f i x s).fence ≡ (if i == s then x.fence else (f s).fence)
update-fence f i s x =
    if_cases (λ (y : Slot). y.fence ≡ (if i == s then x.fence else (f s).fence)) (i == s) x (f s)
      (λ e. rw e refl) (λ e. rw e refl)

update_pending :
    (f : ℕ → Slot) (i s : ℕ) (x : Slot)
    → x.fence ≡ (f i).fence
    → (update f i x s).fence ≡ (f s).fence
update_pending f i s x e =
    if_cases (λ (y : Slot). y.fence ≡ (f s).fence) (i == s) x (f s)
      (λ at. e ∙ ap (λ (j : ℕ). (f j).fence) ((==_iff i s).0 at)) (λ _. refl)

push_sample-Same :
    (counter generation : ℕ) (m : Manager) → Same m (push_sample counter generation m)
unfolding push_sample
push_sample-Same counter generation m = record {
  same_ordinal = refl;
  same_slot = refl;
  same_fence = λ s. update_pending m.slots m.frame_slot s _ refl;
}

begin-Same : (counter : ℕ) (list : Option ℕ) (m : Manager) → Same m (begin counter list m).0
unfolding begin
begin-Same counter none m = Same-refl m
begin-Same counter (some generation) m =
    let Kept = λ (x : Manager × BeginResult). Same m (x.0) in
    if_cases Kept (not m.recording) (m, invalid_arg) _ (λ _. Same-refl m)
      (λ _.
        if_cases Kept (length (current m).pending == 256) (m, out_of_memory)
          (push_sample counter generation m, scope m.count) (λ _. Same-refl m)
          (λ _. push_sample-Same counter generation m))

end_scope-Same : (i : ℕ) (list : Option ℕ) (m : Manager) → Same m (end_scope i list m)
unfolding end_scope mark_ended
end_scope-Same i none m = Same-refl m
end_scope-Same i (some generation) m =
    if_cases (Same m) _ m (mark_ended i m) (λ _. Same-refl m)
      (λ _. record { same_ordinal = refl; same_slot = refl; same_fence = λ s. refl })

mark_all-Same : (marks : List Mark) (m : Manager) → Same m (mark_all marks m)
unfolding mark_all
mark_all-Same [] m = Same-refl m
mark_all-Same (opens counter list ∷ rest) m =
    let n = (begin counter list m).0 in
    Same-trans m n (mark_all rest n) (begin-Same counter list m) (mark_all-Same rest n)
mark_all-Same (closes sample list ∷ rest) m =
    let n = end_scope sample list m in
    Same-trans m n (mark_all rest n) (end_scope-Same sample list m) (mark_all-Same rest n)

end_frame-fence :
    (a : Answers) (m : Manager) (s : ℕ)
    → ((end_frame a m).0.slots s).fence
      ≡ (if m.frame_slot == s then m.ordinal else (m.slots s).fence)
unfolding end_frame
end_frame-fence a m s =
    let ended = record (current m) { fence = m.ordinal } in
    let is_so = update-fence m.slots m.frame_slot s ended in
    let At = λ (x : Manager × List (ℕ × ℕ) × Bool).
      ((x.0).slots s).fence ≡ (if m.frame_slot == s then m.ordinal else (m.slots s).fence) in
    if_cases At (null (current m).pending) _ _ (λ _. is_so)
      (λ _.
        if_cases At (not (a.allocator_reset && (a.list_reset && a.list_close))) _ _ (λ _. is_so)
          (λ _. is_so))

begin_frame-fence :
    (ordinal i s : ℕ) (results : ℕ → ℕ) (m : Manager)
    → ((begin_frame ordinal i results m).0.slots s).fence ≡ (m.slots s).fence
unfolding begin_frame
begin_frame-fence ordinal i s results m =
    update_pending m.slots i s (record (m.slots i) { pending = [] }) refl

count_frame-fence :
    (f : Frame) (info : FrameInfo) (m : Manager) (s : ℕ)
    → ((count_frame f info m).0.slots s).fence
      ≡ (if info.frame_slot == s then info.frame_ordinal else (m.slots s).fence)
unfolding count_frame begin_frame
count_frame-fence f info m s =
    let begun = (begin_frame info.frame_ordinal info.frame_slot f.results m).0 in
    let marked = mark_all f.marks begun in
    let kept = mark_all-Same f.marks begun in
    let before =
      kept.same_fence s ∙ begin_frame-fence info.frame_ordinal info.frame_slot s f.results m in
    end_frame-fence f.answers marked s ∙ rw (kept.same_slot, kept.same_ordinal, before) refl

-- The queue was last told to signal the frame before the next one; the slots have the last two frames, and
-- those of the counters the same; and no more than `n` frames were made.
pub record InFlight (n : ℕ) (d : Device) : Type 0 where
  pub bounded : d.frames.ordinal ≤ n + 1
  pub signals_last : d.signalled + 1 ≡ d.frames.ordinal
  pub of_slot : d.frames.slots (d.frames.ordinal % 2) ≡ d.frames.ordinal - 2
  pub of_other : d.frames.slots ((d.frames.ordinal + 1) % 2) ≡ d.frames.ordinal - 1
  pub of_counters : (s : ℕ) → (d.counters.slots s).fence ≡ d.frames.slots s

init_device-InFlight : (n : ℕ) (m : Manager) → InFlight n (init_device m)
unfolding init_device reset
init_device-InFlight n m = record {
  bounded = omega arith;
  signals_last = refl;
  of_slot = refl;
  of_other = refl;
  of_counters = λ s. refl;
}

InFlight-later : (n : ℕ) (d : Device) → InFlight n d → InFlight (n + 1) d
InFlight-later n d v = record {
  bounded = omega (arith, v.bounded);
  signals_last = v.signals_last;
  of_slot = v.of_slot;
  of_other = v.of_other;
  of_counters = v.of_counters;
}

update-here : (f : ℕ → ℕ) (i j x : ℕ) → i ≡ j → update f i x j ≡ x
update-here f i j x e = rw ((==_iff i j).1 e) refl

update-there : (f : ℕ → ℕ) (i j x : ℕ) → i ≢ j → update f i x j ≡ f j
update-there f i j x ne =
    if_cases (λ (y : ℕ). y ≡ f j) (i == j) x (f j) (λ e. absurd (ne ((==_iff i j).0 e))) (λ _. refl)

submitted_ordinal :
    (s : FrameState) (n : ℕ)
    → s.ordinal ≤ n + 1
    → n + 2 < 2 ^ 64
    → (submitted s).ordinal ≡ s.ordinal + 1
unfolding submitted
submitted_ordinal s n le lt = omega (arith, le, lt)

end_of_frame-InFlight :
    (n reads : ℕ) (d : Device) (c : Manager)
    → n + 2 < 2 ^ 64
    → InFlight n d
    → ((s : ℕ)
        → (c.slots s).fence
          ≡ (if slot d.frames == s then d.frames.ordinal else (d.counters.slots s).fence))
    → InFlight (n + 1) (end_of_frame (record d { fence = reads; counters = c }))
unfolding end_of_frame submitted
end_of_frame-InFlight n reads d c lt v fences =
    let o = d.frames.ordinal in
    let next : (o + 1) % 2 ^ 64 ≡ o + 1 = omega (arith, lt, v.bounded) in
    let here = update-here d.frames.slots (o % 2) ((o + 1 + 1) % 2) o (omega arith) in
    let there = update-there d.frames.slots (o % 2) ((o + 1) % 2) o (omega arith) in
    record {
      bounded = omega (arith, next, v.bounded);
      signals_last = sym next;
      of_slot = rw next (there ∙ v.of_other ∙ omega arith);
      of_other = rw next (here ∙ omega arith);
      of_counters = λ s. fences s ∙ rw (v.of_counters s) refl;
    }

after_wait-InFlight :
    (n : ℕ) (f : Frame) (d e : Device) (r : Option ℕ)
    → n + 2 < 2 ^ 64
    → InFlight n d
    → after_wait f d (waited_of d r) ≡ some e
    → InFlight (n + 1) e
unfolding after_wait
after_wait-InFlight n f d e none lt v h = absurd (grind (arith, h))
after_wait-InFlight n f d e (some reads) lt v h =
    let info = info_of d.frames reads in
    let counted = count_frame f info d.counters in
    let goes_on =
      f.is_there && ((counted.1 || not f.is_there_still) && (f.presents && f.signals)) in
    let ended = end_of_frame (record d { fence = reads; counters = counted.0 }) in
    let Known = λ (o : Option Device). o ≡ some e → InFlight (n + 1) e in
    if_cases Known goes_on (some ended) none
      (λ _ at_e.
        let same : ended ≡ e = grind (arith, at_e) in
        rw (sym same) (
          end_of_frame-InFlight n reads d (counted.0) lt v
            (λ s. count_frame-fence f info d.counters s)))
      (λ _ at_e. absurd (grind (arith, at_e))) h

frame-InFlight :
    (n : ℕ) (f : Frame) (d e : Device)
    → n + 2 < 2 ^ 64
    → InFlight n d
    → frame f d ≡ some e
    → InFlight (n + 1) e
unfolding frame wait_for_frame after_wait
frame-InFlight n f d e lt v h =
    let r = wait_for_fence (previous_fence d.frames) f.wake d.fence in
    let Known = λ (w : Waited). after_wait f d w ≡ some e → InFlight (n + 1) e in
    if_cases Known f.times_out late (waited_of d r)
      (λ _ at_e. let same : d ≡ e = grind (arith, at_e) in rw (sym same) (InFlight-later n d v))
      (λ _. after_wait-InFlight n f d e r lt v) h

frames-goes :
    (f : Frame) (rest : List Frame) (d b : Device)
    → frame f d ≡ some b
    → frames (f ∷ rest) d ≡ frames rest b
unfolding frames
frames-goes f rest d b goes = rw (frames, goes) refl

frames-InFlight :
    (n : ℕ) (fs : List Frame) (d e : Device)
    → n + length fs + 1 < 2 ^ 64
    → InFlight n d
    → frames fs d ≡ some e
    → InFlight (n + length fs) e
unfolding frames
frames-InFlight n [] d e lt v h =
    let same : d ≡ e = grind (arith, h) in
    let at_zero : n + 0 ≡ n = omega arith in rw (sym same, at_zero) v
frames-InFlight n (f ∷ rest) d e lt v h = elim (Option-cases (frame f d)) [
  | inl gone ↦ absurd (grind (arith, gone, h))
  | inr (b, goes) ↦
      let moved : n + suc (length rest) ≡ n + 1 + length rest = omega arith in
      let after : frames rest b ≡ some e = sym (frames-goes f rest d b goes) ∙ h in
      rw moved (
        frames-InFlight (n + 1) rest b e (omega (arith, lt))
          (frame-InFlight n f d b (omega (arith, lt)) v goes) after)
]

wait_for_fence_reads :
    (value n : ℕ) (wake : Wake) (fence : ℕ)
    → value ≤ lost
    → wait_for_fence value wake fence ≡ some n
    → value ≤ n
unfolding wait_for_fence
wait_for_fence_reads value n (reaches x) fence le h = ground (arith, le, h)
wait_for_fence_reads value n is_removed fence le h = ground (arith, le, h)
wait_for_fence_reads value n errs fence le h = ground (arith, le, h)

wait_for_fence_ends :
    (value n fence : ℕ) → value ≤ n → (x : ℕ) × (wait_for_fence value (reaches n) fence ≡ some x)
unfolding wait_for_fence
wait_for_fence_ends value n fence le =
    let Ends = λ (o : Option ℕ). (x : ℕ) × (o ≡ some x) in
    if_cases Ends (fence == lost) (some fence) _ (λ _. (fence, refl))
      (λ _.
        if_cases Ends (leb value fence) (some fence) _ (λ _. (fence, refl))
          (λ _.
            if_cases Ends (ltb n value) none (some n) (λ less. absurd (ground (arith, less, le)))
              (λ _. (n, refl))))

-- What holds of a frame that begins.
abbrev pub HasCompleted : FrameInfo → Device → Type 0
HasCompleted info e =
    (info.frame_slot < 2)
    × (info.frame_ordinal ≤ info.completed_ordinal + 2)
    × ((e.counters.slots info.frame_slot).fence ≤ info.completed_ordinal)

waited_of_began :
    (d e : Device) (info : FrameInfo) (r : Option ℕ)
    → waited_of d r ≡ began info e
    → (x : ℕ) × (r ≡ some x) × (info ≡ info_of d.frames x) × (e ≡ record d { fence = x })
waited_of_began d e info none w = absurd (grind (arith, w))
waited_of_began d e info (some x) w = (x, refl, grind (arith, w), grind (arith, w))

waited_of-HasCompleted :
    (n : ℕ) (wake : Wake) (d e : Device) (info : FrameInfo)
    → n + 2 < 2 ^ 64
    → InFlight n d
    → waited_of d (wait_for_fence (previous_fence d.frames) wake d.fence) ≡ began info e
    → HasCompleted info e
waited_of-HasCompleted n wake d e info lt v w =
    let value = previous_fence d.frames in
    let (x, reads, at_info, at_e) =
      waited_of_began d e info (wait_for_fence value wake d.fence) w in
    let le : value ≤ lost = omega (arith, v.of_slot, v.bounded, lt) in
    let after : value ≤ x = wait_for_fence_reads value x wake d.fence le reads in
    let of_counters = v.of_counters (slot d.frames) in
    subst₂ HasCompleted (sym at_info) (sym at_e)
      (omega arith, omega (arith, after, v.of_slot), omega (arith, after, of_counters))

-- When a frame of a device begins, after any frames since it was set up (fewer than 2 ^ 64 - 2), its slot is one
-- of two; the fence reads at least the frame before the last one, so that no more than two frames are in
-- flight; and it reads at least the fence of the counters of the slot, which is what
-- D3D12CounterManager::BeginFrame asserts.
pub wait_for_frame-completed :
    (m : Manager) (fs : List Frame) (times_out : Bool) (wake : Wake) (d e : Device)
    (info : FrameInfo)
    → length fs + 2 < 2 ^ 64
    → frames fs (init_device m) ≡ some d
    → wait_for_frame times_out wake d ≡ began info e
    → (info.frame_slot < 2)
      × (info.frame_ordinal ≤ info.completed_ordinal + 2)
      × ((e.counters.slots info.frame_slot).fence ≤ info.completed_ordinal)
unfolding wait_for_frame
wait_for_frame-completed m fs times_out wake d e info lt h w =
    let v =
      frames-InFlight 0 fs (init_device m) d (omega (arith, lt)) (init_device-InFlight 0 m) h in
    let r = wait_for_fence (previous_fence d.frames) wake d.fence in
    let Known = λ (x : Waited). x ≡ began info e → HasCompleted info e in
    if_cases Known times_out late (waited_of d r) (λ _ at_began. absurd (grind (arith, at_began)))
      (λ _ at_began.
        waited_of-HasCompleted (0 + length fs) wake d e info (omega (arith, lt)) v at_began)
      w

-- After any frames of a device (fewer than 2 ^ 64 - 2), a frame can begin: once the GPU has reached what it was
-- last told to signal, the wait for the fence ends without an error.
pub wait_for_frame-ends :
    (m : Manager) (fs : List Frame) (d : Device) (n : ℕ)
    → length fs + 2 < 2 ^ 64
    → frames fs (init_device m) ≡ some d
    → d.signalled ≤ n
    → (info : FrameInfo) × (e : Device) × (wait_for_frame false (reaches n) d ≡ began info e)
unfolding wait_for_frame wait_for_fence
wait_for_frame-ends m fs d n lt h le =
    let v =
      frames-InFlight 0 fs (init_device m) d (omega (arith, lt)) (init_device-InFlight 0 m) h in
    let there : previous_fence d.frames ≤ n = omega (arith, le, v.of_slot, v.signals_last) in
    let (x, reads) = wait_for_fence_ends (previous_fence d.frames) n d.fence there in
    (info_of d.frames x, record d { fence = x }, rw reads refl)
