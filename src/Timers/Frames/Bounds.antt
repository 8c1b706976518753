-- ===== src/Timers/Frames/Bounds.antt =====
-- What holds of the samples after any calls.
use mgdf.Timers.Frames.{
  BeginResult, push_sample, mark_ended, max_pairs, Sample, Manager, current, begin, end_scope,
  begin_frame, resolve, end_frame, Answers, reset, start, Call, begins, ends, begins_frame,
  ends_frame, resets, call, call_all,
}
use mgdf.Timers.Frames.Fit.{IsFit, IsFit-kept, push-IsFit, mark-IsFit}
use mgdf.Timers.Frames.Resolving.{
  expand, ended_queries, expand_nil, ended_queries-null, resolve-ended_queries,
}
use mgdf.Prelude.Every.{all-append}
use mgdf.Prelude.{
  if_cases, ℕ, ◌+◌, ◌*◌, ◌<◌, ◌≡◌, refl, sym, ap, ◌∙◌, ◌⊎◌, inl, inr, Bool, true, false, not, ◌&&◌,
  Option, none, some, List, [], ◌∷◌, arith, ltb, ◌==◌, Bool-cases, length, all, null,
}

abbrev pub in_heap : ℕ → Bool
in_heap q = ltb q (max_pairs * 2)

record IsSafe (m : Manager) : Type 0 where
  fit : (j : ℕ) → IsFit m j
  queries : (i : ℕ) → (m.samples i).index + 1 < max_pairs * 2
  writes : all in_heap m.written ≡ true

push-IsSafe :
    (counter generation : ℕ) (m : Manager)
    → IsSafe m
    → (length (current m).pending == max_pairs) ≡ false
    → IsSafe (push_sample counter generation m)
unfolding push_sample
push-IsSafe counter generation m v room = record {
  fit = λ j. push-IsFit counter generation m j v.fit room;
  queries = λ i. ground (arith, (v.fit m.frame_slot).few, v.queries i);
  writes = all-append in_heap m.written _ ∙ ground (arith, v.writes, (v.fit m.frame_slot).few);
}

mark-IsSafe : (i : ℕ) (m : Manager) → IsSafe m → IsSafe (mark_ended i m)
unfolding mark_ended
mark-IsSafe i m v = record {
  fit = λ j. mark-IsFit i m j (v.fit j);
  queries = λ k. ground (arith, v.queries k, v.queries i);
  writes = all-append in_heap m.written _ ∙ ground (arith, v.writes, v.queries i);
}

begin-IsSafe :
    (counter : ℕ) (list : Option ℕ) (m : Manager) → IsSafe m → IsSafe (begin counter list m).0
unfolding begin
begin-IsSafe counter none m v = v
begin-IsSafe counter (some g) m v =
    if_cases (λ (r : Manager × BeginResult). IsSafe r.0) (not m.recording) _ _ (λ h. v)
      (λ h.
        if_cases (λ (r : Manager × BeginResult). IsSafe r.0)
          (length (current m).pending == max_pairs) _ _ (λ full. v) (push-IsSafe counter g m v))

end_scope-IsSafe : (i : ℕ) (list : Option ℕ) (m : Manager) → IsSafe m → IsSafe (end_scope i list m)
unfolding end_scope
end_scope-IsSafe i none m v = v
end_scope-IsSafe i (some g) m v =
    if_cases IsSafe _ m (mark_ended i m) (λ h. v) (λ h. mark-IsSafe i m v)

frame-IsFit :
    (ordinal slot : ℕ) (results : ℕ → ℕ) (m : Manager) (j : ℕ)
    → IsFit m j
    → IsFit (begin_frame ordinal slot results m).0 j
unfolding begin_frame
frame-IsFit ordinal slot results m j v = elim (Bool-cases (slot == j)) [
  | inl e ↦ record { indexed = rw e tt; few = rw e (omega arith); below = rw e tt }
  | inr e ↦ record { indexed = rw e v.indexed; few = rw e v.few; below = rw e v.below }
]

frame-IsSafe :
    (ordinal slot : ℕ) (results : ℕ → ℕ) (m : Manager)
    → IsSafe m
    → IsSafe (begin_frame ordinal slot results m).0
frame-IsSafe ordinal slot results m v = record {
  fit = λ j. frame-IsFit ordinal slot results m j (v.fit j);
  queries = unfold begin_frame in v.queries;
  writes = unfold begin_frame in refl;
}

end_frame-fields :
    (a : Answers) (m : Manager) (j : ℕ)
    → (((end_frame a m).0.slots j).pending ≡ (m.slots j).pending)
      × ((end_frame a m).0.samples ≡ m.samples)
      × ((end_frame a m).0.count ≡ m.count)
      × ((end_frame a m).0.written ≡ m.written)
unfolding end_frame
end_frame-fields a m j = ground arith

end_frame-IsSafe : (a : Answers) (m : Manager) → IsSafe m → IsSafe (end_frame a m).0
end_frame-IsSafe a m v =
    let (p, s, c, w) = end_frame-fields a m 0 in
    record {
      fit = λ j.
          let (p, s, c, w) = end_frame-fields a m j in
          IsFit-kept m (end_frame a m).0 j (v.fit j) (λ i h. ap (λ (f : ℕ → Sample). (f i).index) s)
            p (inl c);
      queries = rw s v.queries;
      writes = ap (all in_heap) w ∙ v.writes;
    }

call-IsSafe : (c : Call) (m : Manager) → IsSafe m → IsSafe (call c m)
unfolding call reset
call-IsSafe (begins counter list) m v = begin-IsSafe counter list m v
call-IsSafe (ends i list) m v = end_scope-IsSafe i list m v
call-IsSafe (begins_frame o s r) m v = frame-IsSafe o s r m v
call-IsSafe (ends_frame a) m v = end_frame-IsSafe a m v
call-IsSafe resets m v = record {
  fit = λ j. record { indexed = tt; few = omega arith; below = tt };
  queries = v.queries;
  writes = refl;
}

start-IsSafe : IsSafe start
start-IsSafe = record {
  fit = λ j. record { indexed = tt; few = omega arith; below = tt };
  queries = λ i. omega arith;
  writes = refl;
}

all-IsSafe : (cs : List Call) (m : Manager) → IsSafe m → IsSafe (call_all cs m)
unfolding call_all
all-IsSafe [] m v = v
all-IsSafe (c ∷ cs) m v = all-IsSafe cs (call c m) (call-IsSafe c m v)

-- The outcomes of a frame's end.
abbrev Ranges : Manager → Manager × List (ℕ × ℕ) × Bool → Type 0
Ranges m r =
    (r.1 ≡ resolve m.samples (length (current m).pending) (current m).pending)
    ⊎ ((null (current m).pending ≡ true) × (r.1 ≡ []))
    ⊎ (r.2 ≡ false)

end_frame-resolve : (a : Answers) (m : Manager) → Ranges m (end_frame a m)
unfolding end_frame
end_frame-resolve a m =
    if_cases (Ranges m) (null (current m).pending) _ _ (λ h. inr (inl (h, refl)))
      (λ h.
        if_cases (Ranges m) (not (a.allocator_reset && (a.list_reset && a.list_close)))
          (_, [], false)
          (_, resolve m.samples (length (current m).pending) (current m).pending, true)
          (λ e. inr (inr refl)) (λ e. inl refl))

resolved :
    (a : Answers) (m : Manager)
    → IsFit m m.frame_slot
    → (expand (end_frame a m).1 ≡ ended_queries m.samples (current m).pending)
      ⊎ ((end_frame a m).2 ≡ false)
resolved a m v = elim (end_frame-resolve a m) [
  | inl e ↦ inl (
      ap expand e
      ∙ resolve-ended_queries m.samples (length (current m).pending) 0 (current m).pending
          (omega arith) v.indexed)
  | inr (inl (h, e)) ↦
      inl (ap expand e ∙ expand_nil ∙ sym (ended_queries-null m.samples (current m).pending h))
  | inr (inr failed) ↦ inr failed
]

-- After any calls, in any order and whatever Direct3D answers, each time stamp of the frame was written
-- inside of the query heap, of 512 queries; and a frame that now ends with success resolves exactly the
-- two queries of each of its samples that ended, in order and each once.
pub call_all-queries :
    (cs : List Call) (a : Answers)
    → let m = call_all cs start in
      (all in_heap m.written ≡ true)
      × ((expand (end_frame a m).1 ≡ ended_queries m.samples (current m).pending)
          ⊎ ((end_frame a m).2 ≡ false))
call_all-queries cs a =
    let m = call_all cs start in
    let v = all-IsSafe cs start start-IsSafe in (v.writes, resolved a m (v.fit m.frame_slot))
