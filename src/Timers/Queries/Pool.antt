-- ===== src/Timers/Queries/Pool.antt =====
-- The disjoint queries: none is lost or used twice, and a frame finds one.
use mgdf.Prelude.Count.{count, count-append}
use mgdf.Timers.Queries.{Timer, Readiness, not_ready, ready, collect, draw, begin_frame, end_frame}
use mgdf.Prelude.{
  ℕ, ◌+◌, ◌≡◌, refl, Bool, true, false, not, ◌&&◌, ◌||◌, Option, none, some, List, [], ◌∷◌, arith,
  null,
}

-- How often a query is in the pool or in flight.
abbrev places : ℕ → Timer → ℕ
places x t = count x t.pool + count x t.pending

collect-places :
    (r : Readiness) (stamps : ℕ → Option ℕ) (t : Timer) (qs : List ℕ) (x : ℕ)
    → t.pending ≡ qs
    → (places x (collect r stamps qs t) ≡ places x t)
      × ((collect r stamps qs t).supported ≡ t.supported)
unfolding collect
collect-places r stamps t [] x e = (refl, refl)
collect-places not_ready stamps t (q ∷ qs) x e = (refl, refl)
collect-places (ready b) stamps t (q ∷ qs) x e = ground arith

draw-places : (t : Timer) (qs : List ℕ) (x : ℕ) → t.pool ≡ qs → places x (draw qs t) ≡ places x t
unfolding draw
draw-places t [] x e = ground arith
draw-places t (q ∷ qs) x e = ground (arith, count-append x t.pending (q ∷ []))

begin_frame-places :
    (r : Readiness) (stamps : ℕ → Option ℕ) (t : Timer) (x : ℕ)
    → places x (begin_frame r stamps t) ≡ places x t
unfolding begin_frame
begin_frame-places r stamps t x =
    let u = collect r stamps t.pending t in
    ground (arith, collect-places r stamps t t.pending x refl, draw-places u u.pool x refl)

-- Frames, with what the GPU says at the start of each.
frames : List (Readiness × (ℕ → Option ℕ)) → Timer → Timer
frames [] t = t
frames ((r, stamps) ∷ rest) t = frames rest (end_frame (begin_frame r stamps t))

-- In any sequence of frames, whatever the GPU answers and when, no disjoint query is lost, and none is
-- in flight twice or in flight and in the pool.
frames-places :
    (fs : List (Readiness × (ℕ → Option ℕ))) (t : Timer) (x : ℕ)
    → places x (frames fs t) ≡ places x t
unfolding frames end_frame
frames-places [] t x = refl
frames-places ((r, stamps) ∷ rest) t x = ground (
  arith,
  frames-places rest (end_frame (begin_frame r stamps t)) x,
  begin_frame-places r stamps t x,
)

abbrev is_some : Option ℕ → Bool
is_some none = false
is_some (some x) = true

drawn : (t : Timer) (qs : List ℕ) → is_some (draw qs t).current ≡ not (null qs)
unfolding draw
drawn t [] = refl
drawn t (q ∷ qs) = refl

collected :
    (r : Readiness) (stamps : ℕ → Option ℕ) (t : Timer) (qs : List ℕ)
    → null (collect r stamps qs t).pool
      ≡ (null t.pool && (null qs || elim r [ not_ready ↦ true | ready b ↦ false ]))
unfolding collect
collected r stamps t [] = ground arith
collected not_ready stamps t (q ∷ qs) = ground arith
collected (ready b) stamps t (q ∷ qs) = ground arith

abbrev is_ready : Readiness → Bool
is_ready not_ready = false
is_ready (ready b) = true

-- Where GPU timers are supported, a frame has a disjoint query exactly if one was free, or the oldest one
-- in flight is ready.
begin_frame-current :
    (r : Readiness) (stamps : ℕ → Option ℕ) (t : Timer)
    → t.supported ≡ true
    → is_some (begin_frame r stamps t).current
      ≡ (not (null t.pool) || not (null t.pending) && is_ready r)
unfolding begin_frame
begin_frame-current r stamps t h =
    let u = collect r stamps t.pending t in
    ground (arith, collected r stamps t t.pending, drawn u u.pool)
