-- ===== src/Render/Window/Queue.antt =====
-- The queue of display changes: what is in it after messages were pushed.
use mgdf.Render.Window.{
  DisplayChangeType, same_type, Point, DisplayChange, point_or, new_change, push,
}
use mgdf.Prelude.{
  ◌≡◌, refl, ◌∙◌, inl, inr, Option, List, [], ◌∷◌, ◌++◌, append_assoc, if◌then◌else◌, Bool-cases,
  if_cases,
}

abbrev pub Push : Type 0
Push = DisplayChangeType × Option Point

pub push_all : List Push → List DisplayChange → List DisplayChange
unfolding push
push_all [] q = q
push_all ((kind, point) ∷ rest) q = push_all rest (push kind point q)

-- One message for each run of pushes of one type, the run of `m` first; a run's point is the last one given.
pub runs_from : DisplayChange → List Push → List DisplayChange
runs_from m [] = m ∷ []
runs_from m ((kind, point) ∷ rest) =
    let same = runs_from (record m { point = point_or point m.point }) rest in
    let other = m ∷ runs_from (new_change kind point) rest in
    if same_type m.kind kind then same else other

pub runs : List Push → List DisplayChange
unfolding runs_from
runs [] = []
runs ((kind, point) ∷ rest) = runs_from (new_change kind point) rest

push-append :
    (kind : DisplayChangeType) (point : Option Point) (q : List DisplayChange) (m : DisplayChange)
    → push kind point (q ++ m ∷ []) ≡ (
        if same_type m.kind kind
        then q ++ (record m { point = point_or point m.point }) ∷ []
        else (q ++ m ∷ []) ++ new_change kind point ∷ [])
unfolding push
push-append kind point [] m = refl
push-append kind point (n ∷ []) m =
    if_cases
      (λ r. n ∷ r ≡ (
        if same_type m.kind kind
        then n ∷ (record m { point = point_or point m.point }) ∷ []
        else n ∷ m ∷ new_change kind point ∷ []))
      (same_type m.kind kind) _ _ (λ e. rw e refl) (λ e. rw e refl)
push-append kind point (n ∷ o ∷ q) m =
    rw (push-append kind point (o ∷ q) m)
      (elim (Bool-cases (same_type m.kind kind)) [ inl e ↦ rw e refl | inr e ↦ rw e refl ])

from_last :
    (ps : List Push) (q : List DisplayChange) (m : DisplayChange)
    → push_all ps (q ++ m ∷ []) ≡ q ++ runs_from m ps
unfolding push_all runs_from
from_last [] q m = refl
from_last ((kind, point) ∷ rest) q m =
    rw (push-append kind point q m) (elim (Bool-cases (same_type m.kind kind)) [
      | inl e ↦ rw e (from_last rest q (record m { point = point_or point m.point }))
      | inr e ↦
          rw e (from_last rest (q ++ m ∷ []) (new_change kind point) ∙ append_assoc q (m ∷ []) _)
    ])

from_empty : (ps : List Push) → push_all ps [] ≡ runs ps
unfolding push_all runs push
from_empty [] = refl
from_empty ((kind, point) ∷ rest) = from_last rest [] (new_change kind point)

-- The queue holds one message for each run of pushes of one type, in order, with the point that the run
-- gave last; the first run goes on from the last message that was in the queue before, and those in front of
-- that are as they were.
pub push_all-runs :
    (ps : List Push) (q : List DisplayChange) (m : DisplayChange)
    → (push_all ps [] ≡ runs ps) × (push_all ps (q ++ m ∷ []) ≡ q ++ runs_from m ps)
unfolding push_all runs
push_all-runs ps q m = (from_empty ps, from_last ps q m)
