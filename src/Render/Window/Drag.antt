-- ===== src/Render/Window/Drag.antt =====
-- Dragging the window's border: the sizes that it goes through.
use mgdf.Render.Window.{
  Point, window_resize, push, Window, Surface, Message, size_restored, enter_size_move,
  exit_size_move, enqueue, end_drag, restored, handle, handle_all,
}
use mgdf.Prelude.{
  ◌≡◌, refl, ◌∙◌, inl, inr, ◌||◌, none, some, List, [], ◌∷◌, ◌++◌, map, ◌==◌, if◌then◌else◌,
  Bool-cases,
}

sizes :
    (s : Surface) (ps : List Point) (p : Point) (rest : List Message) (w : Window) (q : Point)
    → handle_all s
        (map size_restored ps ++ (size_restored p ∷ rest))
        (record w { resizing = some q })
      ≡ handle_all s rest (record w { resizing = some p })
unfolding handle_all handle restored
sizes s [] p rest w q = refl
sizes s (p' ∷ ps) p rest w q = sizes s ps p rest w p'

-- However many sizes a drag goes through, the render thread is told of it once, at its end, with the last
-- size, and not at all if that has a zero; whether there is a swap chain, or the window was minimized,
-- makes no difference, and nothing else of the window changes.
handle_all-sizes :
    (s : Surface) (ps : List Point) (p : Point) (w : Window)
    → handle_all s
        (enter_size_move ∷ (map size_restored ps ++ (size_restored p ∷ exit_size_move ∷ [])))
        w
      ≡ record w {
        resizing = none;
        pending = if p.0 == 0 || p.1 == 0 then w.pending else push window_resize (some p) w.pending;
      }
unfolding handle_all handle end_drag enqueue
handle_all-sizes s ps p w =
    sizes s ps p (exit_size_move ∷ []) w (0, 0)
    ∙ elim (Bool-cases (p.0 == 0 || p.1 == 0)) [ inl e ↦ rw e refl | inr e ↦ rw e refl ]
