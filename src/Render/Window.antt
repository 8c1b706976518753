-- ===== src/Render/Window.antt =====
-- The window of src/core/MGDFD3DAppFramework.cpp: the messages that change its size or place
-- (D3DAppFramework::MsgProc), and the queue of display changes for the render thread.
pub mod Queue
pub mod Drag
use mgdf.Prelude.{
  ℕ, zero, suc, ◌+◌, ◌-◌, ◌*◌, ◌/◌, ◌%◌, ◌^◌, ◌≤◌, ◌<◌, min, max, ◌≡◌, refl, sym, ap, ◌∙◌, ◌≢◌, ◌↔◌,
  ◌⊎◌, inl, inr, Bool, true, false, not, ◌&&◌, ◌||◌, Option, none, some, List, [], ◌∷◌, ◌++◌, map,
  append-nil, append_assoc, arith, ltb, leb, ◌==◌, if◌then◌else◌, ltb→lt, lt→ltb, ==_iff, ==_refl,
  Bool-cases, if_cases, Option-cases, length, get_elem?, take, drop, keep, any, all, null,
  length-append, length-take, length-drop, length-keep-le, keep-append, Text, codes, same_text,
  same_text_refl, same_text→eq, same_text_ne, find, insert, assign, find-insert, find-assign,
}

pub data DisplayChangeType : Type 0 where
  window_move window_resize window_maximize display_change : DisplayChangeType

abbrev same_type : DisplayChangeType → DisplayChangeType → Bool
same_type window_move window_move = true
same_type window_resize window_resize = true
same_type window_maximize window_maximize = true
same_type display_change display_change = true
same_type _ _ = false

abbrev Point : Type 0
Point = ℕ × ℕ

pub record DisplayChange : Type 0 where
  pub kind : DisplayChangeType
  pub point : Point

-- What `genMessage` makes of a message's point.
abbrev point_or : Option Point → Point → Point
point_or none p = p
point_or (some q) p = q

abbrev pub new_change : DisplayChangeType → Option Point → DisplayChange
new_change kind point = record { kind = kind; point = point_or point (0, 0) }

-- `PushRTMessage`: the last message is changed if it has the type, and otherwise there is a new one.
push : DisplayChangeType → Option Point → List DisplayChange → List DisplayChange
push kind point [] = new_change kind point ∷ []
push kind point (m ∷ []) =
    if same_type m.kind kind
    then (record m { point = point_or point m.point }) ∷ []
    else m ∷ new_change kind point ∷ []
push kind point (m ∷ n ∷ rest) = m ∷ push kind point (n ∷ rest)

-- `PopRTMessage`.
pub pop : List DisplayChange → Option DisplayChange × List DisplayChange
pop [] = (none, [])
pop (m ∷ rest) = (some m, rest)

-- `_minimized`, `_resizing` and `_pendingDisplayChanges`.
pub record Window : Type 0 where
  pub minimized : Bool
  pub resizing : Option Point
  pub pending : List DisplayChange

abbrev pub new_window : Window
new_window = record { minimized = false; resizing = none; pending = [] }

-- What `MsgProc` reads: whether there is a swap chain, and whether the window is fullscreen.
pub record Surface : Type 0 where
  pub has_swap_chain : Bool
  pub full_screen : Bool

-- The messages: WM_SIZE with its three kinds, the start and the end of dragging, WM_MOVE, and
-- WM_DISPLAYCHANGE or WM_DPICHANGED.
pub data Message : Type 0 where
  size_minimized : Message
  size_maximized size_restored : Point → Message
  enter_size_move exit_size_move : Message
  moves : Message
  display_changes : Message

enqueue : DisplayChangeType → Option Point → Window → Window
unfolding push
enqueue kind point w = record w { pending = push kind point w.pending }

-- WM_SIZE with SIZE_RESTORED, by `_resizing`.
restored : Surface → Point → Option Point → Window → Window
unfolding enqueue
restored s p (some q) w = record w { resizing = some p }
restored s p none w =
    if not s.has_swap_chain
    then w
    else if w.minimized
    then record w { minimized = false }
    else enqueue window_resize (some p) w

-- WM_EXITSIZEMOVE, by `_resizing`: a size with a zero is not passed on.
end_drag : Option Point → Window → Window
unfolding enqueue
end_drag none w = record w { resizing = none }
end_drag (some (x, y)) w =
    let v = record w { resizing = none } in
    if x == 0 || y == 0 then v else enqueue window_resize (some (x, y)) v

-- These cases of `MsgProc`.
pub handle : Surface → Message → Window → Window
unfolding enqueue restored end_drag
handle s size_minimized w = record w { minimized = true }
handle s (size_maximized p) w = enqueue window_maximize (some p) (record w { minimized = false })
handle s (size_restored p) w = restored s p w.resizing w
handle s enter_size_move w = record w { resizing = some (0, 0) }
handle s exit_size_move w = end_drag w.resizing w
handle s moves w = if s.full_screen then w else enqueue window_move none w
handle s display_changes w = enqueue display_change none w

handle_all : Surface → List Message → Window → Window
unfolding handle
handle_all s [] w = w
handle_all s (m ∷ ms) w = handle_all s ms (handle s m w)
