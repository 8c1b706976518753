-- ===== src/Network/WebSocket/Lifecycle.antt =====
-- No websocket client is lost: it waits to be connected, or the poll thread has it, until it is closed.
use mgdf.Network.Frames.{is_closed}
use mgdf.Network.WebSocket.{
  Client, create, send, begin_close, fail, connect_due, complete_connection, SendAnswer, accepts,
  blocks, send_error, took, send_loop, Piece, RecvAnswer, piece, again, lost, hand_over,
  receive_piece, recv_loop, settle, receive_all, pump, pump_active, take_due, Call, sends, listens,
  closes, connects, completes, pumps, shuts_down, shutdown, call, call_all, connect_due,
}
use mgdf.Prelude.{
  Bool-cases, any, inl, inr, ℕ, ◌+◌, ◌<◌, ◌≡◌, refl, Bool, true, false, not, ◌&&◌, ◌||◌, Option,
  none, some, List, [], ◌∷◌, ◌++◌, arith, ltb, if◌then◌else◌, Text,
}

-- What the loops of `Pump` leave alone.
abbrev Steady : Client → Client → Type 0
Steady c d =
    (d.closing ≡ c.closing)
    × (d.force_close ≡ c.force_close)
    × (d.queued ≡ c.queued)
    × (d.state ≡ c.state)
    × (d.is_shut_down ≡ c.is_shut_down)

took-Steady :
    (n : ℕ) (m : Text) (b : Bool) (ms : List (Text × Bool)) (c : Client)
    → Steady c (took n m b ms c)
unfolding took
took-Steady n m b ms c = ground arith

send_loop-Steady :
    (answers : List SendAnswer) (ms : List (Text × Bool)) (c : Client)
    → Steady c (send_loop answers ms c).0
unfolding send_loop
send_loop-Steady [] ms c = (refl, refl, refl, refl, refl)
send_loop-Steady (a ∷ rest) [] c = (refl, refl, refl, refl, refl)
send_loop-Steady (accepts n ∷ rest) ((m, b) ∷ ms) c = ground (
  arith,
  took-Steady n m b ms c,
  send_loop-Steady rest (took n m b ms c).send_queue (took n m b ms c),
)
send_loop-Steady (blocks n ∷ rest) ((m, b) ∷ ms) c = took-Steady n m b ms c
send_loop-Steady (send_error text ∷ rest) ((m, b) ∷ ms) c = (refl, refl, refl, refl, refl)

receive_piece-Steady : (p : Piece) (c : Client) → Steady c (receive_piece p c)
unfolding receive_piece hand_over
receive_piece-Steady p c = ground arith

recv_loop-Steady : (answers : List RecvAnswer) (c : Client) → Steady c (recv_loop answers c).0
unfolding recv_loop
recv_loop-Steady [] c = (refl, refl, refl, refl, refl)
recv_loop-Steady (again ∷ rest) c = (refl, refl, refl, refl, refl)
recv_loop-Steady (lost text ∷ rest) c = (refl, refl, refl, refl, refl)
recv_loop-Steady (piece p ∷ rest) c = ground (
  arith,
  receive_piece-Steady p c,
  recv_loop-Steady rest c,
  recv_loop-Steady rest (receive_piece p c),
  recv_loop-Steady rest (record c { pongs = c.pongs ++ p.bytes ∷ [] }),
)

-- A pump keeps the socket active and queues nothing, or closes it; then it is queued again if it is to
-- connect again.
abbrev Pumped : ℕ → Client → Client × Bool → Type 0
Pumped interval c (d, active) =
    (d.closing ≡ c.closing)
    × (d.force_close ≡ c.force_close)
    × (active || is_closed d.state ≡ true)
    × ((c.closing ≡ true) → d.queued ≡ c.queued)
    × ((c.closing ≡ false)
        → d.queued ≡ (
            if active
            then c.queued
            else if not c.force_close && ltb 0 interval
            then c.queued + 1
            else c.queued))
    × ((c.closing ≡ true) → active ≡ false)
    × (d.is_shut_down ≡ c.is_shut_down)

settle-Pumped :
    (interval : ℕ) (b c : Client) (e : Option Text)
    → b.closing ≡ false
    → Steady b c
    → Pumped interval b (settle interval (c, e))
unfolding settle fail
settle-Pumped interval b c none k h = ground arith
settle-Pumped interval b c (some text) k h = ground arith

receive_all-Pumped :
    (interval : ℕ) (answers : List RecvAnswer) (b c : Client) (e : Option Text)
    → b.closing ≡ false
    → Steady b c
    → Pumped interval b (receive_all interval answers (c, e))
unfolding receive_all
receive_all-Pumped interval answers b c none k h =
    settle-Pumped interval b (recv_loop answers c).0 (recv_loop answers c).1 k
      (ground (arith, recv_loop-Steady answers c))
receive_all-Pumped interval answers b c (some text) k h = settle-Pumped interval b c (some text) k h

pump-Pumped :
    (interval : ℕ) (answers : List SendAnswer) (reads : List RecvAnswer) (c : Client)
    → Pumped interval c (pump interval answers reads c)
unfolding pump fail
pump-Pumped interval answers reads c =
    let queue = c.send_queue ++ c.out in
    let d = record c { send_queue = queue; out = [] } in
    let r = send_loop answers queue d in
    ground (arith, receive_all-Pumped interval reads c r.0 r.1, send_loop-Steady answers queue d)

-- The socket is in one place, or in none if it was shut down, and it is in the state `closed` unless the
-- poll thread has it.
abbrev IsHeld : Client → Type 0
IsHeld c =
    ((c.closing ≡ false)
      → c.queued + (if c.active then 1 else 0) ≡ (if c.is_shut_down then 0 else 1))
    × ((c.closing ≡ false) → c.force_close ≡ false)
    × (c.active || is_closed c.state ≡ true)

module _ (interval : ℕ) (again_after : 0 < interval) where
  pump_active-IsHeld :
      (answers : List SendAnswer) (reads : List RecvAnswer) (c : Client)
      → c.active ≡ true
      → IsHeld c
      → IsHeld (pump_active interval answers reads c)
  unfolding pump_active
  pump_active-IsHeld answers reads c on v = ground (arith, pump-Pumped interval answers reads c)

  take_due-IsHeld : (created : Bool) (c : Client) → IsHeld c → IsHeld (take_due interval created c)
  unfolding take_due connect_due fail
  take_due-IsHeld created c v = ground arith

  call-IsHeld : (x : Call) (c : Client) → IsHeld c → IsHeld (call interval x c)
  unfolding call send begin_close complete_connection shutdown
  call-IsHeld (sends m) c v = v
  call-IsHeld listens c v = v
  call-IsHeld closes c v = ground arith
  call-IsHeld (connects created) c v = take_due-IsHeld created c v
  call-IsHeld (completes none) c v = ground arith
  call-IsHeld (completes (some text)) c v = ground arith
  call-IsHeld (pumps answers reads) c v = ground (arith, pump_active-IsHeld answers reads c)
  call-IsHeld shuts_down c v = ground arith

  all-IsHeld : (xs : List Call) (c : Client) → IsHeld c → IsHeld (call_all interval xs c)
  unfolding call_all
  all-IsHeld [] c v = v
  all-IsHeld (x ∷ xs) c v = all-IsHeld xs (call interval x c) (call-IsHeld x c v)

  create-IsHeld : IsHeld create
  create-IsHeld = ((λ h. omega arith), (λ h. refl), refl)

-- A socket that connects again is never lost and never doubled: after any calls of the client and of the
-- poll thread, in any order and whatever curl answers, unless its destructor has begun, either one entry
-- of the queue has it or the poll thread has it, and not both; and neither has it once the poll thread has
-- shut it down.
pub call_all-queued :
    (interval : ℕ) (xs : List Call)
    → 0 < interval
    → (call_all interval xs create).closing ≡ false
    → (call_all interval xs create).queued + (if (call_all interval xs create).active then 1 else 0)
      ≡ (if (call_all interval xs create).is_shut_down then 0 else 1)
call_all-queued interval xs h open_still =
    (all-IsHeld interval h xs create (create-IsHeld interval h)).0 open_still

-- A call by which the poll thread sees that the destructor has begun.
abbrev is_last : Call → Bool
is_last (pumps answers reads) = true
is_last shuts_down = true
is_last x = false

-- The destructor has begun, and the socket is closed unless the poll thread has it.
abbrev IsEnding : Client → Type 0
IsEnding c = (c.closing ≡ true) × (c.active || is_closed c.state ≡ true)

-- The destructor need not wait any more.
abbrev pub IsReleased : Client → Type 0
IsReleased c = (c.closing ≡ true) × (c.active ≡ false) × (is_closed c.state ≡ true)

call-IsEnding : (interval : ℕ) (x : Call) (c : Client) → IsEnding c → IsEnding (call interval x c)
unfolding call send begin_close complete_connection take_due pump_active pump shutdown
call-IsEnding interval (sends m) c v = v
call-IsEnding interval listens c v = v
call-IsEnding interval closes c v = ground arith
call-IsEnding interval (connects created) c v = ground arith
call-IsEnding interval (completes none) c v = ground arith
call-IsEnding interval (completes (some text)) c v = ground arith
call-IsEnding interval (pumps answers reads) c v = ground arith
call-IsEnding interval shuts_down c v = ground arith

call-IsReleased :
    (interval : ℕ) (x : Call) (c : Client) → IsReleased c → IsReleased (call interval x c)
unfolding call send begin_close complete_connection take_due pump_active pump shutdown
call-IsReleased interval (sends m) c v = v
call-IsReleased interval listens c v = v
call-IsReleased interval closes c v = ground arith
call-IsReleased interval (connects created) c v = ground arith
call-IsReleased interval (completes result) c v = ground arith
call-IsReleased interval (pumps answers reads) c v = ground arith
call-IsReleased interval shuts_down c v = ground arith

all-IsReleased :
    (interval : ℕ) (xs : List Call) (c : Client)
    → IsReleased c
    → IsReleased (call_all interval xs c)
unfolding call_all
all-IsReleased interval [] c v = v
all-IsReleased interval (x ∷ xs) c v =
    all-IsReleased interval xs (call interval x c) (call-IsReleased interval x c v)

last-IsReleased :
    (interval : ℕ) (x : Call) (c : Client)
    → is_last x ≡ true
    → IsEnding c
    → IsReleased (call interval x c)
unfolding call pump_active pump shutdown
last-IsReleased interval (sends m) c h v = absurd (ground (arith, h))
last-IsReleased interval listens c h v = absurd (ground (arith, h))
last-IsReleased interval closes c h v = absurd (ground (arith, h))
last-IsReleased interval (connects created) c h v = absurd (ground (arith, h))
last-IsReleased interval (completes result) c h v = absurd (ground (arith, h))
last-IsReleased interval (pumps answers reads) c h v = ground arith
last-IsReleased interval shuts_down c h v = ground arith

ending-IsReleased :
    (interval : ℕ) (ys : List Call) (c : Client)
    → any is_last ys ≡ true
    → IsEnding c
    → IsReleased (call_all interval ys c)
unfolding call_all
ending-IsReleased interval [] c h v = absurd (ground (arith, h))
ending-IsReleased interval (y ∷ ys) c h v = elim (Bool-cases (is_last y)) [
  | inl e ↦ all-IsReleased interval ys (call interval y c) (last-IsReleased interval y c e v)
  | inr e ↦
      ending-IsReleased interval ys (call interval y c) (ground (arith, h, e))
        (call-IsEnding interval y c v)
]

-- The wait of a destructor, begun after any calls, ends as soon as the poll thread makes its next pump or
-- shuts its sockets down: after any further calls, in any order and whatever curl answers, that one of these
-- is among, the socket is closed and the poll thread does not have it, and it stays so. (A destructor that
-- runs on the poll thread itself waits for a pump that this thread does not make.)
pub begin_close-call_all :
    (interval : ℕ) (xs ys : List Call)
    → 0 < interval
    → any is_last ys ≡ true
    → IsReleased (call_all interval ys (begin_close (call_all interval xs create)))
unfolding begin_close
begin_close-call_all interval xs ys h one =
    let v = all-IsHeld interval h xs create (create-IsHeld interval h) in
    ending-IsReleased interval ys (begin_close (call_all interval xs create)) one (refl, v.2)
