-- ===== src/Network/WebSocket.antt =====
-- WebSocketClient of src/core/network/impl/NetworkManagerComponentImpl.cpp, and what the poll thread
-- does with it: connecting, pumping, failing and connecting again. curl's answers are arguments; what
-- it was given, what the handler was called with and how often a connection is queued are fields.
pub mod Sending
pub mod Receiving
pub mod Lifecycle
use mgdf.Network.Frames.{ConnectionState, connecting, opened, closed}
use mgdf.Prelude.{
  ℕ, zero, suc, ◌+◌, ◌-◌, ◌*◌, ◌/◌, ◌%◌, ◌^◌, ◌≤◌, ◌<◌, min, max, ◌≡◌, refl, sym, ap, ◌∙◌, ◌≢◌, ◌↔◌,
  ◌⊎◌, inl, inr, Bool, true, false, not, ◌&&◌, ◌||◌, Option, none, some, List, [], ◌∷◌, ◌++◌, map,
  append-nil, append_assoc, arith, ltb, leb, ◌==◌, if◌then◌else◌, ltb→lt, lt→ltb, ==_iff, ==_refl,
  Bool-cases, Option-cases, length, get_elem?, take, drop, keep, any, all, null, length-append,
  length-take, length-drop, length-keep-le, keep-append, Text, codes, same_text, same_text_refl,
  same_text→eq, same_text_ne, find, insert, assign, find-insert, find-assign,
}

pub record Client : Type 0 where
  pub state : ConnectionState
  pub force_close : Bool
  pub closing : Bool
  pub has_curl : Bool
  pub is_connecting : Bool
  pub error_buffer : Text
  pub last_error : Text
  pub out : List (Text × Bool)
  pub send_queue : List (Text × Bool)
  pub send_offset : ℕ
  pub recv_buffer : Text
  pub recv_binary : Bool
  pub in_handler : Bool
  -- The bytes that curl took, each with the kind of its message, and the messages handed over.
  pub wire : List (ℕ × Bool)
  pub pongs : List Text
  pub delivered : List (Text × Bool)
  -- The entries of `_pendingWebSockets`, whether the poll thread has it in `_activeWebSockets`, and whether
  -- the poll thread, as it ended, has shut it down.
  pub queued : ℕ
  pub active : Bool
  pub is_shut_down : Bool

-- `CreateWebSocket`, which queues the first connection.
abbrev pub create : Client
create = record {
  state = closed;
  force_close = false;
  closing = false;
  has_curl = false;
  is_connecting = false;
  error_buffer = [];
  last_error = [];
  out = [];
  send_queue = [];
  send_offset = 0;
  recv_buffer = [];
  recv_binary = false;
  in_handler = false;
  wire = [];
  pongs = [];
  delivered = [];
  queued = 1;
  active = false;
  is_shut_down = false;
}

send : Text × Bool → Client → Client
send m c = record c { out = c.out ++ m ∷ [] }

-- The destructor, up to its wait for the state `closed`.
pub begin_close : Client → Client
begin_close c = record c { force_close = true; closing = true }

-- A message of which a part was sent is dropped.
drop_partial : ℕ → List (Text × Bool) → List (Text × Bool)
drop_partial n [] = []
drop_partial n (m ∷ ms) = if ltb 0 n then ms else m ∷ ms

fail : ℕ → Text → Client → Client
unfolding drop_partial
fail interval text c = record c {
  has_curl = false;
  send_queue = drop_partial c.send_offset c.send_queue;
  send_offset = 0;
  recv_buffer = [];
  last_error = text;
  queued = if not c.force_close && ltb 0 interval then c.queued + 1 else c.queued;
  state = closed;
}

-- The poll thread takes a due entry off the queue, connects, and keeps the socket if that went well.
-- `created` is whether `curl_easy_init` gives a handle.
connect_due : ℕ → Bool → Client → Client
unfolding fail
connect_due interval created c =
    let d = record c { state = connecting; error_buffer = []; queued = c.queued - 1 } in
    if created
    then record d { has_curl = true; is_connecting = true; active = true }
    else fail interval (codes "Unable to create connection") d

-- `CompleteConnection`; a failure has curl's text for it, which is used if the buffer is empty.
complete_connection : Option Text → Client → Client
complete_connection none c = record c { is_connecting = false; state = opened; last_error = [] }
complete_connection (some text) c = record c {
  is_connecting = false;
  has_curl = false;
  error_buffer = if null c.error_buffer then text else c.error_buffer;
}

-- `Shutdown`, with which the poll thread ends.
shutdown : Client → Client
shutdown c = record c { has_curl = false; state = closed; active = false; is_shut_down = true }

-- What `curl_ws_send` answers: CURLE_OK or CURLE_AGAIN with the number of bytes taken, or an error.
pub data SendAnswer : Type 0 where
  accepts : ℕ → SendAnswer
  blocks : ℕ → SendAnswer
  send_error : Text → SendAnswer

pub tagged : Text → Bool → List (ℕ × Bool)
tagged [] b = []
tagged (x ∷ xs) b = (x, b) ∷ tagged xs b

-- curl has taken at most `n` of the bytes offered of the first message.
took : ℕ → Text → Bool → List (Text × Bool) → Client → Client
took n m b ms c =
    let rest = drop c.send_offset m in
    let offset = c.send_offset + min n (length rest) in
    let d = record c { wire = c.wire ++ tagged (take n rest) b } in
    if leb (length m) offset
    then record d { send_queue = ms; send_offset = 0 }
    else record d { send_queue = (m, b) ∷ ms; send_offset = offset }

-- The loop of `Pump` that sends, on the queue and on curl's answers in turn; when these have run out,
-- curl takes nothing more. The result is the error for `Fail`.
unfoldable pub send_loop : List SendAnswer → List (Text × Bool) → Client → Client × Option Text
unfolding took
send_loop [] ms c = (c, none)
send_loop (a ∷ later) [] c = (c, none)
send_loop (accepts n ∷ rest) ((m, b) ∷ ms) c =
    let c' = took n m b ms c in send_loop rest c'.send_queue c'
send_loop (blocks n ∷ rest) ((m, b) ∷ ms) c = (took n m b ms c, none)
send_loop (send_error text ∷ rest) ((m, b) ∷ ms) c = (c, some text)

-- What `curl_ws_recv` gives with CURLE_OK: the flags and `bytesleft` of the frame's description, and the
-- bytes read.
pub record Piece : Type 0 where
  pub is_close : Bool
  pub is_ping : Bool
  pub is_pong : Bool
  pub is_binary : Bool
  pub is_cont : Bool
  pub bytes_left : ℕ
  pub bytes : Text

-- `lost` is an error, or CURLE_OK with no description.
pub data RecvAnswer : Type 0 where
  piece : Piece → RecvAnswer
  again : RecvAnswer
  lost : Text → RecvAnswer

-- The last piece of a message hands it over.
hand_over : Piece → Client → Client
hand_over p c =
    if p.bytes_left == 0 && not p.is_cont
    then record c {
      delivered =
          if c.in_handler then c.delivered ++ (c.recv_buffer, c.recv_binary) ∷ [] else c.delivered;
      recv_buffer = [];
    }
    else c

pub receive_piece : Piece → Client → Client
unfolding hand_over
receive_piece p c = hand_over p (record c {
  recv_binary = if null c.recv_buffer then p.is_binary else c.recv_binary;
  recv_buffer = c.recv_buffer ++ p.bytes;
})

-- The loop of `Pump` that receives, on curl's answers in turn; no more of them is CURLE_AGAIN.
unfoldable pub recv_loop : List RecvAnswer → Client → Client × Option Text
recv_loop [] c = (c, none)
recv_loop (again ∷ rest) c = (c, none)
recv_loop (lost text ∷ rest) c = (c, some text)
recv_loop (piece p ∷ rest) c =
    let next =
      if p.is_ping
      then record c { pongs = c.pongs ++ p.bytes ∷ [] }
      else if p.is_pong
      then c
      else receive_piece p c in
    let more = recv_loop rest next in
    if p.is_close then (c, some (codes "Connection closed by server")) else more

-- An error of a loop fails the socket; `true` is PumpResult::Active.
settle : ℕ → Client × Option Text → Client × Bool
unfolding fail
settle interval (c, none) = (c, true)
settle interval (c, some text) = (fail interval text c, false)

receive_all : ℕ → List RecvAnswer → Client × Option Text → Client × Bool
unfolding settle
receive_all interval answers (c, none) = settle interval (recv_loop answers c)
receive_all interval answers (c, some text) = settle interval (c, some text)

-- `Pump`, on curl's answers to both loops.
unfoldable pub pump : ℕ → List SendAnswer → List RecvAnswer → Client → Client × Bool
unfolding fail receive_all
pump interval sends receives c =
    let queue = c.send_queue ++ c.out in
    if c.closing
    then (record c { has_curl = false; state = closed }, false)
    else if c.is_connecting
    then (c, true)
    else if not c.has_curl
    then (
      fail interval (if null c.error_buffer then codes "Connection failed" else c.error_buffer) c,
      false,
    )
    else receive_all interval receives
        (send_loop sends queue (record c { send_queue = queue; out = [] }))

-- The poll thread pumps the sockets it has, and lets one go that was closed.
pump_active : ℕ → List SendAnswer → List RecvAnswer → Client → Client
pump_active interval sends receives c =
    let (d, active) = pump interval sends receives c in record d { active = active }

-- A due entry of the queue: the socket is connected unless its destructor has begun.
take_due : ℕ → Bool → Client → Client
unfolding connect_due
take_due interval created c =
    if c.queued == 0
    then c
    else if c.closing
    then record c { queued = c.queued - 1 }
    else connect_due interval created c

-- What a client and the poll thread may call on a socket, with curl's answers.
pub data Call : Type 0 where
  sends : Text × Bool → Call
  listens : Call
  closes : Call
  connects : Bool → Call
  completes : Option Text → Call
  pumps : List SendAnswer → List RecvAnswer → Call
  shuts_down : Call

-- The poll thread calls `CompleteConnection`, `Pump` and, at its end, `Shutdown` on the sockets that it has.
call : ℕ → Call → Client → Client
unfolding take_due pump_active complete_connection begin_close send shutdown
call interval (sends m) c = send m c
call interval listens c = record c { in_handler = true }
call interval closes c = begin_close c
call interval (connects created) c = take_due interval created c
call interval (completes result) c =
    if c.active && c.is_connecting then complete_connection result c else c
call interval (pumps answers reads) c = if c.active then pump_active interval answers reads c else c
call interval shuts_down c = if c.active then shutdown c else c

unfoldable pub call_all : ℕ → List Call → Client → Client
unfolding call
call_all interval [] c = c
call_all interval (x ∷ xs) c = call_all interval xs (call interval x c)
