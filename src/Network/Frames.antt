-- ===== src/Network/Frames.antt =====
-- ServerWebSocket::ReceiveFrame and Deliver, and HttpServer::HandleWebSocketData, of
-- src/core/network/impl/HttpServer.cpp: text and binary messages put together from frames. The handler
-- is observed by the list of the messages that it was called with. The opcodes are civetweb's, which
-- are those of RFC 6455.
pub mod Reassembly
use mgdf.Prelude.{
  ℕ, zero, suc, ◌+◌, ◌-◌, ◌*◌, ◌/◌, ◌%◌, ◌^◌, ◌≤◌, ◌<◌, min, max, ◌≡◌, refl, sym, ap, ◌∙◌, ◌≢◌, ◌↔◌,
  ◌⊎◌, inl, inr, Bool, true, false, not, ◌&&◌, ◌||◌, Option, none, some, List, [], ◌∷◌, ◌++◌, map,
  append-nil, append_assoc, arith, ltb, leb, ◌==◌, if◌then◌else◌, ltb→lt, lt→ltb, ==_iff, ==_refl,
  Bool-cases, Option-cases, length, get_elem?, take, drop, keep, any, all, null, length-append,
  length-take, length-drop, length-keep-le, keep-append, Text, codes, same_text, same_text_refl,
  same_text→eq, same_text_ne, find, insert, assign, find-insert, find-assign,
}

abbrev op_continuation : ℕ
op_continuation = 0

abbrev op_text : ℕ
op_text = 1

abbrev op_binary : ℕ
op_binary = 2

abbrev op_close : ℕ
op_close = 8

abbrev op_ping : ℕ
op_ping = 9

abbrev op_pong : ℕ
op_pong = 10

-- `MGDFWebSocketConnectionState`.
pub data ConnectionState : Type 0 where
  connecting opened closed : ConnectionState

abbrev pub is_closed : ConnectionState → Bool
is_closed closed = true
is_closed _ = false

pub record Socket : Type 0 where
  pub state : ConnectionState
  pub in_handler : Bool
  pub fragments : Text
  pub fragment_binary : Bool
  pub delivered : List (Text × Bool)

-- A frame: civetweb's flag byte, and the payload.
abbrev pub Frame : Type 0
Frame = ℕ × Text

-- `bits & 0xf` and `(bits & 0x80) != 0`.
abbrev opcode_of : ℕ → ℕ
opcode_of bits = bits % 16

abbrev is_final : ℕ → Bool
is_final bits = not (bits / 128 % 2 == 0)

deliver : Text → Bool → Socket → Socket
deliver message binary s =
    if is_closed s.state
    then s
    else if s.in_handler
    then record s { delivered = s.delivered ++ (message, binary) ∷ [] }
    else s

-- The branch of `ReceiveFrame` that collects fragments.
collect : ℕ → Text → Socket → Socket
collect bits payload s = record s {
  fragment_binary =
      if not (opcode_of bits == op_continuation)
      then opcode_of bits == op_binary
      else s.fragment_binary;
  fragments = s.fragments ++ payload;
}

-- A final fragment delivers what was collected.
finish : Bool → Socket → Socket
unfolding deliver
finish final s =
    if not final then s else record (deliver s.fragments s.fragment_binary s) { fragments = [] }

receive_frame : Frame → Socket → Socket
unfolding deliver collect finish
receive_frame (bits, payload) s =
    if opcode_of bits == op_continuation || (not (is_final bits) || not (null s.fragments))
    then finish (is_final bits) (collect bits payload s)
    else deliver payload (opcode_of bits == op_binary) s

-- A connection of the server: its socket, if the consumer still holds it, and the pongs written.
pub record Connection : Type 0 where
  pub socket : Option Socket
  pub pongs : List Text

receive_on : Frame → Option Socket → Option Socket
receive_on frame none = none
receive_on frame (some s) = some (receive_frame frame s)

-- The result `false` tells civetweb to close the connection.
handle_data : Frame → Connection → Connection × Bool
unfolding receive_on
handle_data (bits, payload) c =
    if opcode_of bits == op_close
    then (c, false)
    else if opcode_of bits == op_ping
    then (record c { pongs = c.pongs ++ payload ∷ [] }, true)
    else if opcode_of bits == op_pong
    then (c, true)
    else (record c { socket = receive_on (bits, payload) c.socket }, true)

-- Frames as they arrive, until a handler asks to close.
pub handle_all : List Frame → Connection → Connection
handle_all [] c = c
handle_all (f ∷ fs) c =
    let (c', open_still) = handle_data f c in
    let rest = handle_all fs c' in if open_still then rest else c'
