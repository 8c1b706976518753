-- ===== src/Network/Frames/Reassembly.antt =====
-- Messages survive fragmentation, and control frames between the fragments.
use mgdf.Network.Frames.{
  op_text, op_binary, op_close, op_ping, op_pong, is_closed, Socket, Frame, opcode_of,
  receive_frame, Connection, handle_data, handle_all,
}
use mgdf.Prelude.{
  ℕ, ◌+◌, ◌≡◌, refl, Bool, true, false, not, ◌&&◌, some, List, [], ◌∷◌, ◌++◌, append-nil,
  append_assoc, arith, ◌==◌, keep, all, Text,
}

-- A message as its sender cuts it: the pieces are not empty of frames, but may be empty of bytes.
pub record Message : Type 0 where
  pub binary : Bool
  pub first : Text
  pub rest : List Text

abbrev concat : List Text → Text
concat [] = []
concat (p ∷ ps) = p ++ concat ps

abbrev payload : Message → Text
payload m = m.first ++ concat m.rest

abbrev opcode : Bool → ℕ
opcode true = op_binary
opcode false = op_text

-- RFC 6455: the opcode on the first frame, continuations after it, and FIN (128) on the last.
abbrev conts : List Text → List Frame
conts [] = []
conts (p ∷ []) = (128, p) ∷ []
conts (p ∷ q ∷ ps) = (0, p) ∷ conts (q ∷ ps)

abbrev encode_pieces : Bool → Text → List Text → List Frame
encode_pieces b first [] = (128 + opcode b, first) ∷ []
encode_pieces b first (p ∷ ps) = (opcode b, first) ∷ conts (p ∷ ps)

abbrev encode : Message → List Frame
encode m = encode_pieces m.binary m.first m.rest

abbrev encode_all : List Message → List Frame
encode_all [] = []
encode_all (m ∷ ms) = encode m ++ encode_all ms

abbrev pub contents : List Message → List (Text × Bool)
contents [] = []
contents (m ∷ ms) = (payload m, m.binary) ∷ contents ms

abbrev receive_all : List Frame → Socket → Socket
receive_all [] s = s
receive_all (f ∷ fs) s = receive_all fs (receive_frame f s)

receive_all-append :
    (fs gs : List Frame) (s : Socket) → receive_all (fs ++ gs) s ≡ receive_all gs (receive_all fs s)
receive_all-append [] gs s = refl
receive_all-append (f ∷ fs) gs s = receive_all-append fs gs (receive_frame f s)

abbrev after_message : Socket → Text → Bool → Socket
after_message s message b = record s {
  fragments = [];
  fragment_binary = b;
  delivered = s.delivered ++ (message, b) ∷ [];
}

receive_conts :
    (p : Text) (ps : List Text) (s : Socket)
    → is_closed s.state ≡ false
    → s.in_handler ≡ true
    → receive_all (conts (p ∷ ps)) s
      ≡ after_message s (s.fragments ++ concat (p ∷ ps)) s.fragment_binary
unfolding receive_frame
receive_conts p [] s h k = ground (arith, append-nil p)
receive_conts p (q ∷ ps) s h k = ground (
  arith,
  receive_conts q ps (record s { fragments = s.fragments ++ p }) h k,
  append_assoc s.fragments p (q ++ concat ps),
)

-- From `s` to `t` the messages were delivered, and nothing is left over.
record Delivers (s t : Socket) (ms : List Message) : Type 0 where
  state_kept : t.state ≡ s.state
  handler_kept : t.in_handler ≡ s.in_handler
  nothing_left : t.fragments ≡ []
  delivered_all : t.delivered ≡ s.delivered ++ contents ms

receive_message :
    (m : Message) (s : Socket)
    → is_closed s.state ≡ false
    → s.in_handler ≡ true
    → s.fragments ≡ []
    → Delivers s (receive_all (encode m) s) (m ∷ [])
unfolding receive_frame
receive_message m s h k e = go m.binary m.rest
  where
    go :
        (b : Bool) (rest : List Text)
        → Delivers s
            (receive_all (encode_pieces b m.first rest) s)
            (record { binary = b; first = m.first; rest = rest } ∷ [])
    go true [] = ground (arith, append-nil m.first)
    go false [] = ground (arith, append-nil m.first)
    go true (p ∷ ps) =
        ground
          (arith, receive_conts p ps (record s { fragments = m.first; fragment_binary = true }) h k)
    go false (p ∷ ps) =
        ground (
          arith,
          receive_conts p ps (record s { fragments = m.first; fragment_binary = false }) h k,
        )

receive_messages :
    (ms : List Message) (s : Socket)
    → is_closed s.state ≡ false
    → s.in_handler ≡ true
    → s.fragments ≡ []
    → Delivers s (receive_all (encode_all ms) s) ms
receive_messages [] s h k e = ground (arith, append-nil s.delivered)
receive_messages (m ∷ ms) s h k e =
    let t = receive_all (encode m) s in
    let one = receive_message m s h k e in
    ground (
      arith,
      one,
      receive_messages ms t,
      receive_all-append (encode m) (encode_all ms) s,
      append_assoc s.delivered ((payload m, m.binary) ∷ []) (contents ms),
    )

-- Neither a close frame nor, by this test, a control frame.
abbrev is_data : Frame → Bool
is_data f = not (opcode_of f.0 == op_ping) && not (opcode_of f.0 == op_pong)

abbrev no_close : List Frame → Bool
no_close fs = all (λ f. not (opcode_of f.0 == op_close)) fs

-- The socket sees the data frames alone.
handle_all-socket :
    (fs : List Frame) (c : Connection) (s : Socket)
    → no_close fs ≡ true
    → c.socket ≡ some s
    → (handle_all fs c).socket ≡ some (receive_all (keep is_data fs) s)
unfolding handle_all handle_data
handle_all-socket [] c s h e = e
handle_all-socket ((bits, p) ∷ fs) c s h e =
    let t = receive_frame (bits, p) s in
    ground (
      arith,
      handle_all-socket fs c s,
      handle_all-socket fs (record c { pongs = c.pongs ++ p ∷ [] }) s,
      handle_all-socket fs (record c { socket = some t }) t,
    )

-- Text and binary messages arrive whole, in order and with their kind, however the sender cut them
-- into frames, and wherever ping and pong frames came in between: from an open socket with a handler
-- and no fragment pending, if the frames hold no close frame, and without the pings and pongs are the
-- encoding of some messages, then the handler is called with exactly their payloads, and no fragment
-- is left.
pub handle_all-encode_all :
    (fs : List Frame) (ms : List Message) (c : Connection) (s : Socket)
    → c.socket ≡ some s
    → is_closed s.state ≡ false
    → s.in_handler ≡ true
    → s.fragments ≡ []
    → no_close fs ≡ true
    → keep is_data fs ≡ encode_all ms
    → (t : Socket) × ((handle_all fs c).socket ≡ some t)
      × (t.delivered ≡ s.delivered ++ contents ms)
      × (t.fragments ≡ [])
handle_all-encode_all fs ms c s e h k f n d =
    let t = receive_all (keep is_data fs) s in
    let r = receive_messages ms s h k f in
    (t, handle_all-socket fs c s n e, rw d r.delivered_all, rw d r.nothing_left)
