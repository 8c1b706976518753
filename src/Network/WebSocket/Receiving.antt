-- ===== src/Network/WebSocket/Receiving.antt =====
-- What a pumped websocket client receives: messages put together from the pieces that curl reads.
use mgdf.Network.WebSocket.{Client, piece, Piece, hand_over, receive_piece, recv_loop}
use mgdf.Prelude.{
  ℕ, ◌≡◌, refl, ap, ◌∙◌, Bool, true, false, not, ◌&&◌, ◌||◌, none, List, [], ◌∷◌, ◌++◌, map,
  append-nil, append_assoc, arith, ◌==◌, if◌then◌else◌, keep, all, null, Text,
}

-- A message as the peer and curl cut it up: the pieces before the last one, each with the bytes left in
-- its frame and whether more frames follow, the last one, and its kind.
pub record Cut : Type 0 where
  pub leading : List (Text × ℕ × Bool)
  pub last : Text
  pub binary : Bool

text_of : List (Text × ℕ × Bool) → Text → Text
text_of [] last = last
text_of ((bytes, left, cont) ∷ rest) last = bytes ++ text_of rest last

pub message_of : Cut → Text × Bool
unfolding text_of
message_of m = (text_of m.leading m.last, m.binary)

abbrev plain : Piece
plain = record {
  is_close = false;
  is_ping = false;
  is_pong = false;
  is_binary = false;
  is_cont = false;
  bytes_left = 0;
  bytes = [];
}

cut : List (Text × ℕ × Bool) → Text → Bool → List Piece
cut [] last b = record plain { is_binary = b; bytes = last } ∷ []
cut ((bytes, left, cont) ∷ rest) last b =
    record plain { is_binary = b; bytes = bytes; bytes_left = left; is_cont = left == 0 || cont }
    ∷ cut rest last b

unfoldable pub pieces_of : List Cut → List Piece
unfolding cut
pieces_of [] = []
pieces_of (m ∷ ms) = cut m.leading m.last m.binary ++ pieces_of ms

abbrev is_data : Piece → Bool
is_data p = not p.is_ping && not p.is_pong

absorb : List Piece → Client → Client
absorb [] c = c
absorb (p ∷ ps) c = absorb ps (receive_piece p c)

absorb-append : (ps qs : List Piece) (c : Client) → absorb (ps ++ qs) c ≡ absorb qs (absorb ps c)
unfolding absorb
absorb-append [] qs c = refl
absorb-append (p ∷ ps) qs c = absorb-append ps qs (receive_piece p c)

abbrev quiet : Client → Client
quiet c = record c { pongs = [] }

receive_piece-quiet :
    (p : Piece) (c : Client) → quiet (receive_piece p c) ≡ receive_piece p (quiet c)
unfolding receive_piece hand_over
receive_piece-quiet p c = ground arith

-- Pings and pongs change nothing else.
recv_loop-absorb :
    (ps : List Piece) (c : Client)
    → all (λ (p : Piece). not p.is_close) ps ≡ true
    → (quiet (recv_loop (map piece ps) c).0 ≡ absorb (keep is_data ps) (quiet c))
      × ((recv_loop (map piece ps) c).1 ≡ none)
unfolding recv_loop absorb
recv_loop-absorb [] c h = (refl, refl)
recv_loop-absorb (p ∷ ps) c h = ground (
  arith,
  receive_piece-quiet p c,
  recv_loop-absorb ps c,
  recv_loop-absorb ps (receive_piece p c),
  recv_loop-absorb ps (record c { pongs = c.pongs ++ p.bytes ∷ [] }),
)

-- The client after a message, with what was there of it before.
after : Text → Bool → Client → Client
after text b c = record c {
  delivered = c.delivered ++ (c.recv_buffer ++ text, b) ∷ [];
  recv_buffer = [];
  recv_binary = b;
}

collected : Text → Bool → Client → Client
collected bytes b c = record c { recv_buffer = c.recv_buffer ++ bytes; recv_binary = b }

receive_piece-leading :
    (bytes : Text) (left : ℕ) (cont b : Bool) (c : Client)
    → (if null c.recv_buffer then b else c.recv_binary) ≡ b
    → receive_piece
        (record plain {
          is_binary = b;
          bytes = bytes;
          bytes_left = left;
          is_cont = left == 0 || cont;
        })
        c
      ≡ collected bytes b c
unfolding receive_piece hand_over collected
receive_piece-leading bytes left cont b c k = ground arith

absorb-last :
    (last : Text) (b : Bool) (c : Client)
    → c.in_handler ≡ true
    → (if null c.recv_buffer then b else c.recv_binary) ≡ b
    → absorb (cut [] last b) c ≡ after last b c
unfolding absorb cut receive_piece hand_over after
absorb-last last b c h k = ground arith

if_same : (t b : Bool) → (if t then b else b) ≡ b
if_same true b = refl
if_same false b = refl

after-collected :
    (bytes text : Text) (b : Bool) (c : Client)
    → after text b (collected bytes b c) ≡ after (bytes ++ text) b c
unfolding after collected
after-collected bytes text b c = simp append_assoc

absorb-cut :
    (leading : List (Text × ℕ × Bool)) (last : Text) (b : Bool) (c : Client)
    → c.in_handler ≡ true
    → (if null c.recv_buffer then b else c.recv_binary) ≡ b
    → absorb (cut leading last b) c ≡ after (text_of leading last) b c
unfolding absorb cut text_of collected
absorb-cut [] last b c h k = absorb-last last b c h k
absorb-cut ((bytes, left, cont) ∷ rest) last b c h k =
    ap (absorb (cut rest last b)) (receive_piece-leading bytes left cont b c k)
    ∙ absorb-cut rest last b (collected bytes b c) h (if_same (null (c.recv_buffer ++ bytes)) b)
    ∙ after-collected bytes (text_of rest last) b c

-- Whole messages, one after the other.
absorb-pieces_of :
    (ms : List Cut) (c : Client)
    → c.in_handler ≡ true
    → c.recv_buffer ≡ []
    → ((absorb (pieces_of ms) c).delivered ≡ c.delivered ++ map message_of ms)
      × ((absorb (pieces_of ms) c).recv_buffer ≡ [])
unfolding absorb pieces_of message_of after
absorb-pieces_of [] c h e = (rw append-nil, e)
absorb-pieces_of (m ∷ ms) c h e =
    let ps = cut m.leading m.last m.binary in
    let d = after (text_of m.leading m.last) m.binary c in
    let (sent, empty) = absorb-pieces_of ms d h refl in
    rw (absorb-append ps (pieces_of ms) c, absorb-cut m.leading m.last m.binary c h (rw e refl))
      (
        sent
            ∙ rw e (
                append_assoc c.delivered ((text_of m.leading m.last, m.binary) ∷ [])
                  (map message_of ms)),
        empty,
      )

-- Messages arrive whole, in order and with their kind, however they were cut into frames and pieces, and
-- wherever pings and pongs came in between: from a client with a handler and nothing collected, if curl
-- reads no close frame, and the pieces that are neither ping nor pong are those of some messages, then
-- the handler is called with exactly these, nothing stays collected, and no error is reported.
pub recv_loop-pieces_of :
    (ms : List Cut) (ps : List Piece) (c : Client)
    → c.in_handler ≡ true
    → c.recv_buffer ≡ []
    → all (λ (p : Piece). not p.is_close) ps ≡ true
    → keep is_data ps ≡ pieces_of ms
    → ((recv_loop (map piece ps) c).0.delivered ≡ c.delivered ++ map message_of ms)
      × ((recv_loop (map piece ps) c).0.recv_buffer ≡ [])
      × ((recv_loop (map piece ps) c).1 ≡ none)
recv_loop-pieces_of ms ps c h e open_still k =
    let (same, no_error) = recv_loop-absorb ps c open_still in
    let (all_sent, empty) = absorb-pieces_of ms (quiet c) h e in
    let same' = rw k at same in
    (
      ap (λ (d : Client). d.delivered) same' ∙ all_sent,
      ap (λ (d : Client). d.recv_buffer) same' ∙ empty,
      no_error,
    )
