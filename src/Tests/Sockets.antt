-- ===== src/Tests/Sockets.antt =====
-- The properties of the websocket client at concrete messages and answers.
use mgdf.Network.WebSocket.{
  Client, create, Call, sends, listens, connects, completes, pumps, SendAnswer, accepts, send_error,
  piece, Piece, pump, recv_loop, call_all, begin_close, send_loop,
}
use mgdf.Network.WebSocket.Sending.Pumping.{Kept, traffic, pump-Kept}
use mgdf.Network.WebSocket.Receiving.{Cut, message_of, pieces_of, recv_loop-pieces_of}
use mgdf.Network.WebSocket.Lifecycle.{call_all-queued, begin_close-call_all, IsReleased}
use mgdf.Network.Frames.{opened}
use mgdf.Prelude.{
  ℕ, ◌+◌, ◌≡◌, refl, Bool, true, false, none, List, [], ◌∷◌, ◌++◌, map, arith, if◌then◌else◌, Text,
  codes,
}

abbrev socket : Client
socket = record create {
  state = opened;
  has_curl = true;
  queued = 0;
  active = true;
  in_handler = true;
  send_queue = (codes "first", false) ∷ [];
  send_offset = 2;
  out = (codes "second", true) ∷ [];
}

abbrev broken : List SendAnswer
broken = accepts 3 ∷ accepts 2 ∷ send_error (codes "reset") ∷ []

pump-Kept_example :
    Kept (socket.send_queue ++ socket.out) (traffic socket) (pump 100 broken [] socket)
pump-Kept_example = pump-Kept 100 broken [] socket refl refl refl

abbrev ping : Piece
ping = record {
  is_close = false;
  is_ping = true;
  is_pong = false;
  is_binary = false;
  is_cont = false;
  bytes_left = 0;
  bytes = codes "ping";
}

abbrev part : Text → ℕ → Bool → Piece
part bytes left cont = record ping {
  is_ping = false;
  bytes = bytes;
  bytes_left = left;
  is_cont = cont;
}

abbrev hello : Cut
hello = record {
  leading = (codes "he", 1, false) ∷ (codes "l", 0, true) ∷ [];
  last = codes "lo";
  binary = false;
}

abbrev received : List Piece
received =
    part (codes "he") 1 false ∷ ping ∷ part (codes "l") 0 true ∷ part (codes "lo") 0 false ∷ []

recv_loop-pieces_of_example :
    ((recv_loop (map piece received) socket).0.delivered ≡ [] ++ map message_of (hello ∷ []))
    × ((recv_loop (map piece received) socket).0.recv_buffer ≡ [])
    × ((recv_loop (map piece received) socket).1 ≡ none)
unfolding pieces_of
recv_loop-pieces_of_example = recv_loop-pieces_of (hello ∷ []) received socket refl refl refl refl

abbrev calls : List Call
calls =
    listens
    ∷ connects true
    ∷ completes none
    ∷ sends (codes "a", false)
    ∷ pumps broken []
    ∷ connects true
    ∷ []

call_all-queued_example :
    (call_all 100 calls create).queued + (if (call_all 100 calls create).active then 1 else 0)
    ≡ (if (call_all 100 calls create).is_shut_down then 0 else 1)
unfolding call_all pump send_loop recv_loop
call_all-queued_example = call_all-queued 100 calls (omega arith) refl

begin_close-call_all_example : IsReleased (
    call_all 100
      (connects true ∷ pumps broken [] ∷ sends (codes "b", true) ∷ [])
      (begin_close (call_all 100 calls create)))
begin_close-call_all_example =
    begin_close-call_all 100 calls (connects true ∷ pumps broken [] ∷ sends (codes "b", true) ∷ [])
      (omega arith) refl
