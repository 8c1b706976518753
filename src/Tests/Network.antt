-- ===== src/Tests/Network.antt =====
-- The properties of src/core/network at concrete requests, frames, headers and messages.
use mgdf.Prelude.Int.{pos}
use mgdf.Network.Message.{HttpMessage}
use mgdf.Network.Pending.{empty_message}
use mgdf.Network.Manager.{
  Manager, start, send_request, shutdown, sends, Reach, here, next, case_insensitive_starts_with,
}
use mgdf.Network.Manager.Shutdown.{IsAnswered, shutdown-IsAnswered}
use mgdf.Network.Frames.{Socket, Connection, Frame, opened, handle_all}
use mgdf.Network.Frames.Reassembly.{Message, contents, handle_all-encode_all}
use mgdf.Network.Zlib.{Zlib, joined}
use mgdf.Network.Encoding.{
  encode_body, decode_body, decode_body-encode_body, sent_headers, content_encoding, gzip_name,
}
use mgdf.Network.Responses.{Call, set_code, set_body, send, handle, handle_lem, outcome, built}
use mgdf.Network.Inbox.{empty_inbox, arrive_all, read_all, delivered, read_all-arrive_all}
use mgdf.Prelude.{
  ◌≡◌, refl, sym, ap, ◌∙◌, append-nil, inr, Bool, true, false, Option, none, some, List, [], ◌∷◌,
  arith, drop, null, Text, codes, same_text, find,
}

abbrev request : HttpMessage
request = record empty_message { url = codes "http://a"; method = codes "GET" }

-- One request is sent.
abbrev sent : Manager
sent = send_request request true start

abbrev sent-Reach : Reach sent
sent-Reach = next here (sends request true)

-- The request is queued when the poll thread ends.
shutdown-IsAnswered_example : IsAnswered ((shutdown sent).requests 0)
unfolding send_request start case_insensitive_starts_with
shutdown-IsAnswered_example = shutdown-IsAnswered 0 sent-Reach refl (ground arith)

abbrev open_socket : Socket
open_socket = record {
  state = opened;
  in_handler = true;
  fragments = [];
  fragment_binary = false;
  delivered = [];
}

abbrev connection : Connection
connection = record { socket = some open_socket; pongs = [] }

-- A text in two pieces with a ping between them, and an empty binary message.
abbrev messages : List Message
messages =
    record { binary = false; first = codes "ab"; rest = codes "c" ∷ [] }
    ∷ record { binary = true; first = []; rest = [] }
    ∷ []

abbrev frames : List Frame
frames = (1, codes "ab") ∷ (137, codes "p") ∷ (128, codes "c") ∷ (130, []) ∷ []

handle_all-encode_all_example :
    (t : Socket) × ((handle_all frames connection).socket ≡ some t)
    × (t.delivered ≡ contents messages)
    × (t.fragments ≡ [])
handle_all-encode_all_example =
    handle_all-encode_all frames messages connection open_socket refl refl refl refl refl refl

abbrev headers : List (Text × Text)
headers = (codes "A", codes "b") ∷ (content_encoding, gzip_name) ∷ []

pieces_of : Option (List Text × Bool) → Text
pieces_of none = []
pieces_of (some (cs, ended)) = joined cs

abbrev framed : Text → Option (List Text × Bool)
framed s = some ((1 ∷ []) ∷ s ∷ [], true)

framed-joined : (s : Text) (cs : List Text) → framed s ≡ some (cs, true) → 1 ∷ s ≡ joined cs
unfolding pieces_of
framed-joined s cs h = ap (λ r. 1 ∷ r) (sym (append-nil s)) ∙ ap pieces_of h

-- A stand-in that frames the text with one byte, given in a call of its own.
abbrev store : Zlib
store = record {
  deflates = framed;
  inflates = λ t. some (drop 1 t ∷ [], true);
  inflates-deflates = λ s cs h. (
    drop 1 (joined cs) ∷ [],
    refl,
    append-nil (drop 1 (joined cs)) ∙ ap (drop 1) (sym (framed-joined s cs h)),
  );
  deflates_nonempty = λ s cs h. ap null (sym (framed-joined s cs h));
}

abbrev zipped : HttpMessage
zipped = record empty_message { body = codes "ok"; headers = headers }

abbrev arrived : HttpMessage
arrived = record empty_message { headers = sent_headers store zipped (encode_body store zipped).1 }

decode_body-encode_body_example :
    (decode_body store (encode_body store zipped).0 arrived).body ≡ codes "ok"
unfolding find same_text
decode_body-encode_body_example =
    decode_body-encode_body store zipped arrived (inr refl) (omega arith) (omega arith) refl refl

abbrev calls : List Call
calls = set_code (pos 404) ∷ set_body (codes "no") ∷ send ∷ set_code (pos 200) ∷ []

handle_lem_example :
    handle request calls ≡ record { ready = true; response = outcome true (built request calls) }
handle_lem_example = handle_lem request calls

abbrev inbound : List (Text × Bool)
inbound = (codes "one", false) ∷ ([], true) ∷ []

read_all-arrive_all_example : read_all 2 3 (arrive_all inbound empty_inbox) ≡ delivered inbound
read_all-arrive_all_example = read_all-arrive_all inbound 3 refl
