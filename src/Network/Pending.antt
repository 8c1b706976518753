-- ===== src/Network/Pending.antt =====
-- HttpClientPendingRequest of src/core/network/impl/NetworkManagerComponentImpl.cpp: one request, its
-- state and its response. The callback is observed: `given` says whether the sender passed one, and
-- `handled` holds the responses that it was called with.
pub mod Once
use mgdf.Prelude.Int.{negsuc, pos}
use mgdf.Prelude.{
  Bool, true, false, ◌&&◌, ◌||◌, Option, none, some, List, [], ◌∷◌, ◌++◌, Text, codes,
  if◌then◌else◌,
}
use mgdf.Network.Message.{HttpMessage}

-- `HttpRequestState`; `failed` is `Error`.
pub data RequestState : Type 0 where
  requesting cancelled failed complete : RequestState

abbrev is_requesting : RequestState → Bool
is_requesting requesting = true
is_requesting _ = false

-- The test that `GetResponse` and `SetResponse` make: complete, failed or cancelled.
abbrev pub is_settled : RequestState → Bool
is_settled requesting = false
is_settled cancelled = true
is_settled failed = true
is_settled complete = true

pub record Pending : Type 0 where
  pub state : RequestState
  pub request : HttpMessage
  pub response : Option HttpMessage
  pub handler : Bool
  pub given : Bool
  pub handled : List HttpMessage

abbrev pub empty_message : HttpMessage
empty_message = record { code = pos 0; url = []; body = []; method = []; error = []; headers = [] }

abbrev pub cancelled_message : HttpMessage
cancelled_message = record empty_message { code = negsuc 0; error = codes "Cancelled" }

-- The constructor of `HttpClientPendingRequest`.
pub create : HttpMessage → Bool → Pending
create request handler = record {
  state = requesting;
  request = request;
  response = none;
  handler = handler;
  given = handler;
  handled = [];
}

abbrev called_with : Option HttpMessage → List HttpMessage
called_with none = []
called_with (some r) = r ∷ []

-- The first half of `SetResponse`: the state changes only while the request is open.
settle : RequestState → HttpMessage → Pending → Pending
settle state response p =
    if is_requesting p.state
    then record p {
      state = state;
      response = some (record response { method = p.request.method; url = p.request.url });
    }
    else p

-- The second half: the callback is taken out, and called if the request is settled.
notify : Bool → Pending → Pending
notify handler p = record p {
  handler = false;
  handled =
      if handler && is_settled p.state then p.handled ++ called_with p.response else p.handled;
}

unfoldable pub set_response : RequestState → HttpMessage → Pending → Pending
unfolding settle notify
set_response state response p = notify p.handler (settle state response p)

unfoldable pub cancel_request : Pending → Pending
unfolding set_response
cancel_request p = set_response cancelled cancelled_message p

-- `none` is the result `false`.
get_response : Pending → Option (Option HttpMessage)
get_response p = if is_settled p.state then some p.response else none

-- `CompleteConnection`: the code that curl reports, or the text of its error.
pub data CurlResult : Type 0 where
  ok : HttpMessage → CurlResult
  error : Text → CurlResult

unfoldable pub complete_connection : CurlResult → Pending → Pending
unfolding set_response
complete_connection (ok working) p = set_response complete working p
complete_connection (error text) p = set_response failed (record empty_message { error = text }) p
