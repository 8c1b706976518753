-- ===== src/Network/Responses.antt =====
-- HttpServerRequest and HttpServer::HandleRequest of src/core/network/impl/HttpServer.cpp: how a request
-- to the server gets its response. The consumer's calls on the request object are a list; dropping the
-- last reference to it runs the destructor.
use mgdf.Prelude.Int.{ℤ, pos, ltb_ℤ}
use mgdf.Network.Message.{HttpMessage}
use mgdf.Network.Pending.{empty_message}
use mgdf.Network.Encoding.{content_encoding}
use mgdf.Prelude.{
  ◌≡◌, refl, Bool, true, false, ◌&&◌, ◌||◌, Option, none, some, List, [], ◌∷◌, arith, ◌==◌,
  if◌then◌else◌, any, Text, codes, find, insert,
}

-- `PendingHttpResponse`: what the worker thread waits for.
pub record PendingResponse : Type 0 where
  pub ready : Bool
  pub response : HttpMessage

pub record ServerRequest : Type 0 where
  pub sent : Bool
  pub request : HttpMessage
  pub response : HttpMessage
  pub pending : PendingResponse

-- `std::string::find` on a text: whether it holds the other.
is_prefix : Text → Text → Bool
is_prefix [] t = true
is_prefix (p ∷ ps) [] = false
is_prefix (p ∷ ps) (c ∷ cs) = p == c && is_prefix ps cs

contains : Text → Text → Bool
unfolding is_prefix
contains part [] = is_prefix part []
contains part (c ∷ cs) = is_prefix part (c ∷ cs) || contains part cs

abbrev accepts_gzip : Option Text → Bool
accepts_gzip none = false
accepts_gzip (some v) = contains (codes "gzip") v

-- The constructor of `HttpServerRequest`; `pending` is fresh.
pub create : HttpMessage → ServerRequest
create request =
    let encoding =
      if accepts_gzip (find (codes "Accept-Encoding") request.headers)
      then codes "gzip"
      else codes "identity" in
    record {
      sent = false;
      request = request;
      response = record empty_message {
        method = request.method;
        url = request.url;
        headers = insert content_encoding encoding [];
      };
      pending = record { ready = false; response = empty_message };
    }

send_response : ServerRequest → ServerRequest
send_response r =
    if r.sent then r else if r.pending.ready then record r { sent = true } else record r {
      sent = true;
      response = empty_message;
      pending = record { ready = true; response = r.response };
    }

-- What a consumer may call.
pub data Call : Type 0 where
  set_code : ℤ → Call
  set_header : Text → Text → Call
  set_body : Text → Call
  send : Call

call : Call → ServerRequest → ServerRequest
unfolding send_response
call (set_code c) r = record r { response = record r.response { code = c } }
call (set_header name value) r = record r {
  response = record r.response { headers = insert name value r.response.headers };
}
call (set_body b) r = record r { response = record r.response { body = b } }
call send r = send_response r

pub call_all : List Call → ServerRequest → ServerRequest
call_all [] r = r
call_all (c ∷ cs) r = call_all cs (call c r)

-- The destructor of `HttpServerRequest`.
drop_request : ServerRequest → ServerRequest
unfolding send_response
drop_request r =
    if r.sent
    then r
    else send_response (record r {
      response = record r.response { code = pos 500; body = codes "Internal Server Error" };
    })

-- The destructor of `HttpServer`, on one response that a worker still waits for.
server_closes : PendingResponse → PendingResponse
server_closes p = if p.ready then p else record {
  ready = true;
  response = record p.response { code = pos 503; body = codes "Service Unavailable" };
}

-- The code that `HandleRequest` gives to civetweb, once the response was sent.
return_code : HttpMessage → ℤ
return_code m = if ltb_ℤ (pos 0) m.code then m.code else pos 500

-- A whole request: the handler's calls, then the end of its reference.
pub handle : HttpMessage → List Call → PendingResponse
handle request calls = (drop_request (call_all calls (create request))).pending

abbrev is_send : Call → Bool
is_send send = true
is_send _ = false

-- The calls before the first `SendResponse`, and whether there is one.
abbrev before_send : List Call → List Call
before_send [] = []
before_send (c ∷ cs) = if is_send c then [] else c ∷ before_send cs

abbrev sends : List Call → Bool
sends cs = any is_send cs

-- The response as the calls before the first send leave it.
abbrev pub built : HttpMessage → List Call → HttpMessage
built request calls = (call_all (before_send calls) (create request)).response

Sent-stays :
    (cs : List Call) (r : ServerRequest)
    → r.sent ≡ true
    → ((call_all cs r).pending ≡ r.pending) × ((call_all cs r).sent ≡ true)
unfolding call_all call
Sent-stays [] r h = (refl, h)
Sent-stays (c ∷ cs) r h = ground (arith, Sent-stays cs (call c r))

abbrev pub outcome : Bool → HttpMessage → HttpMessage
outcome true m = m
outcome false m = record m { code = pos 500; body = codes "Internal Server Error" }

call_all-pending :
    (cs : List Call) (r : ServerRequest)
    → r.sent ≡ false
    → r.pending.ready ≡ false
    → (drop_request (call_all cs r)).pending ≡ record {
      ready = true;
      response = outcome (sends cs) (call_all (before_send cs) r).response;
    }
unfolding call_all call drop_request
call_all-pending [] r h k = ground arith
call_all-pending (set_code c ∷ cs) r h k = call_all-pending cs (call (set_code c) r) h k
call_all-pending (set_header n v ∷ cs) r h k = call_all-pending cs (call (set_header n v) r) h k
call_all-pending (set_body b ∷ cs) r h k = call_all-pending cs (call (set_body b) r) h k
call_all-pending (send ∷ cs) r h k = ground (arith, Sent-stays cs (call send r))

-- Whatever the consumer calls, the worker that waits gets exactly one response: the one built by the
-- calls before the first `SendResponse`, later calls changing nothing; or, if there is no
-- `SendResponse`, that response with code 500 and the body of an internal error.
pub handle_lem :
    (request : HttpMessage) (calls : List Call)
    → handle request calls
      ≡ record { ready = true; response = outcome (sends calls) (built request calls) }
unfolding handle create
handle_lem request calls = call_all-pending calls (create request) refl refl

ready-stays :
    (cs : List Call) (r : ServerRequest)
    → r.pending.ready ≡ true
    → (drop_request (call_all cs r)).pending ≡ r.pending
unfolding call_all call drop_request
ready-stays [] r h = ground arith
ready-stays (set_code c ∷ cs) r h = ready-stays cs (call (set_code c) r) h
ready-stays (set_header n v ∷ cs) r h = ready-stays cs (call (set_header n v) r) h
ready-stays (set_body b ∷ cs) r h = ready-stays cs (call (set_body b) r) h
ready-stays (send ∷ cs) r h = ground (arith, ready-stays cs (call send r))

-- When the server closes while a request is held, the waiting worker gets the server's 503 if nothing
-- was sent yet, and the response that was sent otherwise; what the consumer calls later, and the end of
-- its reference, change neither.
server_closes_lem :
    (calls : List Call) (r : ServerRequest)
    → let p = server_closes r.pending in
      ((drop_request (call_all calls (record r { pending = p }))).pending ≡ p)
      × (p.ready ≡ true)
      × (p.response.code ≡ (if r.pending.ready then r.pending.response.code else pos 503))
unfolding server_closes
server_closes_lem calls r =
    let p = server_closes r.pending in
    (ready-stays calls (record r { pending = p }) (ground arith), ground arith, ground arith)
