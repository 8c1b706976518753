-- ===== src/Network/Manager.antt =====
-- NetworkManagerComponent of src/core/network/impl/NetworkManagerComponentImpl.cpp: the queue of new
-- requests, the poll thread's active requests, and its shutdown. Request objects are shared by pointer:
-- a request is a number, and `requests` is the store. curl's outcomes are arguments.
pub mod Invariant
pub mod Shutdown
use mgdf.Network.Message.{HttpMessage}
use mgdf.Network.Pending.{
  RequestState, requesting, cancelled, failed, Pending, create, set_response, cancel_request,
  CurlResult, complete_connection, cancelled_message, empty_message,
}
use mgdf.Prelude.{
  ℕ, zero, suc, ◌+◌, ◌-◌, ◌*◌, ◌/◌, ◌%◌, ◌^◌, ◌≤◌, ◌<◌, min, max, ◌≡◌, refl, sym, ap, ◌∙◌, ◌≢◌, ◌↔◌,
  ◌⊎◌, inl, inr, Bool, true, false, not, ◌&&◌, ◌||◌, Option, none, some, List, [], ◌∷◌, ◌++◌, map,
  append-nil, append_assoc, arith, ltb, leb, ◌==◌, if◌then◌else◌, ltb→lt, lt→ltb, ==_iff, ==_refl,
  Bool-cases, Option-cases, length, get_elem?, take, drop, keep, any, all, null, length-append,
  length-take, length-drop, length-keep-le, keep-append, Text, codes, same_text, same_text_refl,
  same_text→eq, same_text_ne, find, insert, assign, find-insert, find-assign,
}

-- `std::tolower` on a byte, in the C locale.
to_lower : ℕ → ℕ
to_lower c = if leb b'A' c && leb c b'Z' then c + 32 else c

-- The loop of `CaseInsensitiveStartsWith` over the prefix.
starts_with_loop : Text → Text → Bool
unfolding to_lower
starts_with_loop str [] = true
starts_with_loop [] (p ∷ prefix) = false
starts_with_loop (c ∷ str) (p ∷ prefix) =
    if to_lower c == to_lower p then starts_with_loop str prefix else false

unfoldable pub case_insensitive_starts_with : Text → Text → Bool
unfolding starts_with_loop
case_insensitive_starts_with str prefix =
    if ltb (length str) (length prefix) then false else starts_with_loop str prefix

pub record Manager : Type 0 where
  pub requests : ℕ → Pending
  pub count : ℕ
  pub new_requests : List ℕ
  pub starting : List ℕ
  pub active : List ℕ
  pub running : Bool

abbrev update : (ℕ → Pending) → ℕ → Pending → ℕ → Pending
update f i p j = if i == j then p else f j

abbrev mem : ℕ → List ℕ → Bool
mem i xs = any (λ j. j == i) xs

abbrev is_cancelled : RequestState → Bool
is_cancelled cancelled = true
is_cancelled _ = false

abbrev valid_protocol : Text → Bool
valid_protocol url =
    case_insensitive_starts_with url (codes "http://")
    || case_insensitive_starts_with url (codes "https://")

-- `SendRequest`: the new request's number is the old `count`.
unfoldable pub send_request : HttpMessage → Bool → Manager → Manager
send_request request handler m =
    let p = create request handler in
    if valid_protocol request.url
    then record m {
      requests = update m.requests m.count p;
      count = m.count + 1;
      new_requests = m.new_requests ++ m.count ∷ [];
    }
    else record m {
      requests =
          update m.requests m.count
            (set_response failed (record empty_message { error = codes "Invalid URL protocol" }) p);
      count = m.count + 1;
    }

-- `CancelRequest` of a request that a client holds.
pub cancel : ℕ → Manager → Manager
cancel i m = record m { requests = update m.requests i (cancel_request (m.requests i)) }

-- The poll thread takes the whole queue of new requests.
pub swap_new : Manager → Manager
swap_new m = record m { starting = m.new_requests; new_requests = [] }

start_head : List ℕ → Bool → Manager → Manager
start_head [] created m = m
start_head (i ∷ rest) created m =
    if is_cancelled (m.requests i).state
    then record m { starting = rest }
    else if created
    then record m { starting = rest; active = m.active ++ i ∷ [] }
    else record m {
      starting = rest;
      requests = update m.requests i (
          set_response failed (record empty_message { error = codes "Unable to create connection" })
            (m.requests i));
    }

-- One round of the loop over the taken requests; `created` is the outcome of `CreateConnection`.
pub start_one : Bool → Manager → Manager
unfolding start_head
start_one created m = start_head m.starting created m

-- The connections of cancelled requests are released.
pub reap : Manager → Manager
reap m = record m { active = keep (λ i. not (is_cancelled (m.requests i).state)) m.active }

-- curl reports that the transfer of an active request has ended.
pub complete_one : ℕ → CurlResult → Manager → Manager
complete_one i result m =
    if mem i m.active
    then record m {
      requests = update m.requests i (complete_connection result (m.requests i));
      active = keep (λ j. not (j == i)) m.active;
    }
    else m

pub cancel_all : List ℕ → (ℕ → Pending) → ℕ → Pending
cancel_all [] f = f
cancel_all (i ∷ xs) f = cancel_all xs (update f i (set_response cancelled cancelled_message (f i)))

-- What the poll thread does after its loop.
pub shutdown : Manager → Manager
shutdown m = record m {
  requests = cancel_all m.active (cancel_all m.new_requests m.requests);
  new_requests = [];
  active = [];
}

-- `Stop`, up to the join; the destructor, after it, cancels what was queued since.
pub stop : Manager → Manager
stop m = record m { running = false }

destroy : Manager → Manager
destroy m = record m { requests = cancel_all m.new_requests m.requests; new_requests = [] }

unfoldable pub start : Manager
start = record {
  requests = λ _. create empty_message false;
  count = 0;
  new_requests = [];
  starting = [];
  active = [];
  running = true;
}

-- What clients and the poll thread may do next, in any interleaving. The loop's local queue is used up
-- before the next round, and before the thread leaves the loop.
pub data Step : Manager → Manager → Type 0 where
  sends :
      {m : Manager} (request : HttpMessage) (handler : Bool)
      → Step m (send_request request handler m)
  cancels : {m : Manager} (i : ℕ) → i < m.count → Step m (cancel i m)
  polls : {m : Manager} → m.running ≡ true → m.starting ≡ [] → Step m (swap_new m)
  starts : {m : Manager} (created : Bool) → Step m (start_one created m)
  reaps : {m : Manager} → Step m (reap m)
  completes : {m : Manager} (i : ℕ) (result : CurlResult) → Step m (complete_one i result m)
  stops : {m : Manager} → Step m (stop m)
  exits : {m : Manager} → m.running ≡ false → m.starting ≡ [] → Step m (shutdown m)

pub data Reach : Manager → Type 0 where
  here : Reach start
  next : {m n : Manager} → Reach m → Step m n → Reach n
