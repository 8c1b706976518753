-- ===== src/Network/Manager/Invariant.antt =====
-- No request is lost: one that is still open is in the queue or in the poll thread's hands.
use mgdf.Network.Message.{HttpMessage}
use mgdf.Network.Pending.{
  RequestState, requesting, cancelled, failed, complete, is_settled, Pending, create, set_response,
  cancel_request, CurlResult, ok, error, complete_connection, cancelled_message, empty_message,
}
use mgdf.Network.Pending.Once.{IsOnce, create-IsOnce, set_response-IsOnce}
use mgdf.Network.Manager.{
  Manager, update, mem, is_cancelled, send_request, cancel, swap_new, start_head, start_one, reap,
  complete_one, cancel_all, shutdown, stop, start, Step, sends, cancels, polls, starts, reaps,
  completes, stops, exits, Reach, here, next,
}
use mgdf.Prelude.{
  ℕ, ◌<◌, ◌≡◌, refl, ◌≢◌, ◌⊎◌, inl, inr, Bool, true, not, ◌||◌, List, [], ◌∷◌, ◌++◌, arith, ◌==◌,
  ==_iff, ==_refl, Bool-cases, keep, codes,
}

abbrev pub tracked : ℕ → Manager → Bool
tracked i m = mem i m.new_requests || (mem i m.starting || mem i m.active)

-- An open request is tracked, and every request is answered at most once.
pub record Good (m : Manager) (i : ℕ) : Type 0 where
  pub once : IsOnce (m.requests i)
  pub held : (m.requests i).state ≡ requesting → tracked i m ≡ true

abbrev Inv : Manager → Type 0
Inv m = (i : ℕ) → i < m.count → Good m i

mem-append : (i : ℕ) (xs ys : List ℕ) → mem i (xs ++ ys) ≡ (mem i xs || mem i ys)
mem-append i [] ys = refl
mem-append i (x ∷ xs) ys = ground (arith, mem-append i xs ys)

mem-keep :
    (p : ℕ → Bool) (i : ℕ) (xs : List ℕ) → p i ≡ true → mem i xs ≡ true → mem i (keep p xs) ≡ true
mem-keep p i [] h k = k
mem-keep p i (x ∷ xs) h k = elim (Bool-cases (x == i)) [
  | inl e ↦ let e' : x ≡ i = (==_iff x i).0 e in rw (e', h, ==_refl i)
  | inr e ↦ ground (arith, mem-keep p i xs h)
]

settled_not_open : (p : Pending) → is_settled p.state ≡ true → p.state ≢ requesting
settled_not_open p h e = ground arith

complete_connection-IsOnce :
    (r : CurlResult) (p : Pending) → IsOnce p → IsOnce (complete_connection r p)
unfolding complete_connection
complete_connection-IsOnce (ok w) p h = set_response-IsOnce complete w p refl h
complete_connection-IsOnce (error t) p h =
    set_response-IsOnce failed (record empty_message { error = t }) p refl h

-- An answered request is settled.
set_response-settled :
    (s : RequestState) (m : HttpMessage) (p : Pending)
    → is_settled s ≡ true
    → is_settled (set_response s m p).state ≡ true
unfolding set_response
set_response-settled s m p h = ground arith

complete_connection-settled :
    (r : CurlResult) (p : Pending) → is_settled (complete_connection r p).state ≡ true
unfolding complete_connection
complete_connection-settled (ok w) p = set_response-settled complete w p refl
complete_connection-settled (error t) p =
    set_response-settled failed (record empty_message { error = t }) p refl

send_request-Inv : (r : HttpMessage) (h : Bool) (m : Manager) → Inv m → Inv (send_request r h m)
unfolding send_request
send_request-Inv r h m v i lt =
    let refused : HttpMessage = record empty_message { error = codes "Invalid URL protocol" } in
    ground (
      arith,
      mem-append i m.new_requests (m.count ∷ []),
      v i,
      create-IsOnce r h,
      set_response-IsOnce failed refused (create r h) refl,
      set_response-settled failed refused (create r h),
    )

cancel-Inv : (k : ℕ) (m : Manager) → Inv m → Inv (cancel k m)
unfolding cancel cancel_request
cancel-Inv k m v i lt =
    ground (arith, v i, set_response-IsOnce cancelled cancelled_message (m.requests i) refl)

swap_new-Inv : (m : Manager) → m.starting ≡ [] → Inv m → Inv (swap_new m)
unfolding swap_new
swap_new-Inv m e v i lt = ground (arith, v i)

start_head-Inv :
    (xs : List ℕ) (created : Bool) (m : Manager)
    → m.starting ≡ xs
    → Inv m
    → Inv (start_head xs created m)
unfolding start_head
start_head-Inv [] created m e v i lt = v i lt
start_head-Inv (k ∷ rest) created m e v i lt =
    let refused : HttpMessage = record empty_message {
      error = codes "Unable to create connection";
    } in
    ground (
      arith,
      mem-append i m.active (k ∷ []),
      v i,
      set_response-IsOnce failed refused (m.requests i) refl,
      set_response-settled failed refused (m.requests i),
    )

reap-Inv : (m : Manager) → Inv m → Inv (reap m)
unfolding reap
reap-Inv m v i lt =
    ground (arith, v i, mem-keep (λ j. not (is_cancelled (m.requests j).state)) i m.active)

complete_one-Inv : (k : ℕ) (r : CurlResult) (m : Manager) → Inv m → Inv (complete_one k r m)
unfolding complete_one
complete_one-Inv k r m v i lt = ground (
  arith,
  v i,
  complete_connection-IsOnce r (m.requests i),
  complete_connection-settled r (m.requests i),
  mem-keep (λ j. not (j == k)) i m.active,
)

-- Cancelling a list of requests keeps each answered at most once, and settles those on the list.
pub cancel_all-IsOnce :
    (xs : List ℕ) (f : ℕ → Pending) (i : ℕ) → IsOnce (f i) → IsOnce (cancel_all xs f i)
unfolding cancel_all
cancel_all-IsOnce [] f i h = h
cancel_all-IsOnce (k ∷ xs) f i h =
    cancel_all-IsOnce xs (update f k (set_response cancelled cancelled_message (f k))) i
      (ground (arith, set_response-IsOnce cancelled cancelled_message (f i) refl))

cancel_all-stays :
    (xs : List ℕ) (f : ℕ → Pending) (i : ℕ)
    → is_settled (f i).state ≡ true
    → is_settled (cancel_all xs f i).state ≡ true
unfolding cancel_all
cancel_all-stays [] f i h = h
cancel_all-stays (k ∷ xs) f i h =
    cancel_all-stays xs (update f k (set_response cancelled cancelled_message (f k))) i
      (ground (arith, set_response-settled cancelled cancelled_message (f i) refl))

pub cancel_all-settled :
    (xs : List ℕ) (f : ℕ → Pending) (i : ℕ)
    → (mem i xs ≡ true) ⊎ (is_settled (f i).state ≡ true)
    → is_settled (cancel_all xs f i).state ≡ true
unfolding cancel_all
cancel_all-settled xs f i (inr h) = cancel_all-stays xs f i h
cancel_all-settled (k ∷ xs) f i (inl h) = elim (Bool-cases (k == i)) [
  | inl e ↦
      cancel_all-stays xs (update f k (set_response cancelled cancelled_message (f k))) i
        (ground (arith, set_response-settled cancelled cancelled_message (f i) refl))
  | inr e ↦
      cancel_all-settled xs (update f k (set_response cancelled cancelled_message (f k))) i
        (inl (ground arith))
]
cancel_all-settled [] f i (inl h) = ground arith

pub open_or_settled : (p : Pending) → (p.state ≡ requesting) ⊎ (is_settled p.state ≡ true)
open_or_settled p = ground arith

-- After the loop's clean-up every request is settled and answered once.
pub shutdown_done :
    (m : Manager)
    → m.starting ≡ []
    → Inv m
    → (i : ℕ) → i < m.count
    → IsOnce ((shutdown m).requests i) × (is_settled ((shutdown m).requests i).state ≡ true)
unfolding shutdown
shutdown_done m e v i lt =
    let once : IsOnce (m.requests i) = (v i lt).once in
    (
      cancel_all-IsOnce m.active (cancel_all m.new_requests m.requests) i
          (cancel_all-IsOnce m.new_requests m.requests i once),
      cancel_all-settled m.active (cancel_all m.new_requests m.requests) i (
          ground (
            arith,
            v i,
            cancel_all-settled m.new_requests m.requests i,
            open_or_settled (m.requests i),
          )),
    )

shutdown-Inv : (m : Manager) → m.starting ≡ [] → Inv m → Inv (shutdown m)
unfolding shutdown
shutdown-Inv m e v i lt = ground (arith, shutdown_done m e v i lt)

-- Every step of the clients and of the poll thread keeps the invariant.
Step-Inv : {m n : Manager} → Step m n → Inv m → Inv n
unfolding start_one stop shutdown
Step-Inv {m} (sends r h) v = send_request-Inv r h m v
Step-Inv {m} (cancels k lt) v = cancel-Inv k m v
Step-Inv {m} (polls run e) v = swap_new-Inv m e v
Step-Inv {m} (starts created) v = start_head-Inv m.starting created m refl v
Step-Inv {m} reaps v = reap-Inv m v
Step-Inv {m} (completes k r) v = complete_one-Inv k r m v
Step-Inv stops v = λ i lt. record { once = (v i lt).once; held = (v i lt).held }
Step-Inv {m} (exits run e) v = shutdown-Inv m e v

start-Inv : Inv start
unfolding start
start-Inv i lt = absurd (omega arith)

-- So it holds in every reachable state.
pub Reach-Inv : {m : Manager} → Reach m → Inv m
Reach-Inv here = start-Inv
Reach-Inv (next r s) = Step-Inv s (Reach-Inv r)
