-- ===== src/Network/Manager/Shutdown.antt =====
-- The end of the network manager: whoever waits for a response gets one.
use mgdf.Network.Message.{HttpMessage}
use mgdf.Network.Pending.{requesting, is_settled, Pending}
use mgdf.Network.Pending.Once.{IsOnce}
use mgdf.Network.Manager.{Manager, shutdown, destroy, Reach}
use mgdf.Network.Manager.Invariant.{
  tracked, Reach-Inv, shutdown_done, cancel_all-IsOnce, cancel_all-settled, open_or_settled,
}
use mgdf.Prelude.{ℕ, ◌<◌, ◌≡◌, inl, inr, true, some, [], ◌∷◌, arith, if◌then◌else◌}

-- The request has a response, and its callback, if one was given, was called once, with that response.
abbrev pub IsAnswered : Pending → Type 0
IsAnswered p =
    (is_settled p.state ≡ true)
    × ((r : HttpMessage) × (p.response ≡ some r) × (p.handled ≡ (if p.given then r ∷ [] else [])))

answered : (p : Pending) → IsOnce p → is_settled p.state ≡ true → IsAnswered p
answered p (inl (open_state, b, c, d)) h = absurd (ground arith)
answered p (inr (a, b, (r, c, d))) h = (h, (r, c, d))

-- From any state that clients and the poll thread can reach, if the poll thread has used up its local
-- queue, its clean-up answers every request that was ever sent: each is settled, and each callback that
-- was given was called exactly once, with the stored response.
pub shutdown-IsAnswered :
    {m : Manager} (i : ℕ)
    → Reach m
    → m.starting ≡ []
    → i < m.count
    → IsAnswered ((shutdown m).requests i)
shutdown-IsAnswered {m} i r e lt =
    let done = shutdown_done m e (Reach-Inv r) i lt in
    answered ((shutdown m).requests i) done.0 done.1

-- After that the destructor answers every request, those queued since among them: in a reachable state
-- where the poll thread holds no request, `destroy` leaves each one answered.
destroy-IsAnswered :
    {m : Manager} (i : ℕ)
    → Reach m
    → m.starting ≡ []
    → m.active ≡ []
    → i < m.count
    → IsAnswered ((destroy m).requests i)
unfolding destroy
destroy-IsAnswered {m} i r e a lt =
    let good = Reach-Inv r i lt in
    let once : IsOnce (m.requests i) = good.once in
    let held : (m.requests i).state ≡ requesting → tracked i m ≡ true = good.held in
    answered ((destroy m).requests i) (cancel_all-IsOnce m.new_requests m.requests i once) (
      cancel_all-settled m.new_requests m.requests i
        (ground (arith, held, open_or_settled (m.requests i))))
