-- ===== src/Network/Pending/Once.antt =====
-- What a sender may rely on: one response, and one call of the callback.
use mgdf.Prelude.{
  ◌≡◌, refl, ◌⊎◌, inl, inr, Bool, true, false, none, some, [], ◌∷◌, arith, if◌then◌else◌,
}
use mgdf.Network.Message.{HttpMessage}
use mgdf.Network.Pending.{RequestState, requesting, is_settled, Pending, create, set_response}

-- Open, with the callback still in place and not called; or settled, with one response that the
-- callback, if there was one, was called with once.
abbrev pub IsOnce : Pending → Type 0
IsOnce p =
    ((p.state ≡ requesting) × (p.response ≡ none) × (p.handled ≡ []) × (p.handler ≡ p.given))
    ⊎ ((is_settled p.state ≡ true)
        × (p.handler ≡ false)
        × ((r : HttpMessage) × (p.response ≡ some r)
            × (p.handled ≡ (if p.given then r ∷ [] else []))))

pub create-IsOnce : (m : HttpMessage) (h : Bool) → IsOnce (create m h)
unfolding create
create-IsOnce m h = inl (refl, refl, refl, refl)

-- Answering keeps that invariant, whatever the order and number of the answers.
pub set_response-IsOnce :
    (s : RequestState) (m : HttpMessage) (p : Pending)
    → is_settled s ≡ true
    → IsOnce p
    → IsOnce (set_response s m p)
unfolding set_response
set_response-IsOnce s m p h (inl (a, b, c, d)) = inr (
  ground arith,
  ground arith,
  (record m { method = p.request.method; url = p.request.url }, ground arith, ground arith),
)
set_response-IsOnce s m p h (inr (a, b, (r, c, d))) =
    inr (ground arith, ground arith, (r, ground arith, ground arith))

-- The first answer stands: any later one, of whatever kind, changes nothing, and calls nobody.
set_response-set_response :
    (s t : RequestState) (m n : HttpMessage) (p : Pending)
    → is_settled s ≡ true
    → set_response t n (set_response s m p) ≡ set_response s m p
unfolding set_response
set_response-set_response s t m n p h = ground arith
