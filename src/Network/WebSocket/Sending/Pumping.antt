-- ===== src/Network/WebSocket/Sending/Pumping.antt =====
-- What a pump of a websocket client sends, and what it leaves to be sent.
use mgdf.Network.WebSocket.{
  Client, SendAnswer, accepts, blocks, send_error, RecvAnswer, tagged, took, send_loop, recv_loop,
  fail, drop_partial, settle, receive_all, pump,
}
use mgdf.Network.WebSocket.Sending.{
  unsent, suc-plus, drop-drop, unsent_zero, send_loop-wire, recv_loop-Same, took-drop,
  send_loop-out,
}
use mgdf.Prelude.{
  ℕ, zero, suc, ◌+◌, ◌<◌, ◌≡◌, refl, sym, ap, ◌∙◌, ◌⊎◌, inl, inr, Bool, true, false, Option, none,
  some, List, [], ◌∷◌, ◌++◌, append-nil, arith, lt→ltb, get_elem?, drop, Text,
}

-- What was sent and, after it, what is to be sent.
abbrev pub traffic : Client → List (ℕ × Bool)
traffic c = c.wire ++ unsent c.send_offset (c.send_queue ++ c.out)

-- The rest of one of the messages `ms`, of which a part was sent.
abbrev IsRest : List (Text × Bool) → List (ℕ × Bool) → Type 0
IsRest ms xs =
    (j : ℕ) × (k : ℕ) × (m : Text) × (b : Bool) × (get_elem? ms j ≡ some (m, b))
    × (0 < k)
    × (xs ≡ tagged (drop k m) b)

drop_partial-unsent :
    (k : ℕ) (ms : List (Text × Bool))
    → (gone : List (ℕ × Bool)) × (gone ++ unsent 0 (drop_partial k ms) ≡ unsent k ms)
      × ((gone ≡ []) ⊎ IsRest ms gone)
unfolding drop_partial unsent
drop_partial-unsent k [] = ([], refl, inl refl)
drop_partial-unsent zero ((m, b) ∷ ms) = ([], refl, inl refl)
drop_partial-unsent (suc k) ((m, b) ∷ ms) = (
  tagged (drop (suc k) m) b,
  rw (lt→ltb 0 (suc k) (omega arith)) (ap (λ r. tagged (drop (suc k) m) b ++ r) (unsent_zero ms)),
  inr (0, suc k, m, b, refl, omega arith, refl),
)

-- What is left after a pump of what there was before it, for the socket and its result.
abbrev pub Kept : List (Text × Bool) → List (ℕ × Bool) → Client × Bool → Type 0
Kept ms t r =
    (gone : List (ℕ × Bool)) × (r.0.wire
        ++ (gone ++ unsent r.0.send_offset (r.0.send_queue ++ r.0.out))
      ≡ t)
    × ((gone ≡ []) ⊎ ((r.1 ≡ false) × IsRest ms gone))

fail-Kept :
    (interval : ℕ) (text : Text) (c : Client)
    → c.out ≡ []
    → Kept c.send_queue (c.wire ++ unsent c.send_offset c.send_queue) (fail interval text c, false)
unfolding fail
fail-Kept interval text c e =
    let (gone, kept, rest) = drop_partial-unsent c.send_offset c.send_queue in
    (
      gone,
      rw (e, append-nil) (ap (λ r. c.wire ++ r) kept),
      elim rest [ inl x ↦ inl x | inr x ↦ inr (refl, x) ],
    )

settle-Kept :
    (interval : ℕ) (c : Client) (e : Option Text)
    → c.out ≡ []
    → Kept c.send_queue (c.wire ++ unsent c.send_offset c.send_queue) (settle interval (c, e))
unfolding settle
settle-Kept interval c none h = ([], rw (h, append-nil) refl, inl refl)
settle-Kept interval c (some text) h = fail-Kept interval text c h

receive_all-Kept :
    (interval : ℕ) (answers : List RecvAnswer) (c : Client) (e : Option Text)
    → c.out ≡ []
    → Kept c.send_queue
        (c.wire ++ unsent c.send_offset c.send_queue)
        (receive_all interval answers (c, e))
unfolding receive_all
receive_all-Kept interval answers c none h =
    let d = (recv_loop answers c).0 in
    let (w, q, o, out) = recv_loop-Same answers c in
    let kept = settle-Kept interval d (recv_loop answers c).1 (out ∙ h) in rw (w, q, o) at kept
receive_all-Kept interval answers c (some text) h = settle-Kept interval c (some text) h

get_elem?-drop :
    (j i : ℕ) (ms : List (Text × Bool)) → get_elem? (drop j ms) i ≡ get_elem? ms (j + i)
get_elem?-drop zero i ms = ap (λ (n : ℕ). get_elem? ms n) (omega arith)
get_elem?-drop (suc j) i [] = refl
get_elem?-drop (suc j) i (m ∷ ms) =
    get_elem?-drop j i ms ∙ ap (λ (n : ℕ). get_elem? (m ∷ ms) n) (suc-plus j i)

-- What waits after the loop is the end of what waited before it.
send_loop-drop :
    (answers : List SendAnswer) (ms : List (Text × Bool)) (c : Client)
    → c.send_queue ≡ ms
    → (j : ℕ) × ((send_loop answers ms c).0.send_queue ≡ drop j ms)
unfolding send_loop
send_loop-drop [] ms c e = (0, e)
send_loop-drop (a ∷ rest) [] c e = (0, e)
send_loop-drop (accepts n ∷ rest) ((m, b) ∷ ms) c e =
    let (i, first) = took-drop n m b ms c in
    let (j, more) = send_loop-drop rest (took n m b ms c).send_queue (took n m b ms c) refl in
    (i + j, more ∙ ap (drop j) first ∙ drop-drop i j ((m, b) ∷ ms))
send_loop-drop (blocks n ∷ rest) ((m, b) ∷ ms) c e = took-drop n m b ms c
send_loop-drop (send_error text ∷ rest) ((m, b) ∷ ms) c e = (0, e)

IsRest-drop :
    (i : ℕ) (ms rest : List (Text × Bool)) (xs : List (ℕ × Bool))
    → rest ≡ drop i ms
    → IsRest rest xs
    → IsRest ms xs
IsRest-drop i ms rest xs e (j, k, m, b, at_j, pos, same) =
    (i + j, k, m, b, sym (get_elem?-drop i j ms) ∙ (rw e at at_j), pos, same)

pump-connected :
    (interval : ℕ) (sends : List SendAnswer) (receives : List RecvAnswer) (c : Client)
    → c.closing ≡ false
    → c.is_connecting ≡ false
    → c.has_curl ≡ true
    → pump interval sends receives c
      ≡ receive_all interval receives (
          send_loop sends
            (c.send_queue ++ c.out)
            (record c { send_queue = c.send_queue ++ c.out; out = [] }))
unfolding pump
pump-connected interval sends receives c e f g = ground arith

-- A connected socket loses no byte and sends none twice, in whatever pieces curl takes them, however
-- many messages wait and whatever curl answers: what was sent by the end of a pump, with what is then
-- to be sent, is what there was before it; or, if the socket was closed, that less the rest of one of the
-- messages that waited, of which a part had been sent.
pub pump-Kept :
    (interval : ℕ) (sends : List SendAnswer) (receives : List RecvAnswer) (c : Client)
    → c.closing ≡ false
    → c.is_connecting ≡ false
    → c.has_curl ≡ true
    → Kept (c.send_queue ++ c.out) (traffic c) (pump interval sends receives c)
pump-Kept interval sends receives c e f g =
    let queue = c.send_queue ++ c.out in
    let d = record c { send_queue = queue; out = [] } in
    let r = send_loop sends queue d in
    let (gone, kept, rest) =
      receive_all-Kept interval receives r.0 r.1 (send_loop-out sends queue d) in
    let (i, later) = send_loop-drop sends queue d refl in
    rw (pump-connected interval sends receives c e f g) (
      gone,
      kept ∙ send_loop-wire sends queue d refl,
      elim rest [
        | inl none_gone ↦ inl none_gone
        | inr (failed, part) ↦ inr (failed, IsRest-drop i queue r.0.send_queue gone later part)
      ],
    )
