-- ===== src/Network/WebSocket/Sending.antt =====
-- What a pumped websocket client sends: the bytes of its messages, in order.
pub mod Pumping
use mgdf.Network.WebSocket.{
  Client, SendAnswer, accepts, blocks, send_error, RecvAnswer, piece, again, lost, Piece, tagged,
  took, send_loop, hand_over, receive_piece, recv_loop, fail, drop_partial, settle, receive_all,
  pump,
}
use mgdf.Prelude.{
  ℕ, zero, suc, ◌+◌, ◌≤◌, ◌<◌, min, ◌≡◌, refl, sym, ap, ◌∙◌, ◌⊎◌, inl, inr, Bool, true, false,
  Option, none, some, List, [], ◌∷◌, ◌++◌, append-nil, append_assoc, arith, leb, lt→ltb, Bool-cases,
  length, get_elem?, take, drop, length-drop, Text,
}

whole : List (Text × Bool) → List (ℕ × Bool)
whole [] = []
whole ((m, b) ∷ ms) = tagged m b ++ whole ms

-- The bytes that are still to be sent, if `n` bytes of the first message were.
pub unsent : ℕ → List (Text × Bool) → List (ℕ × Bool)
unfolding whole
unsent n [] = []
unsent n ((m, b) ∷ ms) = tagged (drop n m) b ++ whole ms

tagged-take-drop :
    (n : ℕ) (xs : Text) (b : Bool) → tagged (take n xs) b ++ tagged (drop n xs) b ≡ tagged xs b
unfolding tagged
tagged-take-drop zero xs b = refl
tagged-take-drop (suc n) [] b = refl
tagged-take-drop (suc n) (x ∷ xs) b = ap (λ r. (x, b) ∷ r) (tagged-take-drop n xs b)

drop-nil {ℓ} : {A : Type ℓ} (n : ℕ) → drop {A = A} n [] ≡ []
drop-nil zero = refl
drop-nil (suc n) = refl

suc-plus : (k n : ℕ) → suc (k + n) ≡ suc k + n
suc-plus k n = omega arith

drop-drop {ℓ} : {A : Type ℓ} (k n : ℕ) (xs : List A) → drop n (drop k xs) ≡ drop (k + n) xs
drop-drop zero n xs = ap (λ (j : ℕ). drop j xs) (omega arith)
drop-drop (suc k) n [] = drop-nil n ∙ sym (drop-nil (suc k + n))
drop-drop (suc k) n (x ∷ xs) = drop-drop k n xs ∙ ap (λ (j : ℕ). drop j (x ∷ xs)) (suc-plus k n)

drop-all : (n : ℕ) (xs : Text) → length xs ≤ n → drop n xs ≡ []
drop-all n [] h = drop-nil n
drop-all zero (x ∷ xs) h = absurd (omega arith)
drop-all (suc n) (x ∷ xs) h = drop-all n xs (omega arith)

unsent_zero : (ms : List (Text × Bool)) → unsent 0 ms ≡ whole ms
unfolding unsent whole
unsent_zero [] = refl
unsent_zero ((m, b) ∷ ms) = refl

regroup : (w t u r v : List (ℕ × Bool)) → t ++ u ≡ r → (w ++ t) ++ (u ++ v) ≡ w ++ (r ++ v)
regroup w t u r v e = rw (← e) (simp append_assoc)

-- What curl takes of a message is no longer to be sent, and nothing else changes.
took-wire :
    (n : ℕ) (m : Text) (b : Bool) (ms : List (Text × Bool)) (c : Client)
    → (took n m b ms c).wire ++ unsent (took n m b ms c).send_offset (took n m b ms c).send_queue
      ≡ c.wire ++ unsent c.send_offset ((m, b) ∷ ms)
unfolding took unsent tagged
took-wire n m b ms c =
    let rest = drop c.send_offset m in
    let split =
      regroup c.wire (tagged (take n rest) b) (tagged (drop n rest) b) (tagged rest b) (whole ms)
        (tagged-take-drop n rest b) in
    elim (Bool-cases (leb (length m) (c.send_offset + min n (length rest)))) [
      | inl e ↦
          let gone = drop-all n rest (ground (arith, length-drop c.send_offset m)) in
          rw (e, unsent_zero ms) (rw gone at split)
      | inr e ↦
          let same : c.send_offset + n ≡ c.send_offset + min n (length rest) =
            ground (arith, length-drop c.send_offset m) in
          rw e (rw same at (rw (drop-drop c.send_offset n m) at split))
    ]

-- Nothing that the loop does, whatever curl answers, loses a byte or sends one twice.
send_loop-wire :
    (answers : List SendAnswer) (ms : List (Text × Bool)) (c : Client)
    → c.send_queue ≡ ms
    → (send_loop answers ms c).0.wire
        ++ unsent (send_loop answers ms c).0.send_offset (send_loop answers ms c).0.send_queue
      ≡ c.wire ++ unsent c.send_offset ms
unfolding send_loop
send_loop-wire [] ms c e = rw e refl
send_loop-wire (a ∷ rest) [] c e = rw e refl
send_loop-wire (accepts n ∷ rest) ((m, b) ∷ ms) c e =
    send_loop-wire rest (took n m b ms c).send_queue (took n m b ms c) refl ∙ took-wire n m b ms c
send_loop-wire (blocks n ∷ rest) ((m, b) ∷ ms) c e = took-wire n m b ms c
send_loop-wire (send_error text ∷ rest) ((m, b) ∷ ms) c e = rw e refl

-- The loop that receives touches nothing of this.
abbrev Same : Client → Client → Type 0
Same c d =
    (d.wire ≡ c.wire)
    × (d.send_queue ≡ c.send_queue)
    × (d.send_offset ≡ c.send_offset)
    × (d.out ≡ c.out)

receive_piece-Same : (p : Piece) (c : Client) → Same c (receive_piece p c)
unfolding receive_piece hand_over
receive_piece-Same p c = ground arith

recv_loop-Same : (answers : List RecvAnswer) (c : Client) → Same c (recv_loop answers c).0
unfolding recv_loop
recv_loop-Same [] c = (refl, refl, refl, refl)
recv_loop-Same (again ∷ rest) c = (refl, refl, refl, refl)
recv_loop-Same (lost text ∷ rest) c = (refl, refl, refl, refl)
recv_loop-Same (piece p ∷ rest) c = ground (
  arith,
  receive_piece-Same p c,
  recv_loop-Same rest c,
  recv_loop-Same rest (receive_piece p c),
  recv_loop-Same rest (record c { pongs = c.pongs ++ p.bytes ∷ [] }),
)

took-drop :
    (n : ℕ) (m : Text) (b : Bool) (ms : List (Text × Bool)) (c : Client)
    → (j : ℕ) × ((took n m b ms c).send_queue ≡ drop j ((m, b) ∷ ms))
unfolding took
took-drop n m b ms c =
    elim (Bool-cases (leb (length m) (c.send_offset + min n (length (drop c.send_offset m))))) [
      | inl e ↦ (1, rw e refl)
      | inr e ↦ (0, rw e refl)
    ]

send_loop-out :
    (answers : List SendAnswer) (ms : List (Text × Bool)) (c : Client)
    → (send_loop answers ms c).0.out ≡ c.out
unfolding send_loop took
send_loop-out [] ms c = refl
send_loop-out (a ∷ rest) [] c = refl
send_loop-out (accepts n ∷ rest) ((m, b) ∷ ms) c =
    ground (arith, send_loop-out rest (took n m b ms c).send_queue (took n m b ms c))
send_loop-out (blocks n ∷ rest) ((m, b) ∷ ms) c = ground arith
send_loop-out (send_error text ∷ rest) ((m, b) ∷ ms) c = refl
