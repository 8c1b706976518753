-- ===== src/Network/Inbox.antt =====
-- WebSocketImpl of src/core/core.impl/MGDFNetworkImpl.cpp: the messages that a game has not read yet.
use mgdf.Prelude.{
  ℕ, zero, suc, ◌≡◌, refl, Bool, true, false, Option, none, some, List, [], ◌∷◌, ◌++◌, append-nil,
  append_assoc, arith, ltb, leb, if◌then◌else◌, length, all, Text,
}

-- The two deques of `WebSocketImpl`.
pub record Inbox : Type 0 where
  pub buffers : List Text
  pub binary_flags : List Bool

pub empty_inbox : Inbox
empty_inbox = record { buffers = []; binary_flags = [] }

-- The handler that the constructor installs.
on_receive : Text × Bool → Inbox → Inbox
on_receive (message, binary) s = record {
  buffers = s.buffers ++ message ∷ [];
  binary_flags = s.binary_flags ++ binary ∷ [];
}

can_recieve_front : List Text → Option ℕ × Bool
can_recieve_front [] = (none, false)
can_recieve_front (front ∷ rest) = (some (length front), ltb 0 (length front))

-- What is written to `len`, and the result.
can_recieve : Inbox → Option ℕ × Bool
unfolding can_recieve_front
can_recieve s = can_recieve_front s.buffers

receive_front : ℕ → List Text → List Bool → Option (Text × Bool) × List Text × List Bool
receive_front len [] flags = (none, [], flags)
receive_front len (front ∷ rest) [] = (none, front ∷ rest, [])
receive_front len (front ∷ rest) (b ∷ flags) =
    if leb (length front) len
    then (some (front, b), rest, flags)
    else (none, front ∷ rest, b ∷ flags)

-- `none` is E_FAIL, which changes nothing.
receive : ℕ → Inbox → Option (Text × Bool) × Inbox
unfolding receive_front
receive len s =
    let (r, buffers, flags) = receive_front len s.buffers s.binary_flags in
    (r, record { buffers = buffers; binary_flags = flags })

pub arrive_all : List (Text × Bool) → Inbox → Inbox
arrive_all [] s = s
arrive_all (m ∷ ms) s = arrive_all ms (on_receive m s)

-- A game that reads `n` times, with room for what waits.
pub read_all : ℕ → ℕ → Inbox → List (Option (Text × Bool))
read_all zero len s = []
read_all (suc n) len s = let (r, s') = receive len s in r ∷ read_all n len s'

abbrev texts : List (Text × Bool) → List Text
texts [] = []
texts ((m, b) ∷ ms) = m ∷ texts ms

abbrev flags : List (Text × Bool) → List Bool
flags [] = []
flags ((m, b) ∷ ms) = b ∷ flags ms

abbrev pub delivered : List (Text × Bool) → List (Option (Text × Bool))
delivered [] = []
delivered (m ∷ ms) = some m ∷ delivered ms

arrive_all_lem :
    (ms : List (Text × Bool)) (s : Inbox)
    → arrive_all ms s
      ≡ record { buffers = s.buffers ++ texts ms; binary_flags = s.binary_flags ++ flags ms }
unfolding arrive_all on_receive
arrive_all_lem [] s = ground (arith, append-nil s.buffers, append-nil s.binary_flags)
arrive_all_lem ((m, b) ∷ ms) s = ground (
  arith,
  arrive_all_lem ms (on_receive (m, b) s),
  append_assoc s.buffers (m ∷ []) (texts ms),
  append_assoc s.binary_flags (b ∷ []) (flags ms),
)

abbrev fits : ℕ → List (Text × Bool) → Bool
fits len ms = all (λ m. leb (length m.0) len) ms

read_all-queue :
    (ms : List (Text × Bool)) (len : ℕ)
    → fits len ms ≡ true
    → read_all (length ms) len (record { buffers = texts ms; binary_flags = flags ms })
      ≡ delivered ms
unfolding read_all receive
read_all-queue [] len h = refl
read_all-queue ((m, b) ∷ ms) len h = ground (arith, read_all-queue ms len)

-- Messages are read in the order in which they came, whole and with their kind: a game that reads as
-- often as messages came, with a buffer that is long enough for each of them, gets exactly them.
pub read_all-arrive_all :
    (ms : List (Text × Bool)) (len : ℕ)
    → fits len ms ≡ true
    → read_all (length ms) len (arrive_all ms empty_inbox) ≡ delivered ms
unfolding empty_inbox
read_all-arrive_all ms len h = rw (arrive_all_lem ms empty_inbox) (read_all-queue ms len h)

-- An empty message at the front hides all that wait behind it: `CanRecieve` answers that there is
-- nothing, although `Receive` succeeds.
can_recieve_hidden :
    (b : Bool) (ms : List (Text × Bool)) (len : ℕ)
    → let s = arrive_all (([], b) ∷ ms) empty_inbox in
      ((can_recieve s).1 ≡ false) × ((receive len s).0 ≡ some ([], b))
unfolding can_recieve receive empty_inbox
can_recieve_hidden b ms len = rw (arrive_all_lem (([], b) ∷ ms) empty_inbox) (ground arith)
