-- ===== src/Timers/Queries/Pairs.antt =====
-- The begin and end queries of a counter: where they are, and that none is lost.
use mgdf.Prelude.Count.{count}
use mgdf.Timers.Queries.{
  Pair, Counter, add_pair, take_pair, with_disjoint, do_begin, pairs_of, erase_pairs, give_back,
  difference, data_ready, data_disjoint,
}
use mgdf.Prelude.{
  ℕ, ◌+◌, ◌≡◌, refl, inl, inr, true, ◌&&◌, Option, none, some, List, [], ◌∷◌, ◌++◌, arith, ◌==◌,
  if◌then◌else◌, Bool-cases, null,
}

-- How often a query is the begin query of a pair.
begin_count : ℕ → List Pair → ℕ
begin_count x [] = 0
begin_count x ((b, e) ∷ ps) = (if b == x then 1 else 0) + begin_count x ps

flight_count : ℕ → List (ℕ × List Pair) → ℕ
unfolding begin_count
flight_count x [] = 0
flight_count x ((q, ps) ∷ rest) = begin_count x ps + flight_count x rest

-- How often a begin query is free or in flight.
places : ℕ → Counter → ℕ
unfolding flight_count
places x c = count x c.begins + flight_count x c.in_flight

begin_count-append :
    (x : ℕ) (ps qs : List Pair) → begin_count x (ps ++ qs) ≡ begin_count x ps + begin_count x qs
unfolding begin_count
begin_count-append x [] qs = omega arith
begin_count-append x ((b, e) ∷ ps) qs = omega (arith, begin_count-append x ps qs)

flight_count-add_pair :
    (x q b e : ℕ) (m : List (ℕ × List Pair))
    → flight_count x (add_pair q (b, e) m) ≡ flight_count x m + (if b == x then 1 else 0)
unfolding flight_count add_pair begin_count
flight_count-add_pair x q b e [] = ground arith
flight_count-add_pair x q b e ((r, ps) ∷ m) =
    ground (arith, begin_count-append x ps ((b, e) ∷ []), flight_count-add_pair x q b e m)

flight_count-erase_pairs :
    (x q : ℕ) (m : List (ℕ × List Pair))
    → flight_count x (erase_pairs q m) + begin_count x (pairs_of q m) ≡ flight_count x m
unfolding flight_count erase_pairs pairs_of begin_count
flight_count-erase_pairs x q [] = refl
flight_count-erase_pairs x q ((r, ps) ∷ m) = ground (arith, flight_count-erase_pairs x q m)

give_back-count :
    (stamps : ℕ → Option ℕ) (ps : List Pair) (c : Counter) (x : ℕ)
    → count x (give_back stamps ps c).begins ≡ count x c.begins + begin_count x ps
unfolding give_back begin_count
give_back-count stamps [] c x = omega arith
give_back-count stamps ((b, e) ∷ ps) c x = ground (
  arith,
  give_back-count stamps ps
      (record c {
        begins = b ∷ c.begins;
        ends = e ∷ c.ends;
        recorded = c.recorded ++ difference (stamps b) (stamps e);
      })
      x,
)

take_pair-places :
    (q : ℕ) (bs es : List ℕ) (c : Counter) (x : ℕ)
    → (take_pair q bs es c).1 ≡ true
    → places x (take_pair q bs es c).0 ≡ count x bs + flight_count x c.in_flight
unfolding take_pair places
take_pair-places q [] es c x h = absurd (ground arith)
take_pair-places q (b ∷ bs) [] c x h = absurd (ground arith)
take_pair-places q (b ∷ bs) (e ∷ es) c x h =
    ground (arith, flight_count-add_pair x q b e c.in_flight)

-- The begin query that `DoBegin` adds: one that the device makes if the pool is empty.
made : Option Pair → Counter → ℕ → ℕ
made none c x = 0
made (some (b, e)) c x = if null c.begins && (b == x) then 1 else 0

count-null : (x : ℕ) (xs : List ℕ) → null xs ≡ true → count x xs ≡ 0
count-null x [] h = refl
count-null x (y ∷ ys) h = absurd (ground arith)

with_disjoint-places :
    (created : Option Pair) (q : Option ℕ) (c : Counter) (x : ℕ)
    → (with_disjoint created q c).1 ≡ true
    → places x (with_disjoint created q c).0 ≡ places x c + made created c x
unfolding with_disjoint places made
with_disjoint-places created none c x h = absurd (ground arith)
with_disjoint-places none (some q) c x h = ground (arith, take_pair-places q c.begins c.ends c x)
with_disjoint-places (some (b, e)) (some q) c x h = ground (
  arith,
  count-null x c.begins,
  take_pair-places q (b ∷ []) (e ∷ c.ends) c x,
  take_pair-places q c.begins c.ends c x,
)

data-places :
    (stamps : ℕ → Option ℕ) (q : ℕ) (c : Counter) (x : ℕ)
    → count x (give_back stamps (pairs_of q c.in_flight) c).begins
        + flight_count x (erase_pairs q c.in_flight)
      ≡ places x c
unfolding places
data-places stamps q c x = omega (
  arith,
  give_back-count stamps (pairs_of q c.in_flight) c x,
  flight_count-erase_pairs x q c.in_flight,
)

-- A scope that begins takes a pair of queries that was free or was made for it, and none is lost.
do_begin-places :
    (created : Option Pair) (c : Counter) (x : ℕ)
    → (do_begin created c).1 ≡ true
    → places x (do_begin created c).0 ≡ places x c + made created c x
unfolding do_begin
do_begin-places created c x h = elim (Bool-cases c.connected) [
  | inl e ↦ ground (arith, with_disjoint-places created c.current c x)
  | inr e ↦ absurd (ground arith)
]

-- When a frame's disjoint query comes back, valid or not, each pair of queries of the frame is free
-- again, whether its time stamps could be read or not: no begin query is lost or doubled.
data_ready-places :
    (stamps : ℕ → Option ℕ) (q : ℕ) (c : Counter) (x : ℕ)
    → (places x (data_ready stamps q c) ≡ places x c) × (places x (data_disjoint q c) ≡ places x c)
unfolding data_ready data_disjoint places
data_ready-places stamps q c x =
    (data-places (if c.connected then stamps else λ _. none) q c x, data-places (λ _. none) q c x)
