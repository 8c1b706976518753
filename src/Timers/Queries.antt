-- ===== src/Timers/Queries.antt =====
-- Timer::Begin, Timer::End and GPUPerformanceCounter of src/core/core.impl/MGDFTimer.cpp: the queries of
-- Direct3D 11, which go from a pool to the GPU and back. A query is a number; what the device and the GPU
-- answer are arguments.
pub mod Pool
pub mod Pairs
use mgdf.Prelude.{
  ℕ, zero, suc, ◌+◌, ◌-◌, ◌*◌, ◌/◌, ◌%◌, ◌^◌, ◌≤◌, ◌<◌, min, max, ◌≡◌, refl, sym, ap, ◌∙◌, ◌≢◌, ◌↔◌,
  ◌⊎◌, inl, inr, Bool, true, false, not, ◌&&◌, ◌||◌, Option, none, some, List, [], ◌∷◌, ◌++◌, map,
  append-nil, append_assoc, arith, ltb, leb, ◌==◌, if◌then◌else◌, ltb→lt, lt→ltb, ==_iff, ==_refl,
  Bool-cases, Option-cases, length, get_elem?, take, drop, keep, any, all, null, length-append,
  length-take, length-drop, length-keep-le, keep-append, Text, codes, same_text, same_text_refl,
  same_text→eq, same_text_ne, find, insert, assign, find-insert, find-assign,
}

abbrev Pair : Type 0
Pair = ℕ × ℕ

-- GPUPerformanceCounter: the free begin and end queries, and those in flight by the disjoint query of
-- their frame. `recorded` are the differences of time stamps that were added as samples.
pub record Counter : Type 0 where
  pub connected : Bool
  pub current : Option ℕ
  pub begins : List ℕ
  pub ends : List ℕ
  pub in_flight : List (ℕ × List Pair)
  pub recorded : List ℕ

reset : Counter → Counter
reset c = record c { connected = false; current = none; begins = []; ends = []; in_flight = [] }

-- `_pendingQueries[disjoint]`, to which a pair is added.
add_pair : ℕ → Pair → List (ℕ × List Pair) → List (ℕ × List Pair)
add_pair q p [] = (q, p ∷ []) ∷ []
add_pair q p ((r, ps) ∷ rest) =
    if r == q then (r, ps ++ p ∷ []) ∷ rest else (r, ps) ∷ add_pair q p rest

take_pair : ℕ → List ℕ → List ℕ → Counter → Counter × Bool
take_pair q [] ends c = (c, false)
take_pair q (b ∷ bs) [] c = (c, false)
take_pair q (b ∷ bs) (e ∷ es) c =
    (record c { begins = bs; ends = es; in_flight = add_pair q (b, e) c.in_flight }, true)

with_disjoint : Option Pair → Option ℕ → Counter → Counter × Bool
unfolding take_pair reset
with_disjoint created none c = (c, false)
with_disjoint created (some q) c =
    if null c.begins
    then elim created [
      | none ↦ (reset c, false)
      | some (b, e) ↦ take_pair q (b ∷ []) (e ∷ c.ends) c
    ]
    else take_pair q c.begins c.ends c

-- `DoBegin`; `created` is the pair of queries that the device makes if the pool is empty.
do_begin : Option Pair → Counter → Counter × Bool
unfolding with_disjoint
do_begin created c = if c.connected then with_disjoint created c.current c else (c, false)

pairs_of : ℕ → List (ℕ × List Pair) → List Pair
pairs_of q [] = []
pairs_of q ((r, ps) ∷ rest) = if r == q then ps else pairs_of q rest

erase_pairs : ℕ → List (ℕ × List Pair) → List (ℕ × List Pair)
erase_pairs q [] = []
erase_pairs q ((r, ps) ∷ rest) = if r == q then rest else (r, ps) ∷ erase_pairs q rest

-- The time stamps that can be read: the end less the begin, or 0 if the end is earlier.
difference : Option ℕ → Option ℕ → List ℕ
difference none e = []
difference (some b) none = []
difference (some b) (some e) = (e - min b e) ∷ []

-- The loop of `DataReady`, and with no time stamps that of `DataDisjoint`.
give_back : (ℕ → Option ℕ) → List Pair → Counter → Counter
unfolding difference
give_back stamps [] c = c
give_back stamps ((b, e) ∷ ps) c = give_back stamps ps (record c {
  begins = b ∷ c.begins;
  ends = e ∷ c.ends;
  recorded = c.recorded ++ difference (stamps b) (stamps e);
})

-- `DataReady`; without a context no time stamp is read.
data_ready : (ℕ → Option ℕ) → ℕ → Counter → Counter
unfolding give_back
data_ready stamps q c =
    let d = give_back (if c.connected then stamps else λ _. none) (pairs_of q c.in_flight) c in
    record d { in_flight = erase_pairs q c.in_flight }

data_disjoint : ℕ → Counter → Counter
unfolding give_back
data_disjoint q c = record (give_back (λ _. none) (pairs_of q c.in_flight) c) {
  in_flight = erase_pairs q c.in_flight;
}

-- Timer: the pool of disjoint queries, a stack, and those in flight, the oldest first.
pub record Timer : Type 0 where
  pub supported : Bool
  pub pool : List ℕ
  pub pending : List ℕ
  pub current : Option ℕ
  pub counters : List Counter

-- What `GetData` says of the oldest query: not ready, or whether its time stamps are disjoint.
pub data Readiness : Type 0 where
  not_ready : Readiness
  ready : Bool → Readiness

each : (Counter → Counter) → List Counter → List Counter
each f [] = []
each f (c ∷ cs) = f c ∷ each f cs

collect : Readiness → (ℕ → Option ℕ) → List ℕ → Timer → Timer
unfolding each
collect r stamps [] t = t
collect not_ready stamps (q ∷ qs) t = t
collect (ready disjoint) stamps (q ∷ qs) t = record t {
  pending = qs;
  pool = q ∷ t.pool;
  counters = each (if disjoint then data_disjoint q else data_ready stamps q) t.counters;
}

set_disjoint : Option ℕ → Counter → Counter
set_disjoint q c = record c { current = q }

draw : List ℕ → Timer → Timer
unfolding each set_disjoint
draw [] t = record t { current = none; counters = each (set_disjoint none) t.counters }
draw (q ∷ qs) t = record t {
  current = some q;
  pending = t.pending ++ q ∷ [];
  pool = qs;
  counters = each (set_disjoint (some q)) t.counters;
}

-- `Begin` of a frame.
begin_frame : Readiness → (ℕ → Option ℕ) → Timer → Timer
unfolding collect draw
begin_frame r stamps t =
    let u = collect r stamps t.pending t in if t.supported then draw u.pool u else t

-- `End` of a frame.
end_frame : Timer → Timer
end_frame t = if t.supported then record t { current = none } else t

-- The loop of `InitFromDevice`: the queries that the device makes in turn, up to the first error.
make_queries : List (Option ℕ) → Timer → Timer
make_queries [] t = t
make_queries (none ∷ rest) t = record t { supported = false }
make_queries (some q ∷ rest) t = make_queries rest (record t { pool = q ∷ t.pool })

init_from_device : List (Option ℕ) → Timer → Timer
unfolding make_queries each
init_from_device made t =
    let u = make_queries made t in
    record u { counters = each (λ c. record c { connected = true }) u.counters }

-- `BeforeDeviceReset`.
before_device_reset : Timer → Timer
unfolding each reset
before_device_reset t = record t { pool = []; pending = []; counters = each reset t.counters }
