-- ===== src/Metrics/Values.antt =====
-- CounterMetric, GaugeMetric and HistogramMetric of src/core/core.impl/MGDFMetrics.cpp. The values are
-- doubles that are added and compared: here natural numbers, for which both are exact.
use mgdf.Prelude.{
  ℕ, suc, ◌+◌, ◌≡◌, refl, Bool, true, false, Option, none, some, List, [], ◌∷◌, arith, ltb, leb,
  if◌then◌else◌, length, null,
}

pub record Histogram : Type 0 where
  pub buckets : List (Option ℕ × ℕ)
  pub count : ℕ
  pub sum : ℕ

-- The bound DBL_MAX, which is `none`, holds every value.
abbrev within : ℕ → Option ℕ → Bool
within value none = true
within value (some bound) = leb value bound

-- `DoRecord` of a counter and of a gauge.
record_counter : ℕ → ℕ → ℕ
record_counter value metric = metric + value

record_gauge : ℕ → ℕ → ℕ
record_gauge value metric = value

insert_bucket : ℕ → List ℕ → List ℕ
insert_bucket b [] = b ∷ []
insert_bucket b (c ∷ cs) = if ltb b c then b ∷ c ∷ cs else c ∷ insert_bucket b cs

sort_buckets : List ℕ → List ℕ
unfolding insert_bucket
sort_buckets [] = []
sort_buckets (b ∷ bs) = insert_bucket b (sort_buckets bs)

empty_buckets : List ℕ → List (Option ℕ × ℕ)
empty_buckets [] = (none, 0) ∷ []
empty_buckets (b ∷ bs) = (some b, 0) ∷ empty_buckets bs

-- The constructor: the bounds in order, and one for all values.
make_buckets : List ℕ → List (Option ℕ × ℕ)
unfolding sort_buckets empty_buckets
make_buckets bounds = empty_buckets (sort_buckets bounds)

add_value : ℕ → List (Option ℕ × ℕ) → List (Option ℕ × ℕ)
add_value value [] = []
add_value value ((bound, n) ∷ bs) =
    (bound, if within value bound then n + 1 else n) ∷ add_value value bs

-- `DoRecord` of a histogram: a new one takes the empty buckets of the metric.
record_histogram : List (Option ℕ × ℕ) → ℕ → Histogram → Histogram
unfolding add_value
record_histogram empty value h = record {
  buckets = add_value value (if null h.buckets then empty else h.buckets);
  count = h.count + 1;
  sum = h.sum + value;
}

abbrev new_histogram : Histogram
new_histogram = record { buckets = []; count = 0; sum = 0 }

record_all : List (Option ℕ × ℕ) → List ℕ → Histogram → Histogram
unfolding record_histogram
record_all empty [] h = h
record_all empty (v ∷ vs) h = record_all empty vs (record_histogram empty v h)

-- How many values a bound holds.
abbrev held : Option ℕ → List ℕ → ℕ
held bound [] = 0
held bound (v ∷ vs) = if within v bound then suc (held bound vs) else held bound vs

abbrev total : List ℕ → ℕ
total [] = 0
total (v ∷ vs) = v + total vs

-- What each bucket must hold more, after these values.
abbrev filled : List ℕ → List (Option ℕ × ℕ) → List (Option ℕ × ℕ)
filled vs [] = []
filled vs ((bound, n) ∷ bs) = (bound, n + held bound vs) ∷ filled vs bs

filled-add_value :
    (v : ℕ) (vs : List ℕ) (bs : List (Option ℕ × ℕ))
    → filled vs (add_value v bs) ≡ filled (v ∷ vs) bs
unfolding add_value
filled-add_value v vs [] = refl
filled-add_value v vs ((bound, n) ∷ bs) = ground (arith, filled-add_value v vs bs)

null-add_value : (v : ℕ) (bs : List (Option ℕ × ℕ)) → null (add_value v bs) ≡ null bs
unfolding add_value
null-add_value v [] = refl
null-add_value v (b ∷ bs) = refl

filled-none : (bs : List (Option ℕ × ℕ)) → filled [] bs ≡ bs
filled-none [] = refl
filled-none ((bound, n) ∷ bs) = ground (arith, filled-none bs)

recorded :
    (empty : List (Option ℕ × ℕ)) (v : ℕ) (h : Histogram)
    → null h.buckets ≡ false
    → record_histogram empty v h
      ≡ record { buckets = add_value v h.buckets; count = h.count + 1; sum = h.sum + v }
unfolding record_histogram
recorded empty v h n = rw n refl

record_all-kept :
    (empty : List (Option ℕ × ℕ)) (vs : List ℕ) (h : Histogram)
    → null h.buckets ≡ false
    → record_all empty vs h ≡ record {
      buckets = filled vs h.buckets;
      count = h.count + length vs;
      sum = h.sum + total vs;
    }
unfolding record_all
record_all-kept empty [] h n = ground (arith, filled-none h.buckets)
record_all-kept empty (v ∷ vs) h n =
    let h' : Histogram = record {
      buckets = add_value v h.buckets;
      count = h.count + 1;
      sum = h.sum + v;
    } in
    rw
      (
        recorded empty v h n,
        record_all-kept empty vs h' (rw (null-add_value v h.buckets) n),
        filled-add_value v vs h.buckets,
      )
      (ground arith)

empty_buckets-nonempty : (bs : List ℕ) → null (empty_buckets bs) ≡ false
unfolding empty_buckets
empty_buckets-nonempty [] = refl
empty_buckets-nonempty (b ∷ bs) = refl

-- After any values, at least one, were recorded, each bucket of the histogram holds exactly the number
-- of values that are not above its bound, the last one all of them, and the count and the sum are those
-- of the values.
record_all-filled :
    (bounds : List ℕ) (v : ℕ) (vs : List ℕ)
    → record_all (make_buckets bounds) (v ∷ vs) new_histogram ≡ record {
      buckets = filled (v ∷ vs) (make_buckets bounds);
      count = suc (length vs);
      sum = total (v ∷ vs);
    }
unfolding record_all record_histogram make_buckets
record_all-filled bounds v vs =
    let bs = make_buckets bounds in
    let h : Histogram = record { buckets = add_value v bs; count = 0 + 1; sum = 0 + v } in
    let n : null (add_value v bs) ≡ false =
      rw (null-add_value v bs) (empty_buckets-nonempty (sort_buckets bounds)) in
    rw (record_all-kept bs vs h n, filled-add_value v vs bs) (ground arith)
