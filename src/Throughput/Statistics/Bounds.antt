-- ===== src/Throughput/Statistics/Bounds.antt =====
-- The reads of `percentile`, and the statistics of any number of latencies.
use arduino_q_plugin.Common.{
  ℕ, zero, suc, ◌-◌, ◌^◌, ◌<◌, ◌≤◌, ◌≡◌, refl, String, Option, some, List, [], ◌∷◌, length, arith,
}
use arduino_q_plugin.Common.Int.{ℤ}
use arduino_q_plugin.Throughput.Statistics.{
  Floats, FloatLaws, get_elem?, interpolated, ranked, percentile, insert, sort, Stats,
  with_percentiles, measured, of_sorted, counted, compute_stats,
}

get_elem?-in_range : (xs : List ℕ) (i : ℕ) → i < length xs → (x : ℕ) × (get_elem? xs i ≡ some x)
unfolding get_elem?
get_elem?-in_range [] i h = absurd (omega (arith, h))
get_elem?-in_range (x ∷ xs) zero h = (x, refl)
get_elem?-in_range (x ∷ xs) (suc i) h = get_elem?-in_range xs i (omega (arith, h))

module _ (fl : Floats) where
  length-insert : (x : ℕ) (xs : List ℕ) → length (insert fl x xs) ≡ suc (length xs)
  unfolding insert
  length-insert x [] = refl
  length-insert x (y ∷ ys) = ground (arith, length-insert x ys)

  length-sort : (xs : List ℕ) → length (sort fl xs) ≡ length xs
  unfolding sort
  length-sort [] = refl
  length-sort (x ∷ xs) = omega (arith, length-insert x (sort fl xs), length-sort xs)

  module _ (laws : FloatLaws fl) where
    ranked_total :
        (sorted : List ℕ) (rank : ℕ)
        → fl.floor_size rank < length sorted
        → fl.ceil_size rank < length sorted
        → (v : ℕ) × (ranked fl sorted rank ≡ some v)
    unfolding ranked interpolated
    ranked_total sorted rank lo hi =
        let (x, ex) = get_elem?-in_range sorted (fl.floor_size rank) lo in
        let (y, ey) = get_elem?-in_range sorted (fl.ceil_size rank) hi in rw (ex, ey) (_, refl)

    -- A percentile of at most 100 of fewer than 2 ^ 53 latencies is read off positions of the list.
    pub percentile_total :
        (sorted : List ℕ) (pct : ℕ)
        → pct ≤ 100
        → length sorted < 2 ^ 53
        → (v : ℕ) × (percentile fl sorted (fl.of_size pct) ≡ some v)
    unfolding percentile
    percentile_total [] pct h few = (_, refl)
    percentile_total (x ∷ []) pct h few = (x, refl)
    percentile_total (x ∷ y ∷ rest) pct h few =
        let k = length (x ∷ y ∷ rest) - 1 in
        let small : k < 2 ^ 53 = omega (arith, few) in
        let (number, between) = laws.div_bound pct 100 h (omega arith) (omega arith) in
        let (product, bound) = laws.mul_bound _ k number between small in
        let (lo, hi) = laws.round_bound _ k product bound small in
        ranked_total (x ∷ y ∷ rest) _ (omega (arith, lo)) (omega (arith, hi))

    -- Whether `with_percentiles` keeps what was counted.
    abbrev Keeps : Stats → Option Stats → Type 0
    Keeps s r =
        (t : Stats) × (r ≡ some t)
        × (t.label ≡ s.label)
        × (t.iterations ≡ s.iterations)
        × (t.ok_calls ≡ s.ok_calls)
        × (t.errors ≡ s.errors)
        × (t.first_error ≡ s.first_error)

    with_percentiles-Keeps :
        (s : Stats) (sorted : List ℕ)
        → length sorted < 2 ^ 53
        → Keeps s (with_percentiles fl s sorted)
    unfolding with_percentiles
    with_percentiles-Keeps s sorted few =
        let (median, e₁) = percentile_total sorted 50 (omega arith) few in
        let (p90, e₂) = percentile_total sorted 90 (omega arith) few in
        let (p95, e₃) = percentile_total sorted 95 (omega arith) few in
        let (p99, e₄) = percentile_total sorted 99 (omega arith) few in
        rw (e₁, e₂, e₃, e₄) (_, refl, refl, refl, refl, refl, refl)

    of_sorted-Keeps :
        (s : Stats) (sorted : List ℕ) → length sorted < 2 ^ 53 → Keeps s (of_sorted fl s sorted)
    unfolding of_sorted measured
    of_sorted-Keeps s [] few = (s, refl, refl, refl, refl, refl, refl)
    of_sorted-Keeps s (x ∷ rest) few = with_percentiles-Keeps (measured fl s x rest) (x ∷ rest) few

    -- The statistics of fewer than 2 ^ 53 latencies, none included, exist, and count the latencies as
    -- the calls that succeeded.
    pub compute_stats_total :
        (label : String) (iterations : ℤ) (errors : ℕ) (first_error : String) (total_s : ℕ)
        (latencies : List ℕ)
        → length latencies < 2 ^ 53
        → (s : Stats) × (compute_stats fl label iterations errors first_error total_s latencies
            ≡ some s)
          × (s.label ≡ label)
          × (s.iterations ≡ iterations)
          × (s.ok_calls ≡ length latencies)
          × (s.errors ≡ errors)
          × (s.first_error ≡ first_error)
    unfolding compute_stats counted
    compute_stats_total label iterations errors first_error total_s latencies few =
        of_sorted-Keeps (counted fl label iterations errors first_error total_s latencies)
          (sort fl latencies) (omega (arith, few, length-sort latencies))
