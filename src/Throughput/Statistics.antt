-- ===== src/Throughput/Statistics.antt =====
-- rpc_throughput.cpp: the statistics of a test. A `double` is the number whose binary digits are its
-- 64 bits, and its arithmetic is a parameter.
pub mod Bounds
use arduino_q_plugin.Common.{
  ℕ, zero, suc, ◌+◌, ◌-◌, ◌*◌, ◌^◌, ◌<◌, ◌≤◌, ◌≡◌, String, Bool, true, false, not, Option, none,
  some, List, [], ◌∷◌, ◌++◌, length, is_empty, if◌then◌else◌,
}
use arduino_q_plugin.Common.Int.{ℤ, pos, negsuc}
use arduino_q_plugin.Common.Optional.{◌>>=◌}
use arduino_q_plugin.Json.{Json, Fields, set_field}

-- `of_size` casts a `size_t` to `double`; `floor_size` and `ceil_size` are `std::floor` and
-- `std::ceil` cast to `size_t`.
pub record Floats : Type 0 where
  pub add : ℕ → ℕ → ℕ
  pub sub : ℕ → ℕ → ℕ
  pub mul : ℕ → ℕ → ℕ
  pub div : ℕ → ℕ → ℕ
  pub sqrt : ℕ → ℕ
  pub of_size : ℕ → ℕ
  pub floor_size : ℕ → ℕ
  pub ceil_size : ℕ → ℕ
  pub less : ℕ → ℕ → Bool

-- Neither below `low` nor above `high`.
abbrev pub IsBetween : Floats → ℕ → ℕ → ℕ → Type 0
IsBetween fl low high x = (fl.less x low ≡ false) × (fl.less high x ≡ false)

-- What IEEE 754 says of numbers from 0 to 2 ^ 53, which are exact: a quotient of two of them is
-- rounded to at most 1 if the first is not the larger one; a factor of at most 1 does not make one
-- larger; and rounding to an integer stays within an integer bound. `IsNumber` is that a result is
-- not NaN.
pub record FloatLaws (fl : Floats) : Type 1 where
  pub IsNumber : ℕ → Type 0
  pub div_bound :
      (a b : ℕ)
      → a ≤ b
      → 0 < b
      → b < 2 ^ 53
      → IsNumber (fl.div (fl.of_size a) (fl.of_size b))
        × IsBetween fl (fl.of_size 0) (fl.of_size 1) (fl.div (fl.of_size a) (fl.of_size b))
  pub mul_bound :
      (x k : ℕ)
      → IsNumber x
      → IsBetween fl (fl.of_size 0) (fl.of_size 1) x
      → k < 2 ^ 53
      → IsNumber (fl.mul x (fl.of_size k))
        × IsBetween fl (fl.of_size 0) (fl.of_size k) (fl.mul x (fl.of_size k))
  pub round_bound :
      (x k : ℕ)
      → IsNumber x
      → IsBetween fl (fl.of_size 0) (fl.of_size k) x
      → k < 2 ^ 53
      → (fl.floor_size x ≤ k) × (fl.ceil_size x ≤ k)

-- `sorted[i]`, which is undefined out of range.
unfoldable pub get_elem? : {A : Type 0} → List A → ℕ → Option A
get_elem? [] i = none
get_elem? (x ∷ xs) zero = some x
get_elem? (x ∷ xs) (suc i) = get_elem? xs i

module _ (fl : Floats) where
  interpolated : ℕ → Option ℕ → Option ℕ → Option ℕ
  interpolated frac (some lo) (some hi) = some (fl.add lo (fl.mul (fl.sub hi lo) frac))
  interpolated frac _ _ = none

  ranked : List ℕ → ℕ → Option ℕ
  unfolding interpolated get_elem?
  ranked sorted rank =
      interpolated (fl.sub rank (fl.of_size (fl.floor_size rank)))
        (get_elem? sorted (fl.floor_size rank)) (get_elem? sorted (fl.ceil_size rank))

  unfoldable pub percentile : List ℕ → ℕ → Option ℕ
  unfolding ranked
  percentile [] pct = some (fl.of_size 0)
  percentile (x ∷ []) pct = some x
  percentile (x ∷ y ∷ rest) pct =
      ranked (x ∷ y ∷ rest)
        (fl.mul (fl.div pct (fl.of_size 100)) (fl.of_size (length (x ∷ y ∷ rest) - 1)))

  -- `std::sort`.
  unfoldable pub insert : ℕ → List ℕ → List ℕ
  insert x [] = x ∷ []
  insert x (y ∷ ys) = let rest = insert x ys in if fl.less y x then y ∷ rest else x ∷ y ∷ ys

  unfoldable pub sort : List ℕ → List ℕ
  unfolding insert
  sort [] = []
  sort (x ∷ xs) = insert x (sort xs)

  unfoldable pub sum_from : ℕ → List ℕ → ℕ
  sum_from sum [] = sum
  sum_from sum (v ∷ vs) = sum_from (fl.add sum v) vs

  -- The sum of the squares of the distances from the mean.
  unfoldable pub squares_from : ℕ → ℕ → List ℕ → ℕ
  squares_from mean sq [] = sq
  squares_from mean sq (v ∷ vs) =
      let d = fl.sub v mean in squares_from mean (fl.add sq (fl.mul d d)) vs

  abbrev pub last_of : ℕ → List ℕ → ℕ
  last_of x [] = x
  last_of x (y ∷ ys) = last_of y ys

pub record Stats : Type 0 where
  pub label : String
  pub iterations : ℤ
  pub ok_calls : ℕ
  pub errors : ℕ
  pub first_error : String
  pub total_s : ℕ
  pub throughput : ℕ
  pub min_us : ℕ
  pub mean_us : ℕ
  pub median_us : ℕ
  pub p90_us : ℕ
  pub p95_us : ℕ
  pub p99_us : ℕ
  pub max_us : ℕ
  pub stddev_us : ℕ

-- What a list of latencies gives, before the percentiles.
module _ (fl : Floats) where
  measured : Stats → ℕ → List ℕ → Stats
  unfolding sum_from squares_from
  measured s first rest =
      let count = fl.of_size (length (first ∷ rest)) in
      let mean = fl.div (sum_from fl (fl.of_size 0) (first ∷ rest)) count in
      record s {
        mean_us = mean;
        stddev_us = fl.sqrt (fl.div (squares_from fl mean (fl.of_size 0) (first ∷ rest)) count);
        min_us = first;
        max_us = last_of fl first rest;
      }

  with_percentiles : Stats → List ℕ → Option Stats
  unfolding percentile
  with_percentiles s sorted = do
    median ← percentile fl sorted (fl.of_size 50)
    p90 ← percentile fl sorted (fl.of_size 90)
    p95 ← percentile fl sorted (fl.of_size 95)
    p99 ← percentile fl sorted (fl.of_size 99)
    some (record s { median_us = median; p90_us = p90; p95_us = p95; p99_us = p99 })

  of_sorted : Stats → List ℕ → Option Stats
  unfolding measured with_percentiles
  of_sorted s [] = some s
  of_sorted s (first ∷ rest) = with_percentiles (measured s first rest) (first ∷ rest)

  -- The members that are set for any latencies, and the others' defaults.
  counted : String → ℤ → ℕ → String → ℕ → List ℕ → Stats
  counted label iterations errors first_error total_s latencies =
      let zero_us = fl.of_size 0 in
      record {
        label = label;
        iterations = iterations;
        ok_calls = length latencies;
        errors = errors;
        first_error = first_error;
        total_s = total_s;
        throughput =
            if fl.less zero_us total_s
            then fl.div (fl.of_size (length latencies)) total_s
            else zero_us;
        min_us = zero_us;
        mean_us = zero_us;
        median_us = zero_us;
        p90_us = zero_us;
        p95_us = zero_us;
        p99_us = zero_us;
        max_us = zero_us;
        stddev_us = zero_us;
      }

  -- `none` is a read out of range.
  unfoldable pub compute_stats : String → ℤ → ℕ → String → ℕ → List ℕ → Option Stats
  unfolding of_sorted sort counted
  compute_stats label iterations errors first_error total_s latencies =
      of_sorted (counted label iterations errors first_error total_s latencies) (sort fl latencies)

with_error : String → Fields → Fields
unfolding set_field
with_error text fs = if is_empty text then fs else set_field "first_error" (Json.string text) fs

latency_us : Stats → Json
latency_us s = Json.object (
    Fields.field "min" (Json.number_float s.min_us) (
      Fields.field "mean" (Json.number_float s.mean_us) (
        Fields.field "median" (Json.number_float s.median_us) (
          Fields.field "p90" (Json.number_float s.p90_us) (
            Fields.field "p95" (Json.number_float s.p95_us) (
              Fields.field "p99" (Json.number_float s.p99_us) (
                Fields.field "max" (Json.number_float s.max_us)
                  (Fields.field "stddev" (Json.number_float s.stddev_us) Fields.no_fields))))))))

unfoldable pub stats_to_json : Stats → Json
unfolding set_field with_error latency_us
stats_to_json s =
    let labelled = set_field "label" (Json.string s.label) Fields.no_fields in
    let of_calls = set_field "iterations" (Json.number_integer s.iterations) labelled in
    let with_ok = set_field "ok" (Json.number_integer (pos s.ok_calls)) of_calls in
    let counted = set_field "errors" (Json.number_integer (pos s.errors)) with_ok in
    let total =
      set_field "total_s" (Json.number_float s.total_s) (with_error s.first_error counted) in
    let fs = set_field "throughput_per_s" (Json.number_float s.throughput) total in
    Json.object (set_field "latency_us" (latency_us s) fs)
