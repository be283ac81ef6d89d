-- ===== src/Throughput/Runs/Counts.antt =====
-- What `run_test` counts, and what `main` sends.
use arduino_q_plugin.Common.{
  ℕ, zero, suc, ◌+◌, ◌^◌, ◌<◌, ◌≡◌, ◌≢◌, refl, sym, ◌∙◌, some, [], ◌∷◌, length, length-append,
  arith,
}
use arduino_q_plugin.Common.Int.{ℤ, pos}
use arduino_q_plugin.Common.Result.{Result, ok, throw, out_of_fuel}
use arduino_q_plugin.Msgpack.{Msgpack}
use arduino_q_plugin.Value.{Value}
use arduino_q_plugin.Client.{Session, call}
use arduino_q_plugin.Client.Ends.{call-Ends}
use arduino_q_plugin.Throughput.Specs.{TestSpec}
use arduino_q_plugin.Throughput.Statistics.{Floats, FloatLaws, Stats}
use arduino_q_plugin.Throughput.Statistics.Bounds.{compute_stats_total}
use arduino_q_plugin.Throughput.Runs.{
  Bench, Tally, no_calls, rounds, timed, timed_call, timed_loop, warmup_loop, run_test,
}

-- `n` rounds later, each round was counted once, and there is no error's text without an error.
abbrev IsCounted : ℕ → Tally → Type 0
IsCounted n t = (length t.latencies + t.errors ≡ n) × (t.errors ≡ 0 → t.first_error ≡ "")

module _ (mp : Msgpack) (fl : Floats) (clock : ℕ → ℕ) (micros seconds : ℕ → ℕ → ℕ) where
  timed-IsCounted :
      (r : Result Value) (s : Session mp.Byte) (t : Tally) (readings n : ℕ)
      → r ≢ out_of_fuel
      → IsCounted n t
      → IsCounted (suc n) (timed mp fl clock micros seconds r s t readings).0
  unfolding timed
  timed-IsCounted (ok v) s t readings n ends (counted, silent) = (
    omega (
      arith,
      counted,
      length-append t.latencies (micros (clock readings) (clock (readings + 1)) ∷ []),
    ),
    silent,
  )
  timed-IsCounted (throw e) s t readings n ends (counted, silent) =
      (omega (arith, counted), λ none. absurd (omega (arith, none)))
  timed-IsCounted out_of_fuel s t readings n ends counted = absurd (ends refl)

  timed_loop-IsCounted :
      (k : ℕ) (test : TestSpec) (t : Tally) (b : Bench mp.Byte) (n m : ℕ)
      → m ≡ k + n
      → IsCounted n t
      → IsCounted m (timed_loop mp fl clock micros seconds k test t b).0
  unfolding timed_loop timed_call
  timed_loop-IsCounted zero test t b n m e (counted, silent) = (omega (arith, counted, e), silent)
  timed_loop-IsCounted (suc k) test t b n m e counted =
      timed_loop-IsCounted k test _ _ (suc n) m (omega (arith, e)) (
        timed-IsCounted (call mp test.method test.args b.session).0
          (call mp test.method test.args b.session).1 t b.readings n
          (call-Ends mp test.method test.args b.session) counted)

  -- A test of fewer than 2 ^ 53 iterations has statistics under its label, in which the calls that succeeded and those
  -- that failed are together the iterations, and the text of an error stands only where one failed.
  pub run_test_counts :
      (laws : FloatLaws fl) (test : TestSpec) (n : ℕ) (warmup : ℤ) (b : Bench mp.Byte)
      → test.iterations ≡ pos n
      → n < 2 ^ 53
      → (s : Stats) × ((run_test mp fl clock micros seconds test warmup b).0 ≡ some s)
        × (s.label ≡ test.label)
        × (s.iterations ≡ pos n)
        × (s.ok_calls + s.errors ≡ n)
        × (s.errors ≡ 0 → s.first_error ≡ "")
  unfolding run_test
  run_test_counts laws test n warmup b rounds_n few =
      let warm = warmup_loop mp fl clock micros seconds (rounds warmup) test b in
      let start : Bench mp.Byte = record warm { readings = warm.readings + 1 } in
      let (t, b') =
        timed_loop mp fl clock micros seconds (rounds test.iterations) test no_calls start in
      let (counted, silent) =
        timed_loop-IsCounted (rounds test.iterations) test no_calls start 0 n
          (rw rounds_n (omega arith)) (refl, λ e. refl) in
      let (s, e, label, iterations, calls, errors, text) =
        compute_stats_total fl laws test.label test.iterations t.errors t.first_error
          (seconds (clock warm.readings) (clock b'.readings)) t.latencies
          (omega (arith, counted, few)) in
      (
        s,
        e,
        label,
        iterations ∙ rounds_n,
        omega (arith, calls, errors, counted),
        λ none. text ∙ silent (sym errors ∙ none),
      )
