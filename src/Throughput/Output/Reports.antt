-- ===== src/Throughput/Output/Reports.antt =====
-- The document that `main` prints, and the tests that it ran.
use arduino_q_plugin.Common.{
  ℕ, ◌+◌, ◌^◌, ◌<◌, ◌≡◌, refl, ap, sym, ◌∙◌, String, some, List, [], ◌∷◌, is_empty, Bool-cases, inl,
  inr,
}
use arduino_q_plugin.Common.Int.{ℤ, pos}
use arduino_q_plugin.Json.{Json, Items, find_field, get_field, set_field}
use arduino_q_plugin.Msgpack.{Msgpack}
use arduino_q_plugin.Throughput.Specs.{TestSpec}
use arduino_q_plugin.Throughput.Statistics.{Floats, FloatLaws, Stats, stats_to_json}
use arduino_q_plugin.Throughput.Runs.{Bench, run_test, run_tests}
use arduino_q_plugin.Throughput.Runs.Counts.{run_test_counts}
use arduino_q_plugin.Throughput.Output.{stats_items, results_document}

-- Each test runs fewer than 2 ^ 53 times.
unfoldable pub AreFew : List TestSpec → Type 0
AreFew [] = Unit
AreFew (test ∷ tests) = ((n : ℕ) × (test.iterations ≡ pos n) × (n < 2 ^ 53)) × AreFew tests

-- The object of a test: its label, its iterations, and the calls that succeeded and failed, which are
-- together the iterations.
abbrev pub Reports : TestSpec → Json → Type 0
Reports test j =
    (get_field "label" j ≡ some (Json.string test.label))
    × (get_field "iterations" j ≡ some (Json.number_integer test.iterations))
    × ((calls : ℕ) × (errors : ℕ) × (get_field "ok" j ≡ some (Json.number_integer (pos calls)))
        × (get_field "errors" j ≡ some (Json.number_integer (pos errors)))
        × (test.iterations ≡ pos (calls + errors)))

-- One object for each test, in the order of the tests.
unfoldable pub ReportAll : List TestSpec → Items → Type 0
ReportAll [] Items.no_items = Unit
ReportAll (test ∷ tests) (Items.item j js) = Reports test j × ReportAll tests js
ReportAll _ _ = ⊥

stats_to_json-Reports :
    (test : TestSpec) (s : Stats)
    → s.label ≡ test.label
    → s.iterations ≡ test.iterations
    → test.iterations ≡ pos (s.ok_calls + s.errors)
    → Reports test (stats_to_json s)
unfolding stats_to_json get_field find_field set_field
stats_to_json-Reports test s label iterations counts = elim (Bool-cases (is_empty s.first_error)) [
  | inl silent ↦ rw silent (named, iterated, (s.ok_calls, s.errors, refl, refl, counts))
  | inr text ↦ rw text (named, iterated, (s.ok_calls, s.errors, refl, refl, counts))
]
  where
    named : some (Json.string s.label) ≡ some (Json.string test.label)
    named = ap (λ t. some (Json.string t)) label

    iterated : some (Json.number_integer s.iterations) ≡ some (Json.number_integer test.iterations)
    iterated = ap (λ z. some (Json.number_integer z)) iterations

module _ (mp : Msgpack) (fl : Floats) (clock : ℕ → ℕ) (micros seconds : ℕ → ℕ → ℕ)
    (laws : FloatLaws fl) where
  -- Tests that each run fewer than 2 ^ 53 times have results, and these are reported in order.
  run_tests-Reports :
      (tests : List TestSpec) (warmup : ℤ) (b : Bench mp.Byte)
      → AreFew tests
      → (results : List Stats) × ((run_tests mp fl clock micros seconds tests warmup b).0
          ≡ some results)
        × ReportAll tests (stats_items results)
  unfolding run_tests AreFew ReportAll stats_items
  run_tests-Reports [] warmup b few = ([], refl, tt)
  run_tests-Reports (test ∷ tests) warmup b ((n, rounds_n, small), few) =
      let (s, e, label, iterations, counts, text) =
        run_test_counts mp fl clock micros seconds laws test n warmup b rounds_n small in
      let (results, es, reports) =
        run_tests-Reports tests warmup (run_test mp fl clock micros seconds test warmup b).1 few in
      (
        s ∷ results,
        rw (e, es) refl,
        (
          stats_to_json-Reports test s label (iterations ∙ sym rounds_n)
              (rounds_n ∙ ap pos (sym counts)),
          reports,
        ),
      )

  -- When each test runs fewer than 2 ^ 53 times, the tests have results, and the document that `--json`
  -- prints has the socket's path, the warmup, and one object for each test in the order of the input,
  -- with the test's label, its iterations, and counts of calls that succeeded and failed that are
  -- together the iterations.
  pub results_document-Reports :
      (tests : List TestSpec) (warmup : ℤ) (socket_path : String) (b : Bench mp.Byte)
      → AreFew tests
      → (results : List Stats) × (items : Items) × ((run_tests mp fl clock micros seconds tests
            warmup b).0
          ≡ some results)
        × (get_field "results" (results_document socket_path warmup results)
            ≡ some (Json.array items))
        × (get_field "socket" (results_document socket_path warmup results)
            ≡ some (Json.string socket_path))
        × (get_field "warmup" (results_document socket_path warmup results)
            ≡ some (Json.number_integer warmup))
        × ReportAll tests items
  unfolding results_document get_field find_field set_field
  results_document-Reports tests warmup socket_path b few =
      let (results, e, reports) = run_tests-Reports tests warmup b few in
      (results, stats_items results, e, refl, refl, refl, reports)
