-- ===== src/Throughput/Runs.antt =====
-- rpc_throughput.cpp: `run_test`, and `main` from its arguments to the last test. The clock's n-th
-- answer is `clock n`, and `micros` and `seconds` are the `double` of the time between two answers.
pub mod Counts
pub mod Traffic
use arduino_q_plugin.Common.{
  ℕ, zero, suc, ◌+◌, String, Bool, true, false, Option, none, some, List, [], ◌∷◌, ◌++◌, is_empty,
  if◌then◌else◌, ◌<>◌,
}
use arduino_q_plugin.Common.Int.{ℤ, pos, negsuc}
use arduino_q_plugin.Common.Optional.{◌>>=◌}
use arduino_q_plugin.Common.Result.{Result, ok, throw, out_of_fuel, Exception, what}
use arduino_q_plugin.Json.{Json, JsonLib}
use arduino_q_plugin.Msgpack.{Msgpack}
use arduino_q_plugin.Value.{Value, Values}
use arduino_q_plugin.Socket.{Attempt}
use arduino_q_plugin.Client.{Session, call, connect}
use arduino_q_plugin.Throughput.Arguments.{
  Options, Parsed, returned, options, no_options, parse_arguments,
}
use arduino_q_plugin.Throughput.Specs.{TestSpec, Settings, Checked, refused, accepted, settings}
use arduino_q_plugin.Throughput.Statistics.{Floats, Stats, compute_stats}

-- The client and how often the clock has been read.
pub record Bench (Byte : Type 0) : Type 0 where
  pub session : Session Byte
  pub readings : ℕ

-- The locals of the timed loop.
pub record Tally : Type 0 where
  pub latencies : List ℕ
  pub errors : ℕ
  pub first_error : String

abbrev pub no_calls : Tally
no_calls = record { latencies = []; errors = 0; first_error = "" }

-- How often `for (int64_t i = 0; i < n; ++i)` runs.
abbrev pub rounds : ℤ → ℕ
rounds (pos n) = n
rounds (negsuc n) = 0

module _ (mp : Msgpack) (fl : Floats) (clock : ℕ → ℕ) (micros seconds : ℕ → ℕ → ℕ) where
  unfoldable pub warmup_loop : ℕ → TestSpec → Bench mp.Byte → Bench mp.Byte
  warmup_loop zero test b = b
  warmup_loop (suc n) test b =
      warmup_loop n test (record b { session = (call mp test.method test.args b.session).1 })

  timed : Result Value → Session mp.Byte → Tally → ℕ → Tally × Bench mp.Byte
  timed (ok v) s t n = (
    record t { latencies = t.latencies ++ micros (clock n) (clock (n + 1)) ∷ [] },
    record { session = s; readings = n + 2 },
  )
  timed (throw e) s t n = (
    record t {
      errors = t.errors + 1;
      first_error = if is_empty t.first_error then what e else t.first_error;
    },
    record { session = s; readings = n + 1 },
  )
  timed out_of_fuel s t n = (t, record { session = s; readings = n + 1 })

  -- The body of the timed loop.
  unfoldable pub timed_call : TestSpec → Tally → Bench mp.Byte → Tally × Bench mp.Byte
  unfolding timed
  timed_call test t b =
      let (r, s) = call mp test.method test.args b.session in timed r s t b.readings

  unfoldable pub timed_loop : ℕ → TestSpec → Tally → Bench mp.Byte → Tally × Bench mp.Byte
  unfolding timed_call
  timed_loop zero test t b = (t, b)
  timed_loop (suc n) test t b = let (t', b') = timed_call test t b in timed_loop n test t' b'

  -- `none` is a read out of range.
  unfoldable pub run_test : TestSpec → ℤ → Bench mp.Byte → Option Stats × Bench mp.Byte
  unfolding warmup_loop timed_loop compute_stats
  run_test test warmup b =
      let warm = warmup_loop (rounds warmup) test b in
      let (t, b') =
        timed_loop (rounds test.iterations) test no_calls
          (record warm { readings = warm.readings + 1 }) in
      (
        compute_stats fl test.label test.iterations t.errors t.first_error
            (seconds (clock warm.readings) (clock b'.readings)) t.latencies,
        record b' { readings = b'.readings + 1 },
      )

  -- The loop of `main` over the tests.
  unfoldable pub run_tests : List TestSpec → ℤ → Bench mp.Byte → Option (List Stats) × Bench mp.Byte
  unfolding run_test
  run_tests [] warmup b = (some [], b)
  run_tests (test ∷ rest) warmup b =
      let (s, b') = run_test test warmup b in
      let (results, b'') = run_tests rest warmup b' in
      ((do stats ← s; others ← results; some (stats ∷ others)), b'')

  module _ (lib : JsonLib) (get_number : Json → Option ℤ) (show_nat : ℕ → String)
      (sun_path_size : ℕ) (default_path : String) (load : String → Result Json) (a : Attempt) where
    -- What `main` returns, and the results that it prints.
    after_connect :
        Settings
        → Result (Unit {0}) × Session mp.Byte
        → Bench mp.Byte
        → (ℕ × Option (List Stats)) × Bench mp.Byte
    unfolding run_tests
    after_connect set (ok u, s) b =
        let (results, b') = run_tests set.tests set.warmup (record b { session = s }) in
        ((0, results), b')
    after_connect set (_, s) b = ((1, some []), record b { session = s })

    with_settings : Checked Settings → Bench mp.Byte → (ℕ × Option (List Stats)) × Bench mp.Byte
    unfolding after_connect
    with_settings (refused text) b = ((1, some []), b)
    with_settings (accepted set) b =
        after_connect set (connect sun_path_size set.socket_path a b.session) b

    -- Once the input is read and parsed; a failure of either returns 1.
    with_input : String → Result Json → Bench mp.Byte → (ℕ × Option (List Stats)) × Bench mp.Byte
    unfolding with_settings
    with_input override (ok doc) b =
        with_settings (settings lib get_number show_nat default_path override doc) b
    with_input override _ b = ((1, some []), b)

    with_options : Parsed → Bench mp.Byte → (ℕ × Option (List Stats)) × Bench mp.Byte
    unfolding with_input
    with_options (returned n) b = ((n, some []), b)
    with_options (options o) b = with_input o.socket_override (load o.input_path) b

    unfoldable pub main : List String → Bench mp.Byte → (ℕ × Option (List Stats)) × Bench mp.Byte
    unfolding with_options
    main args b = with_options (parse_arguments args no_options) b
