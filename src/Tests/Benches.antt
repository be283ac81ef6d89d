-- ===== src/Tests/Benches.antt =====
-- Witnesses for rpc_throughput.cpp, with a clock that counts and a toy arithmetic: whole numbers, and
-- quotients that are 0 below 1.
use arduino_q_plugin.Common.{
  List, ℕ, zero, suc, ◌+◌, ◌-◌, ◌*◌, ◌%◌, ◌^◌, ◌<◌, ◌≤◌, ◌≡◌, refl, ◌⊎◌, String, Option, none, some,
  [], ◌∷◌, ltb, if◌then◌else◌, arith,
}
use arduino_q_plugin.Common.Int.{ℤ, pos}
use arduino_q_plugin.Common.Result.{Result, ok}
use arduino_q_plugin.Json.{Json, Items, Fields, get_field}
use arduino_q_plugin.Socket.{Attempt, made}
use arduino_q_plugin.Throughput.Arguments.{no_options, parse_arguments}
use arduino_q_plugin.Throughput.Specs.{TestSpec}
use arduino_q_plugin.Throughput.Statistics.{Floats, FloatLaws, IsBetween, Stats}
use arduino_q_plugin.Throughput.Runs.{Bench, run_test, run_tests, main}
use arduino_q_plugin.Throughput.Output.{results_document}
use arduino_q_plugin.Throughput.Output.Reports.{AreFew, ReportAll, results_document-Reports}
use arduino_q_plugin.Throughput.Runs.Counts.{run_test_counts}
use arduino_q_plugin.Throughput.Runs.Traffic.{run_test_calls, main_untouched, IsAccepted}
use arduino_q_plugin.Tests.Codec.{Token}
use arduino_q_plugin.Tests.Library.{token_lib, json_lib}
use arduino_q_plugin.Tests.Calls.{args, caller, sum_frame}

abbrev floats : Floats
floats = record {
  add = λ a b. a + b;
  sub = λ a b. a - b;
  mul = λ a b. a * b;
  div = λ a b. if ltb a b then 0 else 1;
  sqrt = λ a. a;
  of_size = λ n. n;
  floor_size = λ a. a;
  ceil_size = λ a. a;
  less = ltb;
}

div_bound :
    (a b : ℕ)
    → a ≤ b
    → 0 < b
    → b < 2 ^ 53
    → Unit {0} × IsBetween floats 0 1 (if ltb a b then 0 else 1)
div_bound a b h some_b small = (tt, ground arith)

mul_bound :
    (x k : ℕ)
    → Unit {0}
    → IsBetween floats 0 1 x
    → k < 2 ^ 53
    → Unit {0} × IsBetween floats 0 k (x * k)
mul_bound zero k u h small = (tt, (ground arith, ground arith))
mul_bound (suc zero) k u h small = (tt, (ground arith, ground arith))
mul_bound (suc (suc x)) k u h small = absurd (ground (arith, h))

float_laws : FloatLaws floats
float_laws = record {
  IsNumber = λ x. Unit;
  div_bound = div_bound;
  mul_bound = mul_bound;
  round_bound = λ x k u h small. (ground (arith, h), ground (arith, h));
}

abbrev span : ℕ → ℕ → ℕ
span a b = b - a

abbrev clock : ℕ → ℕ
clock n = n

abbrev test : TestSpec
test = record { label = "sum"; method = "add"; args = args; iterations = pos 2 }

abbrev bench : Bench Token
bench = record { session = caller sum_frame; readings = 0 }

run_test_counts_example :
    (s : Stats) × ((run_test token_lib floats clock span span test (pos 1) bench).0 ≡ some s)
    × (s.label ≡ "sum")
    × (s.iterations ≡ pos 2)
    × (s.ok_calls + s.errors ≡ 2)
    × (s.errors ≡ 0 → s.first_error ≡ "")
run_test_counts_example =
    run_test_counts token_lib floats clock span span float_laws test 2 (pos 1) bench refl
      (omega arith)

run_test_calls_example :
    ((run_test token_lib floats clock span span test (pos 1) bench).1.session.socket_fd ≡ pos 3)
    × ((run_test token_lib floats clock span span test (pos 1) bench).1.session.next_msgid
        ≡ (7 + (2 + 1)) % 2 ^ 32)
run_test_calls_example =
    run_test_calls token_lib floats clock span span test (pos 1) bench refl refl (omega arith)

abbrev document : Json
document = Json.object (
    Fields.field "tests"
      (Json.array (
        Items.item (Json.object (Fields.field "rpc_func" (Json.string "add") Fields.no_fields))
          Items.no_items))
      Fields.no_fields)

abbrev load : String → Result Json
load path = ok document

abbrev get_number : Json → Option ℤ
get_number j = none

abbrev no_name : ℕ → String
no_name n = ""

abbrev attempt : Attempt
attempt = record { socket = made 5; rcvtimeo = none; sndtimeo = none; connect = none }

main_untouched_example :
    ((main token_lib floats clock span span json_lib get_number no_name 108 "/tmp/router.sock" load
        attempt
        ("--json" ∷ "tests.json" ∷ [])
        bench).1
      ≡ bench)
    ⊎ IsAccepted token_lib floats clock span span json_lib get_number no_name 108 "/tmp/router.sock"
        load attempt
        (parse_arguments ("--json" ∷ "tests.json" ∷ []) no_options)
main_untouched_example =
    main_untouched token_lib floats clock span span json_lib get_number no_name 108
      "/tmp/router.sock" load attempt ("--json" ∷ "tests.json" ∷ []) bench

test-AreFew : AreFew (test ∷ [])
unfolding AreFew
test-AreFew = ((2, refl, omega arith), tt)

results_document-Reports_example :
    (results : List Stats) × (items : Items) × ((run_tests token_lib floats clock span span
        (test ∷ [])
        (pos 1)
        bench).0
      ≡ some results)
    × (get_field "results" (results_document "/tmp/mads-rpc.sock" (pos 1) results)
        ≡ some (Json.array items))
    × (get_field "socket" (results_document "/tmp/mads-rpc.sock" (pos 1) results)
        ≡ some (Json.string "/tmp/mads-rpc.sock"))
    × (get_field "warmup" (results_document "/tmp/mads-rpc.sock" (pos 1) results)
        ≡ some (Json.number_integer (pos 1)))
    × ReportAll (test ∷ []) items
results_document-Reports_example =
    results_document-Reports token_lib floats clock span span float_laws (test ∷ []) (pos 1)
      "/tmp/mads-rpc.sock" bench test-AreFew
