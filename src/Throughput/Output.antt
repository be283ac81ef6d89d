-- ===== src/Throughput/Output.antt =====
-- rpc_throughput.cpp: what the program prints: its usage, and the results of its tests as a table or as
-- a document. How a stream prints a number is a parameter: `show_nat` for an integer, and `fixed` for a
-- `double` with so many digits behind the point.
pub mod Reports
use Prim.Native.String.{len}
use arduino_q_plugin.Common.{
  ℕ, zero, suc, ◌-◌, ◌<◌, ltb, String, Bool, true, false, not, ◌&&◌, List, [], ◌∷◌, is_empty,
  if◌then◌else◌, ◌<>◌,
}
use arduino_q_plugin.Common.Int.{ℤ}
use arduino_q_plugin.Json.{Json, Items, Fields, set_field}
use arduino_q_plugin.Throughput.Statistics.{Stats, stats_to_json}

-- `std::string(n, c)` for the text of one character.
unfoldable pub repeated : ℕ → String → String
repeated zero c = ""
repeated (suc n) c = c <> repeated n c

-- `std::setw` with `std::left` and with `std::right`.
abbrev pub left_in : ℕ → String → String
left_in width text = text <> repeated (width - len text) " "

abbrev pub right_in : ℕ → String → String
right_in width text = repeated (width - len text) " " <> text

unfoldable pub print_usage : String → String
print_usage prog =
    "Usage: "
    <> (prog
        <> (" [options] [input.json]\n\n"
            <> ("Benchmark msgpack RPC throughput from the CPU side of the Arduino\n"
                <> ("Uno Q. Reads a JSON test description from the given file or stdin.\n\n"
                    <> ("Options:\n"
                        <> ("  --socket PATH   Override the RPC socket path from the JSON input\n"
                            <> ("  --json          Emit machine-readable JSON results on stdout\n"
                                <> "  -h, --help      Show this help and exit\n")))))))

module _ (show_nat : ℕ → String) (fixed : ℕ → ℕ → String) where
  -- The columns of the head.
  abbrev pub head_line : String
  head_line =
      left_in 18 "method"
      <> (right_in 8 "ok"
          <> (right_in 7 "err"
              <> (right_in 13 "thr/s"
                  <> (right_in 11 "mean us"
                      <> (right_in 11 "median"
                          <> (right_in 11 "p95" <> (right_in 11 "max" <> "\n")))))))

  -- The line of a test.
  unfoldable pub stats_line : Stats → String
  unfolding repeated
  stats_line s =
      left_in 18 s.label
      <> (right_in 8 (show_nat s.ok_calls)
          <> (right_in 7 (show_nat s.errors)
              <> (right_in 13 (fixed 1 s.throughput)
                  <> (right_in 11 (fixed 2 s.mean_us)
                      <> (right_in 11 (fixed 2 s.median_us)
                          <> (right_in 11 (fixed 2 s.p95_us)
                              <> (right_in 11 (fixed 2 s.max_us) <> "\n")))))))

  -- The line of a test's first error.
  unfoldable pub error_line : Stats → String
  unfolding repeated
  error_line s =
      if ltb 0 s.errors && not (is_empty s.first_error)
      then "    " <> (right_in 14 "" <> ("first error: " <> (s.first_error <> "\n")))
      else ""

  unfoldable pub result_lines : List Stats → String
  unfolding stats_line error_line
  result_lines [] = ""
  result_lines (s ∷ rest) = stats_line s <> (error_line s <> result_lines rest)

  unfoldable pub print_human : List Stats → String
  unfolding result_lines repeated
  print_human results =
      "\nThroughput results\n"
      <> (repeated 96 "="
          <> ("\n"
              <> (head_line
                  <> (repeated 96 "-"
                      <> ("\n" <> (result_lines results <> (repeated 96 "=" <> "\n")))))))

-- `push_back` of each result.
unfoldable pub stats_items : List Stats → Items
stats_items [] = Items.no_items
stats_items (s ∷ rest) = Items.item (stats_to_json s) (stats_items rest)

-- The document of `--json`.
unfoldable pub results_document : String → ℤ → List Stats → Json
unfolding stats_items set_field
results_document socket_path warmup results = Json.object (
    set_field "results" (Json.array (stats_items results)) (
      set_field "warmup" (Json.number_integer warmup)
        (set_field "socket" (Json.string socket_path) Fields.no_fields)))

-- What `main` prints at its end, where `dump` is `json::dump` with an indentation of 2.
unfoldable pub report :
    (ℕ → String) → (ℕ → ℕ → String) → (Json → String) → Bool → String → ℤ → List Stats → String
unfolding results_document print_human
report show_nat fixed dump emit_json socket_path warmup results =
    if emit_json
    then dump (results_document socket_path warmup results) <> "\n"
    else print_human show_nat fixed results
