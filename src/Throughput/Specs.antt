-- ===== src/Throughput/Specs.antt =====
-- rpc_throughput.cpp: the tests and the settings that the input describes. `get_number` is `get` of
-- nlohmann::json for an `int64_t`, which throws for none; `show_nat` is `std::to_string`.
pub mod Accepted
pub mod Agrees
use arduino_q_plugin.Common.{
  ℕ, zero, suc, ◌+◌, ◌-◌, ◌^◌, String, Bool, true, false, Option, none, some, List, [], ◌∷◌,
  is_empty, ltb, if◌then◌else◌, ◌<>◌, ◌≡◌,
}
use arduino_q_plugin.Common.Int.{ℤ, pos, negsuc}
use arduino_q_plugin.Common.Result.{
  Result, ok, throw, out_of_fuel, invalid_argument, json_error, what, ◌>>=◌,
}
use arduino_q_plugin.Json.{Json, Items, Fields, JsonLib, find_field, get_field, value_text}
use arduino_q_plugin.Value.{Value, Values}

unsupported : Result Value
unsupported =
    throw (invalid_argument "rpc_args supports only null, bool, number, string, and arrays")

-- The branch of `is_number_unsigned`.
unsigned_to_value : ℕ → Result Value
unsigned_to_value n =
    if ltb (2 ^ 63 - 1) n
    then throw (invalid_argument "rpc_args contains an integer out of range")
    else ok (Value.int64 (pos n))

module _ (lib : JsonLib) where
  -- `is_number_integer`, asked before `is_number_unsigned`; `otherwise` are the later branches.
  integer_to_value : Json → Result Value → Result Value
  integer_to_value j otherwise =
      if lib.is_number_integer j then ok (Value.int64 (lib.get_int64 j)) else otherwise

  unfoldable mutual
    unfolding integer_to_value unsigned_to_value unsupported

    pub json_to_value : Json → Result Value
    json_to_value Json.null = ok Value.monostate
    json_to_value (Json.boolean b) = ok (Value.bool b)
    json_to_value (Json.number_integer z) = integer_to_value (Json.number_integer z) unsupported
    json_to_value (Json.number_unsigned n) =
        integer_to_value (Json.number_unsigned n) (unsigned_to_value n)
    json_to_value (Json.number_float d) = ok (Value.double d)
    json_to_value (Json.string s) = ok (Value.string s)
    json_to_value (Json.array js) = items_to_values js >>= λ out. ok (Value.array out)
    json_to_value (Json.object fs) = unsupported
    json_to_value Json.binary = unsupported

    pub items_to_values : Items → Result Values
    items_to_values Items.no_items = ok Values.no_values
    items_to_values (Items.item j js) =
        json_to_value j >>= λ v. items_to_values js >>= λ vs. ok (Values.value v vs)

pub record TestSpec : Type 0 where
  pub label : String
  pub method : String
  pub args : Values
  pub iterations : ℤ

abbrev pub default_iterations : ℤ
default_iterations = pos 1000

abbrev pub is_positive : ℤ → Bool
is_positive (pos zero) = false
is_positive (pos (suc n)) = true
is_positive (negsuc n) = false

module _ (lib : JsonLib) (get_number : Json → Option ℤ) (show_nat : ℕ → String)
    (global_iterations : ℤ) where
  -- `entry.value("iterations", global_iterations)`.
  iterations_of : Option Json → Result ℤ
  iterations_of none = ok global_iterations
  iterations_of (some j) = elim (get_number j) [
    | none ↦ throw (json_error (lib.json_text j))
    | some z ↦ ok z
  ]

  args_of : String → Option Json → Result Values
  args_of label none = ok Values.no_values
  args_of label (some (Json.array js)) = items_to_values lib js
  args_of label (some _) =
      throw (invalid_argument ("test '" <> (label <> "' rpc_args must be an array")))

  -- The part of the loop's body past the count.
  with_iterations : Fields → String → String → ℤ → Result TestSpec
  unfolding args_of
  with_iterations fs method label iterations =
      if is_positive iterations
      then (do
        args ← args_of label (find_field "rpc_args" fs)
        ok (record { label = label; method = method; args = args; iterations = iterations }))
      else throw
          (invalid_argument ("test '" <> (label <> "' must have a positive iteration count")))

  described : Fields → String → Result TestSpec
  unfolding iterations_of with_iterations
  described fs method = do
    label ← value_text lib "label" method (Json.object fs)
    iterations ← iterations_of (find_field "iterations" fs)
    with_iterations fs method label iterations

  misshaped : ℕ → Result TestSpec
  misshaped index = throw (
      invalid_argument
        ("test #" <> (show_nat index <> " must be an object with a string 'rpc_func'")))

  with_method : ℕ → Fields → Option Json → Result TestSpec
  unfolding described misshaped
  with_method index fs (some (Json.string method)) = described fs method
  with_method index fs _ = misshaped index

  -- The body of the loop over `doc["tests"]`.
  unfoldable pub test_spec : ℕ → Json → Result TestSpec
  unfolding with_method
  test_spec index (Json.object fs) = with_method index fs (find_field "rpc_func" fs)
  test_spec index _ = misshaped index

  -- The loop, once `index` entries are read.
  unfoldable pub test_specs : ℕ → Items → Result (List TestSpec)
  unfolding test_spec
  test_specs index Items.no_items = ok []
  test_specs index (Items.item entry rest) = do
    spec ← test_spec (suc index) entry
    specs ← test_specs (suc index) rest
    ok (spec ∷ specs)

pub record Settings : Type 0 where
  pub socket_path : String
  pub warmup : ℤ
  pub tests : List TestSpec

-- `main` goes on with a value, or writes a text to `cerr` and returns 1.
pub data Checked {ℓ} (A : Type ℓ) : Type ℓ where
  refused : String → Checked A
  accepted : A → Checked A

module _ (lib : JsonLib) (get_number : Json → Option ℤ) (show_nat : ℕ → String) where
  integer_setting : Option Json → ℤ → ℤ
  integer_setting none otherwise = otherwise
  integer_setting (some j) otherwise =
      if lib.is_number_integer j then lib.get_int64 j else otherwise

  -- `std::max<int64_t>(0, ·)`.
  at_least_0 : ℤ → ℤ
  at_least_0 (pos n) = pos n
  at_least_0 (negsuc n) = pos 0

  chosen_path : String → String → Option Json → String
  chosen_path default override document =
      if is_empty override
      then elim document [ some (Json.string path) ↦ path | _ ↦ default ]
      else override

  nonempty : String → ℤ → List TestSpec → Checked Settings
  nonempty path warmup [] = refused "no tests to run"
  nonempty path warmup (test ∷ rest) =
      accepted (record { socket_path = path; warmup = warmup; tests = test ∷ rest })

  with_tests : String → ℤ → Result (List TestSpec) → Checked Settings
  unfolding nonempty
  with_tests path warmup (ok tests) = nonempty path warmup tests
  with_tests path warmup (throw e) = refused (what e)
  with_tests path warmup out_of_fuel = refused ""

  of_document : String → String → Fields → Option Json → Checked Settings
  unfolding integer_setting at_least_0 chosen_path with_tests
  of_document default override fs (some (Json.array entries)) =
      with_tests (chosen_path default override (find_field "socket" fs))
        (at_least_0 (integer_setting (find_field "warmup" fs) (pos 0)))
        (test_specs lib get_number show_nat
          (integer_setting (find_field "iterations" fs) default_iterations) 0 entries)
  of_document default override fs _ = refused "input must be an object with a 'tests' array"

  -- From the document to the check that there is a test to run.
  unfoldable pub settings : String → String → Json → Checked Settings
  unfolding of_document
  settings default override (Json.object fs) =
      of_document default override fs (find_field "tests" fs)
  settings default override _ = refused "input must be an object with a 'tests' array"
