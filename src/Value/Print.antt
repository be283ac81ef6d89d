-- ===== src/Value/Print.antt =====
-- rpc.cpp: `value_to_string` and `array_to_string`. How a stream prints a number is a parameter.
use arduino_q_plugin.Common.{ℕ, String, Bool, true, false, if◌then◌else◌, ◌<>◌}
use arduino_q_plugin.Common.Int.{ℤ}
use arduino_q_plugin.Value.{Value, Values}

module _ (show_int : ℤ → String) (show_double : ℕ → String) where
  -- `each first vs` is the loop of `array_to_string`, at the start or further on.
  unfoldable mutual
    pub value_to_string : Value → String
    value_to_string Value.monostate = "nil"
    value_to_string (Value.bool b) = if b then "true" else "false"
    value_to_string (Value.int64 z) = show_int z
    value_to_string (Value.double d) = show_double d
    value_to_string (Value.string s) = s
    value_to_string (Value.array vs) = "[" <> (each true vs <> "]")

    pub each : Bool → Values → String
    each first Values.no_values = ""
    each first (Values.value v vs) =
        (if first then "" else ", ") <> (value_to_string v <> each false vs)

  -- `operator<<`: what the stream has written, and `to_string`.
  unfoldable pub print_to : String → Value → String
  print_to out value = out <> value_to_string value

  unfoldable pub to_string : Value → String
  to_string value = value_to_string value
