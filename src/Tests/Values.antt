-- ===== src/Tests/Values.antt =====
-- Witnesses for the conversions of values.
use arduino_q_plugin.Common.{◌+◌, ◌-◌, ◌^◌, ◌≡◌, true, arith}
use arduino_q_plugin.Common.Int.{negsuc}
use arduino_q_plugin.Common.Result.{ok}
use arduino_q_plugin.Json.{Json, Items}
use arduino_q_plugin.Value.{Value, Values, IsValid}
use arduino_q_plugin.Value.Json.{json_to_value, value_to_json}
use arduino_q_plugin.Value.Json.Laws.{json_to_value-value_to_json, json_to_value-unsigned_wraps}
use arduino_q_plugin.Tests.Library.{json_lib, json_laws}

-- [true, -3, [null, "hi"]]
abbrev sample : Value
sample = Value.array (
    Values.value (Value.bool true)
      (Values.value (Value.int64 (negsuc 2)) (Values.value (Value.array inner) Values.no_values)))
  where
    inner : Values
    inner = Values.value Value.monostate (Values.value (Value.string "hi") Values.no_values)

sample-IsValid : IsValid sample
unfolding IsValid
sample-IsValid = (omega arith, (tt, (omega arith, ((omega arith, (tt, (omega arith, tt))), tt))))

json_to_value-value_to_json_example : json_to_value json_lib (value_to_json sample) ≡ ok sample
json_to_value-value_to_json_example = json_to_value-value_to_json json_lib json_laws sample

json_to_value-unsigned_wraps_example :
    json_to_value json_lib (Json.number_unsigned (2 ^ 63 + 5))
    ≡ ok (Value.int64 (negsuc (2 ^ 64 - (2 ^ 63 + 5) - 1)))
json_to_value-unsigned_wraps_example =
    json_to_value-unsigned_wraps json_lib json_laws (2 ^ 63 + 5) (omega arith) (omega arith)

abbrev mixed : Json
mixed =
    Json.array (Items.item (Json.string "a") (Items.item (Json.number_unsigned 4) Items.no_items))
