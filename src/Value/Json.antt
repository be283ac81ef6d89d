-- ===== src/Value/Json.antt =====
-- rpc.cpp: `json_to_value`, `value_to_json`, `parse_json_call` and `Message::to_json`.
pub mod Laws
use arduino_q_plugin.Common.{ℕ, ◌-◌, ◌^◌, String, Option, none, some, ltb, if◌then◌else◌}
use arduino_q_plugin.Common.Int.{pos}
use arduino_q_plugin.Common.Result.{Result, ok, throw, invalid_argument, ◌>>=◌}
use arduino_q_plugin.Json.{Json, Items, Fields, JsonLib, find_field}
use arduino_q_plugin.Value.{Value, Values, Message}

abbrev unsupported : Result Value
unsupported = throw (
    invalid_argument
      "$.parameters contains unsupported value type (only null, bool, number, string, and arrays are allowed)")

-- The branch of `is_number_unsigned`, which refuses what `int64_t` cannot hold.
unsigned_to_value : ℕ → Result Value
unsigned_to_value n =
    if ltb (2 ^ 63 - 1) n
    then throw (invalid_argument "$.parameters contains unsigned integer out of int64_t range")
    else ok (Value.int64 (pos n))

module _ (lib : JsonLib) where
  -- `is_number_integer`, asked before `is_number_unsigned`; `otherwise` are the later branches.
  integer_to_value : Json → Result Value → Result Value
  integer_to_value j otherwise =
      if lib.is_number_integer j then ok (Value.int64 (lib.get_int64 j)) else otherwise

  unfoldable mutual
    unfolding integer_to_value unsigned_to_value

    pub json_to_value : Json → Result Value
    json_to_value Json.null = ok Value.monostate
    json_to_value (Json.boolean b) = ok (Value.bool b)
    json_to_value (Json.number_integer z) = integer_to_value (Json.number_integer z) unsupported
    json_to_value (Json.number_unsigned n) =
        integer_to_value (Json.number_unsigned n) (unsigned_to_value n)
    json_to_value (Json.number_float d) = ok (Value.double d)
    json_to_value (Json.string s) = ok (Value.string s)
    json_to_value (Json.array js) = items_to_values js >>= λ vs. ok (Value.array vs)
    json_to_value (Json.object fs) = unsupported
    json_to_value Json.binary = unsupported

    pub items_to_values : Items → Result Values
    items_to_values Items.no_items = ok Values.no_values
    items_to_values (Items.item j js) =
        json_to_value j >>= λ v. items_to_values js >>= λ vs. ok (Values.value v vs)

-- `$.rpc_func` and `$.rpc_args`, with the refusals of each.
rpc_func : Option Json → Result String
rpc_func none = throw (invalid_argument "RPC JSON call is missing $.rpc_func")
rpc_func (some (Json.string s)) = ok s
rpc_func (some _) = throw (invalid_argument "$.function must be a string")

rpc_args : Option Json → Result Items
rpc_args none = throw (invalid_argument "RPC JSON call is missing $.rpc_args")
rpc_args (some (Json.array js)) = ok js
rpc_args (some _) = throw (invalid_argument "$.parameters must be an array")

unfoldable pub parse_json_call : JsonLib → Json → Result (String × Values)
unfolding rpc_func rpc_args
parse_json_call lib (Json.object fs) = do
  method ← rpc_func (find_field "rpc_func" fs)
  parameters ← rpc_args (find_field "rpc_args" fs)
  args ← items_to_values lib parameters
  ok (method, args)
parse_json_call lib _ = throw (invalid_argument "RPC JSON call must be an object")

unfoldable mutual
  pub value_to_json : Value → Json
  value_to_json Value.monostate = Json.null
  value_to_json (Value.bool b) = Json.boolean b
  value_to_json (Value.int64 z) = Json.number_integer z
  value_to_json (Value.double d) = Json.number_float d
  value_to_json (Value.string s) = Json.string s
  value_to_json (Value.array vs) = Json.array (values_to_items vs)

  pub values_to_items : Values → Items
  values_to_items Values.no_values = Items.no_items
  values_to_items (Values.value v vs) = Items.item (value_to_json v) (values_to_items vs)

unfoldable pub values_to_json : Values → Json
unfolding value_to_json
values_to_json vs = Json.array (values_to_items vs)

unfoldable pub to_json : Message → Json
unfolding values_to_json
to_json m = Json.object (
    Fields.field "rpc_func" (Json.string m.method)
      (Fields.field "rpc_args" (values_to_json m.args) Fields.no_fields))
