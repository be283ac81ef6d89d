-- ===== src/Tests/Callings.antt =====
-- A witness for call mode: the plugin calls add(1, 2), and 3 is the answer.
use arduino_q_plugin.Common.{◌≡◌, refl, some, [], ◌∷◌, arith}
use arduino_q_plugin.Common.Result.{ok}
use arduino_q_plugin.Json.{Json, Fields, find_field}
use arduino_q_plugin.Value.{IsValid}
use arduino_q_plugin.Value.Json.{value_to_json, values_to_json}
use arduino_q_plugin.Value.Wire.{pack_value}
use arduino_q_plugin.Socket.Receive.{incoming}
use arduino_q_plugin.Frames.{response_bytes}
use arduino_q_plugin.Plugin.{ReturnType}
use arduino_q_plugin.Source.Calling.{setup_call_params, get_output_call}
use arduino_q_plugin.Source.Calling.Publishes.{Describes, get_output_call-result}
use arduino_q_plugin.Tests.Codec.{Token}
use arduino_q_plugin.Tests.Library.{token_lib, token_laws, token_casts, json_lib, json_laws}
use arduino_q_plugin.Tests.Calls.{args, caller, sum_frame, three, room}
use arduino_q_plugin.Tests.Sources.{source}

abbrev params : Fields
params =
    Fields.field "rpc_call" (Json.string "add")
      (Fields.field "rpc_args" (values_to_json args) Fields.no_fields)

described : Describes params "add" args
unfolding find_field
described = record { func = refl; arguments = refl }

get_output_call-result_example :
    (out : Fields) × ((get_output_call token_lib json_lib
        (source [] "drop_oldest")
        (setup_call_params json_lib params (source [] "drop_oldest")).0
        (caller sum_frame)).0
      ≡ ok (ReturnType.success, out))
    × (find_field "result" out ≡ some (value_to_json three))
unfolding response_bytes incoming IsValid pack_value
get_output_call-result_example =
    get_output_call-result token_lib token_laws token_casts json_lib json_laws params "add" args
      described (source [] "drop_oldest") refl (caller sum_frame) refl refl (room sum_frame)
      (omega arith) three (Token.nil ∷ []) (omega arith) refl
