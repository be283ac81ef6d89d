-- ===== src/Tests/Filters.antt =====
-- Witnesses for the filter and the sink: the call add(1, 2), and 3 is the answer.
use arduino_q_plugin.Common.{String, ◌≡◌, refl, true, false, some, none, [], ◌∷◌, arith}
use arduino_q_plugin.Common.Result.{ok}
use arduino_q_plugin.Json.{Json, Fields, find_field, get_field}
use arduino_q_plugin.Value.{Message, MessageType, IsValid}
use arduino_q_plugin.Value.Json.{value_to_json, to_json, values_to_json}
use arduino_q_plugin.Value.Wire.{pack_value}
use arduino_q_plugin.Socket.{Attempt, made}
use arduino_q_plugin.Socket.Receive.{incoming}
use arduino_q_plugin.Frames.{response_bytes}
use arduino_q_plugin.Plugin.{ReturnType}
use arduino_q_plugin.Caller.{Caller, default_socket_path, verbose}
use arduino_q_plugin.Caller.Calls.{IsSound}
use arduino_q_plugin.Filter.{
  load_data, process, set_params, here, next, loading, processing, setting,
}
use arduino_q_plugin.Filter.Life.{Reach-IsSound, load_data_of_failed}
use arduino_q_plugin.Filter.Publishes.{process-load_data}
use arduino_q_plugin.Sink
use arduino_q_plugin.Sink.Agrees.{code, load_data-process}
use arduino_q_plugin.Tests.Codec.{Token}
use arduino_q_plugin.Tests.Library.{token_lib, token_laws, token_casts, json_lib, json_laws}
use arduino_q_plugin.Tests.Calls.{args, caller, sum_frame, three, room}

abbrev quiet : Fields
quiet = Fields.field "verbose" (Json.boolean false) Fields.no_fields

abbrev plugin : Caller Token
plugin = record {
  setup_ok = true;
  error_text = "";
  agent_id = "agent";
  params = quiet;
  socket_path = default_socket_path;
  rpc_call = Json.null;
  session = caller sum_frame;
}

abbrev broken : Caller Token
broken = record plugin { setup_ok = false; error_text = "Failed to connect to RPC server: refused" }

abbrev add_call : Message
add_call = record { type = MessageType.notification; msgid = 0; method = "add"; args = args }

abbrev inherited : Json → Fields × String → Fields × String
inherited j members = members

abbrev attempt : Attempt
attempt = record { socket = made 5; rcvtimeo = none; sndtimeo = none; connect = none }

Reach-IsSound_example :
    IsSound
      (process token_lib json_lib
        (load_data json_lib
          (to_json add_call)
          (set_params json_lib inherited 108 (Json.object quiet) attempt plugin)).1).1
Reach-IsSound_example =
    Reach-IsSound token_lib json_lib inherited 108 plugin
      (process token_lib json_lib
        (load_data json_lib (to_json add_call)
          (set_params json_lib inherited 108 (Json.object quiet) attempt plugin)).1).1
      (Json.object quiet) attempt refl (next (next here (loading (to_json add_call))) processing)

load_data_of_failed_example :
    load_data json_lib
      (to_json add_call)
      (set_params json_lib inherited 108 (Json.object quiet) attempt broken)
    ≡ (ok ReturnType.critical, set_params json_lib inherited 108 (Json.object quiet) attempt broken)
load_data_of_failed_example =
    load_data_of_failed token_lib json_lib inherited 108 broken
      (set_params json_lib inherited 108 (Json.object quiet) attempt broken) (to_json add_call) refl
      (next here (setting (Json.object quiet) attempt))

process-load_data_example :
    ((load_data json_lib (to_json add_call) plugin).0 ≡ ok ReturnType.success)
    × ((out : Fields) × ((process token_lib json_lib
            (load_data json_lib (to_json add_call) plugin).1).0
          ≡ ok (ReturnType.success, out))
        × (find_field "result" out ≡ some (value_to_json three)))
unfolding response_bytes incoming IsValid pack_value
process-load_data_example =
    process-load_data token_lib token_laws token_casts json_lib json_laws add_call plugin refl refl
      refl (room sum_frame) (omega arith) three (Token.nil ∷ []) (omega arith) refl

load_data-process_example :
    ((Sink.load_data token_lib json_lib (to_json add_call) plugin).0
      ≡ code (process token_lib json_lib (load_data json_lib (to_json add_call) plugin).1).0)
    × ((Sink.load_data token_lib json_lib (to_json add_call) plugin).1.session
        ≡ (process token_lib json_lib (load_data json_lib (to_json add_call) plugin).1).1.session)
unfolding load_data to_json values_to_json verbose find_field get_field
load_data-process_example =
    load_data-process token_lib json_lib (to_json add_call) plugin (false, refl) refl
