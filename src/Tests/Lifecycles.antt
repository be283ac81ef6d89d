-- ===== src/Tests/Lifecycles.antt =====
-- Witnesses for the source plugin: it stops listening, and is told to call add; and its `main` waits
-- for messages.
use arduino_q_plugin.Common.{String, ◌≡◌, refl, true, false, none, [], ◌∷◌, arith}
use arduino_q_plugin.Common.Int.{pos}
use arduino_q_plugin.Common.Result.{ok}
use arduino_q_plugin.Value.{Value, Values, Message, MessageType}
use arduino_q_plugin.Source.Batches.{queued, expected}
use arduino_q_plugin.Source.Main.{poll_loop}
use arduino_q_plugin.Source.Main.Polls.{quiet, arrive_all, poll_loop-arrival}
use arduino_q_plugin.Json.{Json, Fields, find_field}
use arduino_q_plugin.Socket.{Attempt, made}
use arduino_q_plugin.Source.{Source}
use arduino_q_plugin.Source.Lifecycle.{SourceMode, Unoq, set_params}
use arduino_q_plugin.Source.Lifecycle.Starts.{Outcome, set_params-Outcome}
use arduino_q_plugin.Tests.Codec.{Token}
use arduino_q_plugin.Tests.Library.{token_lib, token_laws, json_lib}
use arduino_q_plugin.Tests.Calls.{caller, sum_frame}
use arduino_q_plugin.Tests.Endpoints.{asked, no_text}

abbrev source : Source
source = record {
  setup_ok = true;
  error_text = "";
  agent_id = "agent";
  message_queue = [];
  receiver_error = "";
  provided_methods = "led" ∷ [];
  max_queue = 4;
  overflow_policy = "drop_oldest";
}

abbrev plugin : Unoq Token
plugin = record {
  source = source;
  params = Fields.no_fields;
  socket_path = "/tmp/router.sock";
  mode = SourceMode.notify;
  rpc_call = Fields.no_fields;
  client = caller sum_frame;
  endpoint = asked;
  joinable = true;
}

abbrev params : Json
params = Json.object (Fields.field "rpc_call" (Json.string "add") Fields.no_fields)

abbrev inherited : Json → Fields × String → Fields × String
inherited j members = members

abbrev attempt : Attempt
attempt = record { socket = made 5; rcvtimeo = none; sndtimeo = none; connect = none }

set_params-Outcome_example :
    Outcome
      (set_params token_lib no_text json_lib inherited 108
        (true ∷ false ∷ [])
        params
        attempt
        plugin).mode
      (set_params token_lib no_text json_lib inherited 108
        (true ∷ false ∷ [])
        params
        attempt
        plugin)
set_params-Outcome_example =
    set_params-Outcome token_lib no_text json_lib inherited 108 token_laws (true ∷ false ∷ [])
      params attempt plugin

abbrev lit : Message
lit = record {
  type = MessageType.notification;
  msgid = 0;
  method = "led";
  args = Values.value (Value.int64 (pos 1)) Values.no_values;
}

-- Two messages come in the third round.
poll_loop-arrival_example :
    ((out : Fields) × (poll_loop token_lib json_lib 300
          (quiet 2 (arrive_all (queued (lit ∷ lit ∷ [])) ∷ []))
          plugin
        ≡ ok (0, out))
      × (find_field "led" out ≡ expected ("led" ∷ []) "led" (lit ∷ lit ∷ [])))
    × (poll_loop token_lib json_lib 300 [] plugin ≡ ok (2, Fields.no_fields))
poll_loop-arrival_example =
    poll_loop-arrival token_lib json_lib plugin refl refl refl refl 300 2 lit (lit ∷ []) [] "led"
      (omega arith) (omega arith) refl
