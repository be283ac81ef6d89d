-- ===== src/Tests/Sources.antt =====
-- Witnesses for the queue of the source plugin.
use arduino_q_plugin.Common.{String, ◌≡◌, refl, true, List, [], ◌∷◌, ◌++◌, arith}
use arduino_q_plugin.Common.Int.{pos}
use arduino_q_plugin.Common.Result.{ok}
use arduino_q_plugin.Json.{Json, Items, Fields, find_field}
use arduino_q_plugin.Value.{Value, Values, Message, MessageType}
use arduino_q_plugin.Plugin.{ReturnType}
use arduino_q_plugin.Source.{Source, get_output_notify}
use arduino_q_plugin.Source.Queue.{enqueue_all, last_entries, enqueue_all-drop_oldest}
use arduino_q_plugin.Source.Batches.{expected, queued, get_output-batches}
use arduino_q_plugin.Source.Params.{setup_notify_params}
use arduino_q_plugin.Source.Params.Checked.{Either, IsConfigured, setup_notify_params-IsConfigured}
use arduino_q_plugin.Tests.Library.{json_lib}

abbrev pub source : List Json → String → Source
source queue policy = record {
  setup_ok = true;
  error_text = "";
  agent_id = "agent";
  message_queue = queue;
  receiver_error = "";
  provided_methods = "led" ∷ "button" ∷ [];
  max_queue = 2;
  overflow_policy = policy;
}

abbrev entries : List Json
entries = Json.string "a" ∷ Json.string "b" ∷ Json.string "c" ∷ []

enqueue_all-drop_oldest_example :
    (enqueue_all entries (source [] "drop_oldest")).message_queue ≡ last_entries 2 ([] ++ entries)
enqueue_all-drop_oldest_example =
    enqueue_all-drop_oldest entries [] (source [] "drop_oldest") (omega arith) refl
      (unfold last_entries in refl)

abbrev pressed : Message
pressed = record {
  type = MessageType.notification;
  msgid = 0;
  method = "button";
  args = Values.value (Value.int64 (pos 1)) Values.no_values;
}

abbrev busy : Source
busy = source (queued (pressed ∷ pressed ∷ [])) "drop_oldest"

get_output-batches_example :
    (out : Fields) × (get_output_notify json_lib busy
      ≡ (ok (ReturnType.success, out), record busy { message_queue = [] }))
    × (find_field "button" out ≡ expected ("led" ∷ "button" ∷ []) "button" (pressed ∷ pressed ∷ []))
get_output-batches_example =
    get_output-batches json_lib busy pressed (pressed ∷ []) refl refl "button" refl

abbrev params : Fields
params = Fields.field "provided_rpc" (Json.array (Items.item (Json.string "led") Items.no_items)) (
    Fields.field "max_queue" (Json.number_unsigned 8)
      (Fields.field "overflow" (Json.string "drop_newest") Fields.no_fields))

setup_notify_params-IsConfigured_example :
    Either IsConfigured (setup_notify_params json_lib params (source [] "drop_oldest"))
setup_notify_params-IsConfigured_example =
    setup_notify_params-IsConfigured json_lib params (source [] "drop_oldest") refl
