-- ===== src/Source/Calling/Publishes.antt =====
-- The call that the plugin's parameters describe, and what `get_output` publishes of its result.
use arduino_q_plugin.Common.{
  ◌^◌, ◌≤◌, ◌<◌, String, ◌≡◌, refl, ap, ◌∙◌, true, false, some, List, ◌++◌, length, is_empty,
}
use arduino_q_plugin.Common.Result.{ok}
use arduino_q_plugin.Common.State.{continue_with}
use arduino_q_plugin.Json.{Json, Fields, JsonLib, JsonLaws, find_field, set_field}
use arduino_q_plugin.Msgpack.{Msgpack, WireLaws, CastLaws}
use arduino_q_plugin.Value.{Value, Values, MessageType, IsValid}
use arduino_q_plugin.Value.Json.{value_to_json, values_to_json, to_json}
use arduino_q_plugin.Value.Json.Laws.{parse_json_call-to_json}
use arduino_q_plugin.Socket.SendAll.{capacity}
use arduino_q_plugin.Socket.Receive.{incoming}
use arduino_q_plugin.Frames.{response_bytes}
use arduino_q_plugin.Client
use arduino_q_plugin.Client.{is_open, call, call_json}
use arduino_q_plugin.Client.Calls.{request}
use arduino_q_plugin.Endpoint.Respond.{call-respond}
use arduino_q_plugin.Plugin.Laws.{result_field}
use arduino_q_plugin.Plugin.{ReturnType, with_agent, call_output}
use arduino_q_plugin.Source.{Source}
use arduino_q_plugin.Source.Calling.{
  call_fields, called_param, call_args, setup_call, or_else, setup_call_params, get_output_call,
}

-- The parameters of a call: its method and its arguments.
pub record Describes (params : Fields) (method : String) (args : Values) : Type 0 where
  pub func : find_field "rpc_call" params ≡ some (Json.string method)
  pub arguments : find_field "rpc_args" params ≡ some (values_to_json args)

setup_call_params-Describes :
    (lib : JsonLib) (params : Fields) (method : String) (args : Values) (s : Source)
    → Describes params method args
    → setup_call_params lib params s ≡ (call_fields (Json.string method) (values_to_json args), s)
unfolding setup_call_params called_param setup_call call_args values_to_json
setup_call_params-Describes lib params method args s d =
    ap (λ o. setup_call lib params (or_else o (find_field "rpc_func" params)) s) d.func
    ∙ ap (λ o. call_args (Json.string method) o s) d.arguments

pub call_json-call :
    (mp : Msgpack) (lib : JsonLib) (laws : JsonLaws lib) (method : String) (args : Values)
    (c : Client.Session mp.Byte)
    → call_json mp lib (Json.object (call_fields (Json.string method) (values_to_json args))) c
      ≡ call mp method args c
unfolding call_json to_json
call_json-call mp lib laws method args c =
    ap (λ r. continue_with (r, c) (λ p. call mp p.0 p.1))
      (parse_json_call-to_json lib laws
        (record { type = MessageType.notification; msgid = 0; method = method; args = args }))

module _ (mp : Msgpack) (laws : WireLaws mp) (casts : CastLaws mp) (lib : JsonLib)
    (json_laws : JsonLaws lib) (params : Fields) (method : String) (args : Values)
    (describes : Describes params method args) (s : Source) (ready : s.setup_ok ≡ true)
    (c : Client.Session mp.Byte) (open_socket : is_open c.socket_fd ≡ true)
    (named : is_empty method ≡ false)
    (room : length (request mp method args c) ≤ capacity c.world.sends)
    (small : c.next_msgid < 2 ^ 32) where
  -- With parameters that describe a call, and a client whose request the kernel takes and is answered
  -- by `respond` with a valid value, `get_output` publishes that value, as JSON, as the result.
  pub get_output_call-result :
      (v : Value) (extra : List mp.Byte)
      → IsValid v
      → incoming c.world.recvs ≡ response_bytes mp c.next_msgid (some v) "" ++ extra
      → (out : Fields) × ((get_output_call mp lib s (setup_call_params lib params s).0 c).0
          ≡ ok (ReturnType.success, out))
        × (find_field "result" out ≡ some (value_to_json v))
  unfolding get_output_call call_output
  get_output_call-result v extra valid h =
      let setup = setup_call_params-Describes lib params method args s describes in
      let answer =
        call-respond mp laws casts method args c open_socket named room small v extra valid h in
      (
        set_field "result" (value_to_json v) (with_agent s.agent_id Fields.no_fields),
        rw (setup, call_json-call mp lib json_laws method args c, answer, ready) refl,
        result_field s.agent_id (value_to_json v),
      )
