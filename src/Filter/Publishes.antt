-- ===== src/Filter/Publishes.antt =====
-- What the filter publishes for an input that it accepts.
use arduino_q_plugin.Common.{
  ◌^◌, ◌≤◌, ◌<◌, ◌≡◌, refl, ap, ◌∙◌, true, false, some, List, ◌++◌, length, is_empty, if-false, not,
}
use arduino_q_plugin.Common.Result.{ok}
use arduino_q_plugin.Json.{Fields, JsonLib, JsonLaws, find_field, set_field, get_field}
use arduino_q_plugin.Msgpack.{Msgpack, WireLaws, CastLaws}
use arduino_q_plugin.Value.{Value, Message, IsValid}
use arduino_q_plugin.Value.Json.{value_to_json, to_json, values_to_json}
use arduino_q_plugin.Socket.SendAll.{capacity}
use arduino_q_plugin.Socket.Receive.{incoming}
use arduino_q_plugin.Frames.{response_bytes}
use arduino_q_plugin.Client.{is_open}
use arduino_q_plugin.Client.Calls.{request}
use arduino_q_plugin.Endpoint.Respond.{call-respond}
use arduino_q_plugin.Plugin.{ReturnType, with_agent, call_output}
use arduino_q_plugin.Plugin.Laws.{result_field}
use arduino_q_plugin.Caller.{Caller}
use arduino_q_plugin.Filter.{load_data, process}
use arduino_q_plugin.Source.Calling.Publishes.{call_json-call}

pub load_data-to_json :
    {Byte : Type 0} (lib : JsonLib) (m : Message) (s : Caller Byte)
    → s.setup_ok ≡ true
    → load_data lib (to_json m) s ≡ (ok ReturnType.success, record s { rpc_call = to_json m })
unfolding load_data to_json values_to_json get_field find_field
load_data-to_json lib m s good = if-false (not s.setup_ok) _ _ (ap not good)

module _ (mp : Msgpack) (laws : WireLaws mp) (casts : CastLaws mp) (lib : JsonLib)
    (json_laws : JsonLaws lib) (m : Message) (s : Caller mp.Byte) (ready : s.setup_ok ≡ true)
    (open_socket : is_open s.session.socket_fd ≡ true) (named : is_empty m.method ≡ false)
    (room : length (request mp m.method m.args s.session) ≤ capacity s.session.world.sends)
    (small : s.session.next_msgid < 2 ^ 32) where
  -- With a setup that holds, an input that names a method and lists its arguments is accepted, and
  -- `process` then calls that method with those arguments: if the kernel takes the whole request, and
  -- the router answers with a valid value, the value is published, as JSON, as the result.
  pub process-load_data :
      (v : Value) (extra : List mp.Byte)
      → IsValid v
      → incoming s.session.world.recvs ≡ response_bytes mp s.session.next_msgid (some v) "" ++ extra
      → ((load_data lib (to_json m) s).0 ≡ ok ReturnType.success)
        × ((out : Fields) × ((process mp lib (load_data lib (to_json m) s).1).0
              ≡ ok (ReturnType.success, out))
            × (find_field "result" out ≡ some (value_to_json v)))
  unfolding process call_output to_json
  process-load_data v extra valid h =
      let answer =
        call-respond mp laws casts m.method m.args s.session open_socket named room small v extra
          valid h in
      let loaded = load_data-to_json lib m s ready in
      (
        ap (λ p. p.0) loaded,
        (
          set_field "result" (value_to_json v) (with_agent s.agent_id Fields.no_fields),
          ap (λ p. (process mp lib p.1).0) loaded
              ∙ rw (call_json-call mp lib json_laws m.method m.args s.session, answer) refl,
          result_field s.agent_id (value_to_json v),
        ),
      )
