-- ===== src/Source/Calling.antt =====
-- unoq_source.cpp: `setup_call_params`, and `get_output` in call mode. `rpc_call` is the fields of
-- `_rpc_call`, and `params` those of `_params`.
pub mod Publishes
use arduino_q_plugin.Common.{
  ℕ, String, Bool, true, false, not, Option, none, some, is_empty, if◌then◌else◌, ◌<>◌,
}
use arduino_q_plugin.Common.Result.{Result, ok, throw, out_of_fuel, json_error, what}
use arduino_q_plugin.Json.{Json, Items, Fields, JsonLib, find_field}
use arduino_q_plugin.Msgpack.{Msgpack}
use arduino_q_plugin.Value.{Value}
use arduino_q_plugin.Value.Json.{value_to_json}
use arduino_q_plugin.Client
use arduino_q_plugin.Client.{call_json}
use arduino_q_plugin.Plugin.{ReturnType, with_agent, call_output}
use arduino_q_plugin.Source.{Source}
use arduino_q_plugin.Source.Params.{setup_failed}

abbrev call_fields : Json → Json → Fields
call_fields func args = Fields.field "rpc_func" func (Fields.field "rpc_args" args Fields.no_fields)

abbrev or_else : Option Json → Option Json → Option Json
or_else (some j) other = some j
or_else none other = other

-- The method that is called.
unfoldable pub called_param : Fields → Option Json
called_param params = or_else (find_field "rpc_call" params) (find_field "rpc_func" params)

unfoldable pub call_args : Json → Option Json → Source → Fields × Source
call_args func none s = (call_fields func (Json.array Items.no_items), s)
call_args func (some (Json.array is)) s = (call_fields func (Json.array is), s)
call_args func (some j) s =
    (call_fields func j, setup_failed "Invalid rpc_args parameter: must be an array" s)

-- The second try block, unless the first one has returned.
unfoldable pub setup_call : JsonLib → Fields → Option Json → Source → Fields × Source
unfolding call_args
setup_call lib params none s =
    let error = json_error (lib.json_text (Json.object params)) in
    (Fields.no_fields, setup_failed ("Invalid rpc_call parameter: " <> what error) s)
setup_call lib params (some func) s = call_args func (find_field "rpc_args" params) s

unfoldable pub setup_call_params : JsonLib → Fields → Source → Fields × Source
unfolding called_param setup_call
setup_call_params lib params s = setup_call lib params (called_param params) s

module _ (mp : Msgpack) (lib : JsonLib) where
  -- `get_output` in call mode, with the plugin's client.
  unfoldable pub get_output_call :
      Source
      → Fields
      → Client.Session mp.Byte
      → Result (ReturnType × Fields) × Client.Session mp.Byte
  unfolding call_output with_agent
  get_output_call s rpc_call c =
      let (r, c') = call_json mp lib (Json.object rpc_call) c in
      if not s.setup_ok
      then (
        ok (ReturnType.critical, Fields.field "error" (Json.string s.error_text) Fields.no_fields),
        c,
      )
      else (call_output r (with_agent s.agent_id Fields.no_fields), c')
