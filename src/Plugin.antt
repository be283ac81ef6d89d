-- ===== src/Plugin.antt =====
-- unoq_source.cpp, unoq_filter.cpp and unoq_sink.cpp: what the plugins share.
pub mod Laws
use arduino_q_plugin.Common.{String, is_empty, if◌then◌else◌}
use arduino_q_plugin.Common.Result.{Result, ok, throw, out_of_fuel, what}
use arduino_q_plugin.Json.{Json, Fields, set_field}
use arduino_q_plugin.Value.{Value}
use arduino_q_plugin.Value.Json.{value_to_json}

pub data ReturnType : Type 0 where
  success retry error critical : ReturnType

unfoldable pub with_agent : String → Fields → Fields
unfolding set_field
with_agent agent_id out =
    if is_empty agent_id then out else set_field "agent_id" (Json.string agent_id) out

-- What the call's outcome makes of the fields of `out`.
unfoldable pub call_output : Result Value → Fields → Result (ReturnType × Fields)
unfolding set_field
call_output (ok v) out = ok (ReturnType.success, set_field "result" (value_to_json v) out)
call_output (throw e) out = ok (ReturnType.error, set_field "error" (Json.string (what e)) out)
call_output out_of_fuel out = out_of_fuel
