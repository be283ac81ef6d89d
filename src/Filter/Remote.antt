-- ===== src/Filter/Remote.antt =====
-- An input of the filter on its way: the plugin's call, the router's answer, and what is published.
use arduino_q_plugin.Common.{String, ◌≡◌, some, ◌<>◌}
use arduino_q_plugin.Common.Result.{Result, ok, throw, out_of_fuel, what}
use arduino_q_plugin.Json.{Json, Fields, find_field}
use arduino_q_plugin.Msgpack.{Msgpack}
use arduino_q_plugin.Plugin.{ReturnType}
use arduino_q_plugin.Caller.{Caller}

-- The code that `process` returns for an answer, and the key and the text that it publishes.
abbrev pub published : Result String → ReturnType × String × String
published (ok text) = (ReturnType.success, "result", text)
published (throw e) = (ReturnType.error, "error", "RPC error: " <> what e)
published out_of_fuel = (ReturnType.error, "error", "")

-- `process` published this, and returned this code.
abbrev pub Publishes : ReturnType × String × String → Result (ReturnType × Fields) → Type 0
Publishes (code, key, text) r =
    (out : Fields) × (r ≡ ok (code, out)) × (find_field key out ≡ some (Json.string text))
