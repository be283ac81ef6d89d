-- ===== src/Sink.antt =====
-- unoq_sink.cpp: `load_data` and `set_params`.
pub mod Agrees
mod Main
use arduino_q_plugin.Common.{String, ℕ, Bool, not, if◌then◌else◌}
use arduino_q_plugin.Common.Result.{Result, ok, throw, out_of_fuel, what}
use arduino_q_plugin.Json.{Json, Fields, JsonLib}
use arduino_q_plugin.Msgpack.{Msgpack}
use arduino_q_plugin.Value.{Value}
use arduino_q_plugin.Socket.{Attempt}
use arduino_q_plugin.Client
use arduino_q_plugin.Client.{call_json}
use arduino_q_plugin.Plugin.{ReturnType}
use arduino_q_plugin.Caller
use arduino_q_plugin.Caller.{Caller, verbose}

-- The try block past the call: `verbose` is read, which may throw.
unfoldable pub reported : JsonLib → Result Value → Fields → Result Bool
reported lib (ok v) params = verbose lib params
reported lib (throw e) params = throw e
reported lib out_of_fuel params = out_of_fuel

module _ {Byte : Type 0} where
  -- The handler, and the return.
  unfoldable pub returned : Result Bool → Caller Byte → Result ReturnType × Caller Byte
  returned (ok b) s = (ok ReturnType.success, s)
  returned (throw e) s = (ok ReturnType.error, record s { error_text = what e })
  returned out_of_fuel s = (out_of_fuel, s)

  unfoldable pub set_params :
      JsonLib
      → (Json → Fields × String → Fields × String)
      → ℕ
      → Json
      → Attempt
      → Caller Byte
      → Caller Byte
  set_params lib base sun_path_size params a s = Caller.set_params lib base sun_path_size params a s

module _ (mp : Msgpack) (lib : JsonLib) where
  unfoldable pub load_data : Json → Caller mp.Byte → Result ReturnType × Caller mp.Byte
  unfolding reported returned
  load_data input s =
      let (r, c) = call_json mp lib input s.session in
      if not s.setup_ok
      then (ok ReturnType.critical, s)
      else returned (reported lib r s.params) (record s { session = c })
