-- ===== src/Filter.antt =====
-- unoq_filter.cpp: `load_data`, `process` and `set_params`, and the plugin's life as a step relation:
-- the framework calls the three in any order.
pub mod Life
mod Main
pub mod Publishes
pub mod Remote
use arduino_q_plugin.Common.{String, ℕ, Bool, true, false, none, some, Option, not, if◌then◌else◌}
use arduino_q_plugin.Common.Result.{Result, ok, throw, out_of_fuel}
use arduino_q_plugin.Json.{Json, Fields, JsonLib, get_field}
use arduino_q_plugin.Msgpack.{Msgpack}
use arduino_q_plugin.Value.{Value}
use arduino_q_plugin.Socket.{Attempt}
use arduino_q_plugin.Client
use arduino_q_plugin.Client.{call_json}
use arduino_q_plugin.Plugin.{ReturnType, with_agent, call_output}
use arduino_q_plugin.Caller
use arduino_q_plugin.Caller.{Caller, verbose}

unfoldable pub is_string : Option Json → Bool
is_string (some (Json.string text)) = true
is_string _ = false

unfoldable pub is_array : Option Json → Bool
is_array (some (Json.array is)) = true
is_array _ = false

module _ {Byte : Type 0} (lib : JsonLib) where
  -- `_error` is set before `verbose` is read, which may throw.
  unfoldable pub refuse : String → Caller Byte → Result ReturnType × Caller Byte
  refuse error s =
      let t = record s { error_text = error } in
      (
        elim (verbose lib s.params) [
          | ok b ↦ ok ReturnType.error
          | throw e ↦ throw e
          | out_of_fuel ↦ out_of_fuel
        ],
        t,
      )

  unfoldable pub load_data : Json → Caller Byte → Result ReturnType × Caller Byte
  unfolding refuse is_string is_array
  load_data input s =
      if not s.setup_ok
      then (ok ReturnType.critical, s)
      else if not (is_string (get_field "rpc_func" input))
      then refuse "Input JSON must contain a string field 'rpc_func'" s
      else if not (is_array (get_field "rpc_args" input))
      then refuse "Input JSON must contain an array field 'rpc_args'" s
      else (ok ReturnType.success, record s { rpc_call = input })

  module _ (base : Json → Fields × String → Fields × String) (sun_path_size : ℕ) where
    unfoldable pub set_params : Json → Attempt → Caller Byte → Caller Byte
    set_params params a s = Caller.set_params lib base sun_path_size params a s

module _ (mp : Msgpack) (lib : JsonLib) where
  -- What the outcome of the call makes of `out` and of the plugin.
  unfoldable pub process : Caller mp.Byte → Result (ReturnType × Fields) × Caller mp.Byte
  process s =
      let (r, c) = call_json mp lib s.rpc_call s.session in
      (call_output r (with_agent s.agent_id Fields.no_fields), record s { session = c })

  -- One call by the framework.
  pub data Step (base : Json → Fields × String → Fields × String) (sun_path_size : ℕ)
      (s : Caller mp.Byte) : Caller mp.Byte → Type 0 where
    loading : (input : Json) → Step base sun_path_size s (load_data lib input s).1
    processing : Step base sun_path_size s (process s).1
    setting :
        (params : Json) (a : Attempt)
        → Step base sun_path_size s (set_params lib base sun_path_size params a s)

  pub data Reach (base : Json → Fields × String → Fields × String) (sun_path_size : ℕ)
      (s : Caller mp.Byte) : Caller mp.Byte → Type 0 where
    here : Reach base sun_path_size s s
    next :
        {t u : Caller mp.Byte}
        → Reach base sun_path_size s t
        → Step base sun_path_size t u
        → Reach base sun_path_size s u
