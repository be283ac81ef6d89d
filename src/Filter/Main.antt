-- ===== src/Filter/Main.antt =====
-- unoq_filter.cpp: `main`, which runs the plugin on an example. What it prints is what it returns here.
use arduino_q_plugin.Common.{ℕ, String, true}
use arduino_q_plugin.Common.Int.{pos}
use arduino_q_plugin.Common.Result.{Result, ok, throw, out_of_fuel}
use arduino_q_plugin.Json.{Json, Items, Fields, JsonLib}
use arduino_q_plugin.Msgpack.{Msgpack}
use arduino_q_plugin.Socket.{Attempt}
use arduino_q_plugin.Plugin.{ReturnType}
use arduino_q_plugin.Caller.{Caller}
use arduino_q_plugin.Filter.{load_data, process, set_params}

abbrev pub params : Json
params = Json.object (
    Fields.field "socket_path" (Json.string "/tmp/mads-rpc.sock")
      (Fields.field "verbose" (Json.boolean true) Fields.no_fields))

abbrev pub input : Json
input = Json.object (
    Fields.field "rpc_func" (Json.string "echo") (
      Fields.field "rpc_args"
        (Json.array (
          Items.item (Json.number_integer (pos 42))
            (Items.item (Json.string "hello") (Items.item (Json.boolean true) Items.no_items))))
        Fields.no_fields))

module _ (mp : Msgpack) (lib : JsonLib) (base : Json → Fields × String → Fields × String)
    (sun_path_size : ℕ) where
  -- The codes that the plugin returns are ignored; an exception ends the program.
  unfoldable pub printed :
      Result (ReturnType × Fields) × Caller mp.Byte → Result (Json × Json) × Caller mp.Byte
  printed (ok (code, output), s) = (ok (input, Json.object output), s)
  printed (throw e, s) = (throw e, s)
  printed (out_of_fuel, s) = (out_of_fuel, s)

  unfoldable pub loaded : Result ReturnType × Caller mp.Byte → Result (Json × Json) × Caller mp.Byte
  unfolding printed
  loaded (ok code, s) = printed (process mp lib s)
  loaded (throw e, s) = (throw e, s)
  loaded (out_of_fuel, s) = (out_of_fuel, s)

  -- The input and the output, as `main` prints them, from a plugin that was just made.
  unfoldable pub main : Attempt → Caller mp.Byte → Result (Json × Json) × Caller mp.Byte
  unfolding loaded
  main a plugin = loaded (load_data lib input (set_params lib base sun_path_size params a plugin))
