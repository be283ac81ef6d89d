-- ===== src/Sink/Main.antt =====
-- unoq_sink.cpp: `main`, which runs the plugin on an example.
use arduino_q_plugin.Common.{ℕ, String, true}
use arduino_q_plugin.Common.Result.{Result}
use arduino_q_plugin.Json.{Json, Items, Fields, JsonLib}
use arduino_q_plugin.Msgpack.{Msgpack}
use arduino_q_plugin.Socket.{Attempt}
use arduino_q_plugin.Plugin.{ReturnType}
use arduino_q_plugin.Caller.{Caller}
use arduino_q_plugin.Sink.{load_data, set_params}

abbrev pub params : Json
params = Json.object (
    Fields.field "socket_path" (Json.string "/tmp/mads-rpc.sock")
      (Fields.field "verbose" (Json.boolean true) Fields.no_fields))

abbrev pub input : Json
input = Json.object (
    Fields.field "rpc_func" (Json.string "ping")
      (Fields.field "rpc_args" (Json.array Items.no_items) Fields.no_fields))

module _ (mp : Msgpack) (lib : JsonLib) (base : Json → Fields × String → Fields × String)
    (sun_path_size : ℕ) where
  -- `main` ignores the code that `load_data` returns.
  unfoldable pub main : Attempt → Caller mp.Byte → Result ReturnType × Caller mp.Byte
  main a plugin = load_data mp lib input (set_params lib base sun_path_size params a plugin)
