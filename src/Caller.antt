-- ===== src/Caller.antt =====
-- unoq_filter.cpp and unoq_sink.cpp: the members that both plugins have, and the parts of
-- `set_params` and `load_data` that both spell alike. `_params`, `_agent_id` and `_error` are members
-- of the base class, whose `set_params` is a parameter.
pub mod Calls
use arduino_q_plugin.Common.{
  String, ℕ, Bool, true, false, none, some, Option, List, [], ◌∷◌, if◌then◌else◌, ◌<>◌,
}
use arduino_q_plugin.Common.Result.{Result, ok, throw, out_of_fuel, json_error, what}
use arduino_q_plugin.Json.{Json, Fields, JsonLib, find_field, set_field}
use arduino_q_plugin.Socket.{Attempt}
use arduino_q_plugin.Client
use arduino_q_plugin.Client.{connect}

pub record Caller (Byte : Type 0) : Type 0 where
  pub setup_ok : Bool
  pub error_text : String
  pub agent_id : String
  pub params : Fields
  pub socket_path : String
  pub rpc_call : Json
  pub session : Client.Session Byte

abbrev pub default_socket_path : String
default_socket_path = "/var/run/arduino-router.sock"

-- `_params["socket_path"].get<string_view>()`, and the handler's default.
unfoldable pub path_param : Option Json → String
path_param (some (Json.string path)) = path
path_param _ = default_socket_path

-- `_params["verbose"].get<bool>()`: a key that is missing reads as null.
unfoldable pub get_bool : JsonLib → Option Json → Result Bool
get_bool lib (some (Json.boolean b)) = ok b
get_bool lib (some j) = throw (json_error (lib.json_text j))
get_bool lib none = throw (json_error (lib.json_text Json.null))

unfoldable pub verbose : JsonLib → Fields → Result Bool
unfolding get_bool
verbose lib params = get_bool lib (find_field "verbose" params)

-- What `connect` makes of the plugin.
unfoldable pub connected :
    {Byte : Type 0} → Result (Unit {0}) × Client.Session Byte → Caller Byte → Caller Byte
connected (ok u, c) s = record s { session = c }
connected (throw e, c) s = record s {
  session = c;
  setup_ok = false;
  error_text = "Failed to connect to RPC server: " <> what e;
}
connected (out_of_fuel, c) s = record s { session = c }

module _ {Byte : Type 0} (lib : JsonLib) (base : Json → Fields × String → Fields × String)
    (sun_path_size : ℕ) where
  -- `_params` and the members that are read off it.
  unfoldable pub read_params : Json → Caller Byte → Caller Byte
  unfolding path_param
  read_params params s =
      let (inherited, agent) = base params (s.params, s.agent_id) in
      let merged = lib.merge_patch (set_field "verbose" (Json.boolean false) inherited) params in
      record s {
        params = merged;
        agent_id = agent;
        socket_path = path_param (find_field "socket_path" merged);
      }

  unfoldable pub set_params : Json → Attempt → Caller Byte → Caller Byte
  unfolding read_params connected
  set_params params a s =
      let t = read_params params s in
      if s.setup_ok then connected (connect sun_path_size t.socket_path a s.session) t else t

-- `info`, the pairs of the map; reading `verbose` may throw.
unfoldable pub info : {Byte : Type 0} → JsonLib → Caller Byte → Result (List (String × String))
unfolding verbose
info lib s = elim (verbose lib s.params) [
  | ok b ↦ ok (("socket_path", s.socket_path) ∷ ("verbose", if b then "true" else "false") ∷ [])
  | throw e ↦ throw e
  | out_of_fuel ↦ out_of_fuel
]
