-- ===== src/Source/Lifecycle.antt =====
-- unoq_source.cpp: `set_params`, which stops the receiver and starts again, `start_receiver`,
-- `stop_receiver` and `info`. The base class's `set_params` and `dump` of the JSON library are
-- parameters. The client and the endpoint each have a descriptor, whose answers are its session's.
-- `joinable` is whether the receiver's thread is; the plugin is that before the rounds of its loop.
pub mod Setup
pub mod Starts
use arduino_q_plugin.Common.{
  ℕ, suc, String, Bool, true, false, not, ◌&&◌, Option, none, some, List, [], ◌∷◌, length,
  if◌then◌else◌, ◌<>◌,
}
use arduino_q_plugin.Common.Int.{ℤ}
use arduino_q_plugin.Common.Result.{Result, ok, throw, out_of_fuel, json_error, Exception, what}
use arduino_q_plugin.Common.State.{Method, pure, ◌>>=◌, ◌>>◌}
use arduino_q_plugin.Json.{Json, Items, Fields, JsonLib, set_field, value_text}
use arduino_q_plugin.Msgpack.{Msgpack}
use arduino_q_plugin.Socket.{Attempt}
use arduino_q_plugin.Client
use arduino_q_plugin.Client.{is_open}
use arduino_q_plugin.Endpoint
use arduino_q_plugin.Endpoint.{register_method}
use arduino_q_plugin.Endpoint.Request.Supply.{supply}
use arduino_q_plugin.Caller.{default_socket_path}
use arduino_q_plugin.Source.{Source}
use arduino_q_plugin.Source.Params.{setup_failed, setup_notify_params}
use arduino_q_plugin.Source.Calling.{setup_call_params}
use arduino_q_plugin.Source.Receiver.{receiver_loop}
use text.Mathlib.Text.{◌==◌ as text_eq}

pub data SourceMode : Type 0 where
  call notify : SourceMode

pub record Unoq (Byte : Type 0) : Type 0 where
  pub source : Source
  pub params : Fields
  pub socket_path : String
  pub mode : SourceMode
  pub rpc_call : Fields
  pub client : Client.Session Byte
  pub endpoint : Endpoint.Session Byte
  pub joinable : Bool

abbrev pub default_max_queue : ℕ
default_max_queue = 256

-- The source once the members that `set_params` clears are cleared.
unfoldable pub cleared : String → Source → Source
cleared agent s = record s {
  setup_ok = true;
  error_text = "";
  agent_id = agent;
  provided_methods = [];
  message_queue = [];
  receiver_error = "";
}

path_of : Result String → String
path_of (ok path) = path
path_of _ = default_socket_path

-- The mode that is asked for: the one before stays if it is not known.
unfoldable pub chosen_mode : Result String → SourceMode × Source → SourceMode × Source
chosen_mode (ok mode) (before, s) =
    if text_eq mode "call"
    then (SourceMode.call, s)
    else if text_eq mode "poll"
    then (SourceMode.call, s)
    else if text_eq mode "notify"
    then (SourceMode.notify, s)
    else if text_eq mode "receive"
    then (SourceMode.notify, s)
    else (before, setup_failed ("Invalid mode parameter: " <> mode) s)
chosen_mode (throw e) (before, s) = (before, setup_failed ("Invalid mode parameter: " <> what e) s)
chosen_mode out_of_fuel (before, s) = (before, s)

module _ (mp : Msgpack) (show_int : ℤ → String) where
  -- Each request has fuel for all the bytes to come.
  unfoldable pub register_all : List String → Method (Endpoint.Session mp.Byte) (Unit {0})
  register_all [] = pure tt
  register_all (method ∷ rest) =
      (λ s. register_method mp (suc (supply s)) method s) >> register_all rest

  started :
      Result (Unit {0}) × Endpoint.Session mp.Byte → Unoq mp.Byte → Result (Unit {0}) × Unoq mp.Byte
  started (ok u, e) s = (ok u, record s { endpoint = e; joinable = true })
  started (throw x, e) s = (throw x, record s { endpoint = Endpoint.close e })
  started (out_of_fuel, e) s = (out_of_fuel, record s { endpoint = Endpoint.close e })

  unfoldable pub start_receiver : ℕ → Attempt → Method (Unoq mp.Byte) (Unit {0})
  unfolding register_all started
  start_receiver sun_path_size a s =
      started
        ((Endpoint.connect sun_path_size s.socket_path a >> register_all s.source.provided_methods)
          s.endpoint)
        s

  -- `loads` is what the thread reads of the flag until it ends; the last rounds of its loop come
  -- before `join` returns.
  unfoldable pub stop_receiver : List Bool → Unoq mp.Byte → Unoq mp.Byte
  stop_receiver loads s =
      let r =
        receiver_loop mp show_int (suc (supply s.endpoint)) loads
          (record { source = s.source; session = s.endpoint }) in
      if s.joinable
      then record s { source = r.source; endpoint = Endpoint.close r.session; joinable = false }
      else record s { endpoint = Endpoint.close s.endpoint }

  -- The destructor.
  unfoldable pub destroy_plugin : List Bool → Unoq mp.Byte → Unoq mp.Byte
  unfolding stop_receiver
  destroy_plugin loads s = stop_receiver loads s

  module _ (lib : JsonLib) (base : Json → Fields × String → Fields × String)
      (sun_path_size : ℕ) where
    -- The defaults, and the parameters merged over them.
    with_defaults : Json → Fields → Fields
    with_defaults params inherited =
        let with_mode = set_field "mode" (Json.string "call") inherited in
        let with_queue = set_field "max_queue" (Json.number_unsigned default_max_queue) with_mode in
        lib.merge_patch (set_field "overflow" (Json.string "drop_oldest") with_queue) params

    -- The members up to the mode's.
    unfoldable pub read_params : Json → Unoq mp.Byte → Unoq mp.Byte
    unfolding cleared path_of chosen_mode with_defaults
    read_params params s =
        let (inherited, agent) = base params (s.params, s.source.agent_id) in
        let merged = with_defaults params inherited in
        let (mode, source) =
          chosen_mode (value_text lib "mode" "call" (Json.object merged))
            (s.mode, cleared agent s.source) in
        record s {
          source = source;
          params = merged;
          rpc_call = Fields.no_fields;
          socket_path =
              path_of (value_text lib "socket_path" default_socket_path (Json.object merged));
          mode = mode;
        }

    unfoldable pub setup : SourceMode → Unoq mp.Byte → Unoq mp.Byte
    setup SourceMode.call s =
        let (rpc_call, source) = setup_call_params lib s.params s.source in
        record s { rpc_call = rpc_call; source = source }
    setup SourceMode.notify s = record s { source = setup_notify_params lib s.params s.source }

    connected : Result (Unit {0}) × Client.Session mp.Byte → Unoq mp.Byte → Unoq mp.Byte
    connected (ok u, c) s = record s { client = c }
    connected (throw e, c) s = record s {
      client = c;
      source = setup_failed ("Failed to connect to RPC server: " <> what e) s.source;
    }
    connected (out_of_fuel, c) s = record s { client = c }

    received : Result (Unit {0}) × Unoq mp.Byte → Unoq mp.Byte
    received (throw e, s) = record s {
      source = setup_failed ("Failed to start RPC receiver: " <> what e) s.source;
    }
    received (_, s) = s

    -- The last two steps, of which at most one is taken.
    unfoldable pub open_connection : SourceMode → Attempt → Unoq mp.Byte → Unoq mp.Byte
    unfolding connected received start_receiver
    open_connection SourceMode.call a s =
        let called = connected (Client.connect sun_path_size s.socket_path a s.client) s in
        if s.source.setup_ok then called else s
    open_connection SourceMode.notify a s =
        let listening = received (start_receiver sun_path_size a s) in
        if s.source.setup_ok then listening else s

    unfoldable pub set_params : List Bool → Json → Attempt → Unoq mp.Byte → Unoq mp.Byte
    unfolding stop_receiver read_params setup open_connection
    set_params loads params a s =
        let r = read_params params (stop_receiver loads s) in
        open_connection r.mode a (setup r.mode r)

names_json : List String → Items
names_json [] = Items.no_items
names_json (name ∷ names) = Items.item (Json.string name) (names_json names)

-- `info`: the pairs of the map.
unfoldable pub info :
    {Byte : Type 0} → (Json → String) → (ℕ → String) → Unoq Byte → List (String × String)
unfolding names_json
info dump show_nat s = elim s.mode [
  | SourceMode.notify ↦
      ("socket_path", s.socket_path)
      ∷ ("mode", "notify")
      ∷ ("overflow", s.source.overflow_policy)
      ∷ ("provided_rpc", dump (Json.array (names_json s.source.provided_methods)))
      ∷ ("max_queue", show_nat s.source.max_queue)
      ∷ ("queue_size", show_nat (length s.source.message_queue))
      ∷ []
  | SourceMode.call ↦
      ("socket_path", s.socket_path)
      ∷ ("mode", "call")
      ∷ ("rpc_call", dump (Json.object s.rpc_call))
      ∷ []
]
