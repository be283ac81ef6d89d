-- ===== src/Tests/Hubs.antt =====
-- Witnesses for the router's clients: "led" is registered from descriptor 4.
use arduino_q_plugin.Common.{ℕ, String, ◌≡◌, refl, List, [], ◌∷◌, ◌++◌, arith, true, false}
use arduino_q_plugin.Common.Int.{ℤ, pos}
use arduino_q_plugin.Common.Result.{ok, Exception, runtime_error, msgpack_error}
use arduino_q_plugin.Msgpack.{Object, message}
use arduino_q_plugin.Value.{IsValid}
use arduino_q_plugin.Value.Wire.{pack_array, pack_value}
use arduino_q_plugin.Socket.{Send, Recv}
use arduino_q_plugin.Socket.SendAll.{capacity}
use arduino_q_plugin.Socket.Receive.{incoming}
use arduino_q_plugin.Frames.{request_bytes, response_bytes}
use arduino_q_plugin.Frames.Laws.{Fits}
use arduino_q_plugin.Endpoint
use arduino_q_plugin.Endpoint.Registers.{one_name}
use arduino_q_plugin.Router.{lookup_method}
use arduino_q_plugin.Router.Registry.{IsMap}
use arduino_q_plugin.Router.Writes.{Hub}
use arduino_q_plugin.Router.Clients.{handle_message, client_loop}
use arduino_q_plugin.Router.Clients.Gone.{Ends, client_loop-Ends}
use arduino_q_plugin.Router.Clients.Registers.{Registered, register_method-handshake}
use arduino_q_plugin.Router.Clients.Delivers.{Written, notification_delivery}
use arduino_q_plugin.Endpoint.Receive.{ahead, notification_object}
use arduino_q_plugin.Value.Wire.Laws.{to_object}
use arduino_q_plugin.Source.Queue.{last_entries}
use arduino_q_plugin.Value.Json.{to_json}
use arduino_q_plugin.Source.Receiver.{Receiver, receiver_loop}
use arduino_q_plugin.Source.Receiver.Serves.{notification}
use arduino_q_plugin.Tests.Receivers.{noticing}
use arduino_q_plugin.Tests.Endpoints.{args, notice-Fits}
use arduino_q_plugin.Tests.Codec.{Token, tokens}
use arduino_q_plugin.Tests.Library.{token_lib, token_laws, token_casts}

abbrev pub no_number : ℤ → String
no_number z = ""

abbrev pub no_digits : ℕ → String
no_digits d = ""

abbrev pub insufficient : Exception
insufficient = msgpack_error "insufficient bytes"

abbrev pub undefined : Exception
undefined = runtime_error "undefined"

abbrev pub hub : Hub Token
hub = record {
  entries = ("led", 4) ∷ [];
  answers = Send.accepted 2 ∷ Send.interrupted ∷ Send.accepted 9 ∷ [];
  outbox = [];
  closed = [];
}

abbrev ready : Hub Token
ready = record hub { entries = ("add", 4) ∷ [] }

abbrev pub reads : List (Recv Token)
reads =
    Recv.bytes (Token.header 4 ∷ Token.int (pos 0) ∷ [])
    ∷ Recv.interrupted
    ∷ Recv.bytes (Token.int (pos 7) ∷ Token.str "ping" ∷ Token.header 0 ∷ [])
    ∷ Recv.hangup
    ∷ []

client_loop-Ends_example :
    Ends token_lib no_number no_digits insufficient undefined 4
      (client_loop token_lib no_number no_digits insufficient undefined 4 [] reads hub)
unfolding IsMap lookup_method
client_loop-Ends_example =
    client_loop-Ends token_lib no_number no_digits insufficient undefined token_laws 4 [] reads hub
      (refl, tt)

abbrev endpoint : Endpoint.Session Token
endpoint = record {
  endpoint = record { socket_fd = pos 6; next_msgid = 7; stream = [] };
  world = record {
    sends = Send.accepted 3 ∷ Send.accepted 3 ∷ [];
    recvs =
        Recv.bytes (
          Token.header 4 ∷ Token.int (pos 1) ∷ Token.int (pos 7) ∷ Token.nil ∷ Token.bool true ∷ [])
        ∷ [];
    sent = [];
    closed = [];
  };
}

led-Fits : Fits 7 "$/register" (one_name "led")
unfolding IsValid
led-Fits = (omega arith, omega arith, omega arith, (omega arith, tt))

register_method-handshake_example :
    (o : Object) × (token_lib.decode (request_bytes token_lib 7 "$/register" (one_name "led"))
      ≡ message o [])
    × Registered token_lib no_number no_digits insufficient undefined token_laws token_casts 4 7
        "led" hub
        (handle_message token_lib no_number no_digits insufficient undefined 4 o hub)
    × ((Endpoint.register_method token_lib 5 "led" endpoint).0 ≡ ok tt)
    × ((Endpoint.register_method token_lib 5 "led" endpoint).1.world.sent
        ≡ [] ++ request_bytes token_lib 7 "$/register" (one_name "led"))
unfolding request_bytes response_bytes pack_array pack_value capacity incoming
register_method-handshake_example =
    register_method-handshake token_lib no_number no_digits insufficient undefined token_laws
      token_casts 4 4 "led" [] hub endpoint refl refl led-Fits (omega arith) (omega arith) refl

notification_delivery_example :
    Written token_lib no_number no_digits insufficient undefined token_laws token_casts 4
      (token_lib.encode (notification_object "add" args))
      ready
      (handle_message token_lib no_number no_digits insufficient undefined 9
        (notification_object "add" args)
        ready)
    × ((s' : Receiver Token) × (receiver_loop token_lib no_number 9
            (true ∷ true ∷ false ∷ [])
            noticing
          ≡ receiver_loop token_lib no_number 9 (true ∷ false ∷ []) s')
        × (s'.source.message_queue ≡ to_json (notification "add" args) ∷ [])
        × (ahead s'.session ≡ [])
        × (s'.session.world.sent ≡ []))
unfolding lookup_method tokens to_object capacity incoming last_entries
notification_delivery_example =
    notification_delivery token_lib no_number no_digits insufficient undefined token_laws
      token_casts 9 4 9 "add" args ready (false ∷ []) noticing [] refl (omega arith) notice-Fits
      (record { capacity = omega arith; bounded = omega arith }) refl refl
