-- ===== src/Tests/Endpoints.antt =====
-- Witnesses for descriptors and the endpoint.
use arduino_q_plugin.Common.{String, ◌≡◌, refl, ◌≢◌, none, some, List, [], ◌∷◌, ◌++◌, arith}
use arduino_q_plugin.Common.Int.{ℤ, pos}
use arduino_q_plugin.Common.Result.{ok, out_of_fuel}
use arduino_q_plugin.Msgpack.{Object, IsWire}
use arduino_q_plugin.Value.{Value, Values, MessageType, IsValid}
use arduino_q_plugin.Value.Wire.{pack_array}
use arduino_q_plugin.Value.Wire.Laws.{to_object}
use arduino_q_plugin.Socket.{World, Recv, Attempt, made, validate_socket_path}
use arduino_q_plugin.Socket.Receive.{incoming}
use arduino_q_plugin.Frames.{request_bytes, read_result}
use arduino_q_plugin.Frames.Laws.{Fits}
use arduino_q_plugin.Client
use arduino_q_plugin.Client.{Client, connect, adopt_socket, move_assign, is_open}
use arduino_q_plugin.Client.Sockets.{Accounts, held, handed_out, connect-Accounts}
use arduino_q_plugin.Endpoint
use arduino_q_plugin.Endpoint.{receive, request, request_loop}
use arduino_q_plugin.Endpoint.Receive.{ahead, receive-request_bytes}
use arduino_q_plugin.Endpoint.Request.{request-ends}
use arduino_q_plugin.Endpoint.Request.Supply.{total}
use arduino_q_plugin.Endpoint.Skip.{AllFit, notification_bytes, request_loop-skips}
use arduino_q_plugin.Tests.Codec.{Token, tokens}
use arduino_q_plugin.Tests.Library.{token_lib, token_laws, token_casts}

abbrev world : List (Recv Token) → World Token
world rs = record { sends = []; recvs = rs; sent = []; closed = [] }

abbrev client : Client.Session Token
client = record { client = record { socket_fd = pos 3; next_msgid = 7 }; world = world [] }

-- The socket is made, and the connection is refused.
abbrev attempt : Attempt
attempt = record {
  socket = made 5;
  rcvtimeo = none;
  sndtimeo = none;
  connect = some "Connection refused";
}

connect-Accounts_example :
    Accounts
      ([] ++ (held (pos 3) ++ handed_out (made 5)))
      (connect 108 "/tmp/mads-rpc.sock" attempt client)
connect-Accounts_example =
    connect-Accounts client attempt 108 "/tmp/mads-rpc.sock" (unfold validate_socket_path in refl)

abbrev pub args : Values
args = Values.value (Value.int64 (pos 1)) (Values.value (Value.string "x") Values.no_values)

pub args-Fits : Fits 7 "add" args
unfolding IsValid
args-Fits = (omega arith, omega arith, omega arith, (omega arith, (omega arith, tt)))

-- An endpoint that holds the first byte of a frame.
abbrev endpoint : List Token → List (Recv Token) → Endpoint.Session Token
endpoint held_bytes rs = record {
  endpoint = record { socket_fd = pos 6; next_msgid = 0; stream = held_bytes };
  world = world rs;
}

abbrev pub asked : Endpoint.Session Token
asked = endpoint (Token.header 4 ∷ []) (
    Recv.bytes (Token.int (pos 0) ∷ Token.int (pos 7) ∷ [])
    ∷ Recv.interrupted
    ∷ Recv.bytes
        (Token.str "add" ∷ Token.header 2 ∷ Token.int (pos 1) ∷ Token.str "x" ∷ Token.nil ∷ [])
    ∷ [])

abbrev pub no_text : ℤ → String
no_text z = ""

receive-request_bytes_example :
    ((receive token_lib no_text asked).0
      ≡ ok (record { type = MessageType.request; msgid = 7; method = "add"; args = args }))
    × (ahead (receive token_lib no_text asked).1 ≡ Token.nil ∷ [])
unfolding request_bytes pack_array incoming
receive-request_bytes_example =
    receive-request_bytes token_lib token_laws asked token_casts no_text refl 7 "add" args
      (Token.nil ∷ []) args-Fits refl

abbrev notice_frame : List Token
notice_frame =
    Token.header 3
    ∷ Token.int (pos 2)
    ∷ Token.str "add"
    ∷ Token.header 2
    ∷ Token.int (pos 1)
    ∷ Token.str "x"
    ∷ []

pub notice-Fits : Fits 0 "add" args
unfolding IsValid
notice-Fits = (omega arith, omega arith, omega arith, (omega arith, (omega arith, tt)))

abbrev pub notified : Endpoint.Session Token
notified = endpoint [] (Recv.bytes notice_frame ∷ [])

-- A notification and a response in one piece, while request 0 waits.
abbrev waiting : Endpoint.Session Token
waiting = endpoint [] (
    Recv.bytes (
      notice_frame
      ++ Token.header 4 ∷ Token.int (pos 1) ∷ Token.int (pos 0) ∷ Token.nil ∷ Token.nil ∷ [])
    ∷ [])

request_loop-skips_example :
    ((request_loop token_lib 2 0 waiting).0 ≡ read_result token_lib Object.nil Object.nil)
    × (ahead (request_loop token_lib 2 0 waiting).1 ≡ [])
    × ((request_loop token_lib 2 0 waiting).1.world.sent ≡ [])
unfolding tokens to_object incoming AllFit notification_bytes IsWire
request_loop-skips_example =
    request_loop-skips token_lib token_laws token_casts (("add", args) ∷ []) 2 0 Object.nil
      Object.nil [] waiting (notice-Fits, tt) (omega arith) (omega arith) (omega arith) refl

request-ends_example : (request token_lib 20 "$/reset" Values.no_values waiting).0 ≢ out_of_fuel
unfolding total
request-ends_example =
    request-ends token_lib token_laws 20 "$/reset" Values.no_values waiting (omega arith)
