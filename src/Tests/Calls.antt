-- ===== src/Tests/Calls.antt =====
-- Witnesses for sockets, the client and the endpoint: a call of add(1, 2) with number 7 on descriptor
-- 3, whose request is sent in two pieces and whose response comes in two pieces, with a byte more.
use arduino_q_plugin.Common.{ℕ, ◌≤◌, ◌<◌, ◌≡◌, refl, ◌⊎◌, List, [], ◌∷◌, ◌++◌, arith, length, take}
use arduino_q_plugin.Common.Int.{pos}
use arduino_q_plugin.Common.Result.{ok, throw, runtime_error, Exception}
use arduino_q_plugin.Msgpack.{Object, IsWire}
use arduino_q_plugin.Value.{Value, Values, IsValid}
use arduino_q_plugin.Value.Wire.{object_to_value, pack_array, pack_value}
use arduino_q_plugin.Socket.{World, Send, Recv, send_all, receive_stream}
use arduino_q_plugin.Socket.SendAll.{Sends, capacity, send_all-Sends}
use arduino_q_plugin.Socket.Receive.{IsFlowing, incoming, receive_stream-reassembles}
use arduino_q_plugin.Frames.{request_bytes, response_bytes, next_id}
use arduino_q_plugin.Frames.Laws.{response_object}
use arduino_q_plugin.Client
use arduino_q_plugin.Client.{Client, call, connect, adopt_socket, move_assign, is_open}
use arduino_q_plugin.Client.Calls.{request, received, call_effects, call_sound, call-stale}
use arduino_q_plugin.Endpoint.Respond.{call-respond}
use arduino_q_plugin.Tests.Codec.{Token, tokens}
use arduino_q_plugin.Tests.Library.{token_lib, token_laws, token_casts}

abbrev pub args : Values
args = Values.value (Value.int64 (pos 1)) (Values.value (Value.int64 (pos 2)) Values.no_values)

abbrev ended : List Token → List (Recv Token)
ended ts = Recv.bytes (take 2 ts) ∷ Recv.interrupted ∷ Recv.bytes (rest ts) ∷ Recv.hangup ∷ []
  where
    rest : List Token → List Token
    rest (a ∷ b ∷ r) = r
    rest _ = []

abbrev pub sum_frame : List Token
sum_frame =
    Token.header 4
    ∷ Token.int (pos 1)
    ∷ Token.int (pos 7)
    ∷ Token.nil
    ∷ Token.int (pos 3)
    ∷ Token.nil
    ∷ []

abbrev pub world : List Token → World Token
world ts = record {
  sends = Send.accepted 2 ∷ Send.interrupted ∷ Send.accepted 9 ∷ [];
  recvs = ended ts;
  sent = [];
  closed = [];
}

abbrev pub caller : List Token → Client.Session Token
caller ts = record { client = record { socket_fd = pos 3; next_msgid = 7 }; world = world ts }

abbrev pub three : Value
three = Value.int64 (pos 3)

pub room :
    (ts : List Token)
    → length (request token_lib "add" args (caller ts)) ≤ capacity (world ts).sends
unfolding request_bytes pack_array capacity
room ts = omega arith

call-respond_example : (call token_lib "add" args (caller sum_frame)).0 ≡ ok three
unfolding response_bytes incoming IsValid pack_value
call-respond_example =
    call-respond token_lib token_laws token_casts "add" args (caller sum_frame) refl refl
      (room sum_frame) (omega arith) three (Token.nil ∷ []) (omega arith) refl

answered : (call token_lib "add" args (caller sum_frame)).0 ≡ ok three
unfolding response_bytes incoming IsValid pack_value
answered =
    call-respond token_lib token_laws token_casts "add" args (caller sum_frame) refl refl
      (room sum_frame) (omega arith) three (Token.nil ∷ []) (omega arith) refl

abbrev error_frame : List Token
error_frame =
    Token.header 4
    ∷ Token.int (pos 1)
    ∷ Token.int (pos 7)
    ∷ Token.str "no such method"
    ∷ Token.nil
    ∷ []

call_sound_example :
    ((call token_lib "add" args (caller sum_frame)).1.world.sent
      ≡ [] ++ request token_lib "add" args (caller sum_frame))
    × ((result : Object) × (received token_lib "add" args (caller sum_frame)).0
          ≡ ok (response_object 7 Object.nil result)
        × (object_to_value token_lib result ≡ ok three))
call_sound_example =
    call_sound token_lib "add" args (caller sum_frame) refl refl token_casts three answered

call_effects_example :
    ((call token_lib "add" args (caller [])).1.next_msgid ≡ next_id 7)
    × ((call token_lib "add" args (caller [])).1.socket_fd ≡ pos 3)
    × ((call token_lib "add" args (caller [])).1.world.closed ≡ [])
    × (((call token_lib "add" args (caller [])).1.world.sent
          ≡ [] ++ request token_lib "add" args (caller []))
        ⊎ ((e : Exception) × (k : ℕ) × ((call token_lib "add" args (caller [])).0 ≡ throw e)
            × (k < length (request token_lib "add" args (caller [])))
            × ((call token_lib "add" args (caller [])).1.world.sent
                ≡ [] ++ take k (request token_lib "add" args (caller [])))))
call_effects_example = call_effects token_lib "add" args (caller []) refl refl

-- The response to request 6, which timed out, is what request 7 reads. It comes in two pieces, with a
-- token more in the second one, and then comes the response to request 7.
abbrev stale_pieces : List (Recv Token)
stale_pieces =
    Recv.bytes (Token.header 4 ∷ Token.int (pos 1) ∷ [])
    ∷ Recv.interrupted
    ∷ Recv.bytes (Token.int (pos 6) ∷ Token.nil ∷ Token.int (pos 3) ∷ Token.nil ∷ [])
    ∷ Recv.bytes sum_frame
    ∷ []

abbrev stale_caller : Client.Session Token
stale_caller = record (caller []) { world = record (world []) { recvs = stale_pieces } }

call-stale_example :
    ((call token_lib "add" args stale_caller).0
      ≡ throw (runtime_error "RPC response does not match request"))
    × ((call token_lib "add" args stale_caller).1.world.recvs ≡ Recv.bytes sum_frame ∷ [])
unfolding incoming tokens IsWire IsFlowing
call-stale_example =
    call-stale token_lib "add" args stale_caller refl refl token_laws token_casts (room []) 6
      Object.nil (Object.positive_integer 3)
      (Recv.bytes (Token.header 4 ∷ Token.int (pos 1) ∷ []) ∷ Recv.interrupted ∷ [])
      (Recv.bytes sum_frame ∷ [])
      (Token.int (pos 6) ∷ Token.nil ∷ Token.int (pos 3) ∷ Token.nil ∷ []) (Token.nil ∷ [])
      (omega arith) (omega arith) (omega arith) tt (omega arith) refl refl

abbrev wire_world : World Token
wire_world = world sum_frame

receive_stream-reassembles_example :
    (b' : List Token) × (rs' : List (Recv Token)) × (receive_stream token_lib [] wire_world.recvs
      ≡ (ok (response_object 7 Object.nil (Object.positive_integer 3)), b', rs'))
    × (b' ++ incoming rs' ≡ Token.nil ∷ [])
unfolding incoming tokens IsWire
receive_stream-reassembles_example =
    receive_stream-reassembles token_lib token_laws
      (response_object 7 Object.nil (Object.positive_integer 3)) (omega arith) (Token.nil ∷ []) []
      wire_world.recvs refl

send_all-Sends_example :
    Sends [] sum_frame (send_all sum_frame wire_world).0 (send_all sum_frame wire_world).1.sent
send_all-Sends_example = send_all-Sends sum_frame wire_world
