-- ===== src/Tests/Commands.antt =====
-- Witnesses for rpc_call.cpp: the command line `add on 1`, where `stoll` reads no number but "1".
use arduino_q_plugin.Common.{ℕ, String, refl, Bool, true, false, Option, none, some, [], ◌∷◌, arith}
use arduino_q_plugin.Common.Int.{ℤ, pos}
use arduino_q_plugin.Value.{Value, Values, IsValid}
use arduino_q_plugin.Value.Wire.{pack_array, pack_value}
use arduino_q_plugin.Socket.{
  World, Send, Recv, Attempt, made, set_up, set_socket_timeouts, validate_socket_path,
}
use arduino_q_plugin.Socket.SendAll.{capacity}
use arduino_q_plugin.Socket.Receive.{incoming}
use arduino_q_plugin.Frames.{request_bytes, response_bytes}
use arduino_q_plugin.Client.{unconnected}
use arduino_q_plugin.Command.{argument, arguments, main}
use arduino_q_plugin.Command.Prints.{Names, RunPrints, main-respond}
use arduino_q_plugin.Command.Sends.{AllSpell, RunSends, main-sends}
use arduino_q_plugin.Tests.Codec.{Token}
use arduino_q_plugin.Tests.Library.{token_lib, token_laws, token_casts}
use text.Mathlib.Text.{◌==◌ as text_eq}

abbrev read_one : Bool → Option (ℤ × ℕ)
read_one true = some (pos 1, 1)
read_one false = none

abbrev stoll : String → Option (ℤ × ℕ)
stoll arg = read_one (text_eq arg "1")

abbrev stod : String → Option (ℕ × ℕ)
stod arg = none

abbrev attempt : Attempt
attempt = record { socket = made 5; rcvtimeo = none; sndtimeo = none; connect = none }

abbrev world : World Token
world = record {
  sends = Send.accepted 9 ∷ [];
  recvs =
      Recv.bytes (
        Token.header 4 ∷ Token.int (pos 1) ∷ Token.int (pos 0) ∷ Token.nil ∷ Token.int (pos 3) ∷ [])
      ∷ [];
  sent = [];
  closed = [];
}

abbrev no_number : ℤ → String
no_number z = "3"

abbrev no_digits : ℕ → String
no_digits d = ""

-- Only the socket exists, and it is the first word.
abbrev exists : String → Bool
exists path = text_eq path "/run/bridge.sock"

main-respond_example :
    RunPrints stoll stod no_number no_digits token_lib 108 attempt world (Value.int64 (pos 3)) 5 (
      main stoll stod no_number no_digits token_lib 108 attempt "/tmp/router.sock" exists
        ("/run/bridge.sock" ∷ "add" ∷ "on" ∷ "1" ∷ [])
        (record { client = unconnected; world = world }))
unfolding set_up set_socket_timeouts validate_socket_path request_bytes response_bytes pack_array
    pack_value capacity incoming IsValid arguments argument
main-respond_example =
    main-respond stoll stod no_number no_digits token_lib 108 attempt token_laws token_casts
      "/tmp/router.sock" "/run/bridge.sock" "add" exists
      ("/run/bridge.sock" ∷ "add" ∷ "on" ∷ "1" ∷ []) ("on" ∷ "1" ∷ []) 5 world (Value.int64 (pos 3))
      [] (Names.with_socket refl) refl refl refl refl (omega arith) (omega arith) refl

main-sends_example :
    (vs : Values) × AllSpell stoll stod ("on" ∷ "1" ∷ []) vs
    × RunSends stoll stod no_number no_digits token_lib 108 attempt world
        (request_bytes token_lib 0 "add" vs)
        (main stoll stod no_number no_digits token_lib 108 attempt "/tmp/router.sock" exists
          ("add" ∷ "on" ∷ "1" ∷ [])
          (record { client = unconnected; world = world }))
unfolding set_up set_socket_timeouts validate_socket_path
main-sends_example =
    main-sends stoll stod no_number no_digits token_lib 108 attempt "/tmp/router.sock"
      "/tmp/router.sock" "add" exists ("add" ∷ "on" ∷ "1" ∷ []) ("on" ∷ "1" ∷ []) 5 world
      (Names.by_default refl) refl refl refl refl
