-- ===== src/Endpoint.antt =====
-- rpc.cpp: `Endpoint`, which registers methods with the router and answers its requests. Its
-- unpacker lives as long as the connection: `stream` is what it holds past the messages returned.
-- `show_int` is `std::to_string`.
pub mod Connect
pub mod Receive
pub mod Request
pub mod Registers
pub mod Respond
pub mod Skip
use arduino_q_plugin.Common.{
  ℕ, zero, suc, String, Bool, true, false, not, Option, none, some, List, [], is_empty,
  if◌then◌else◌, ◌<>◌,
}
use arduino_q_plugin.Common.Int.{ℤ, pos, negsuc}
use arduino_q_plugin.Common.Result.{Result, ok, throw, out_of_fuel, invalid_argument, runtime_error}
use arduino_q_plugin.Common.State.{Method, pure, raise, lift, ◌>>=◌, ◌>>◌}
use arduino_q_plugin.Msgpack.{Object, Objects, Msgpack, cast}
use arduino_q_plugin.Value.{Value, Values, Message, MessageType}
use arduino_q_plugin.Socket.{
  World, Attempt, Socket, made, refused, validate_socket_path, set_up, errno_message, close_fd,
  send_all, receive_stream,
}
use arduino_q_plugin.Frames.{
  request_bytes, response_bytes, frame, read_message, read_reply, is_number, request_type,
  response_type, notification_type, next_id,
}
use arduino_q_plugin.Client.{is_open}

pub record Endpoint (Byte : Type 0) : Type 0 where
  pub socket_fd : ℤ
  pub next_msgid : ℕ
  pub stream : List Byte

pub record Session (Byte : Type 0) : Type 0 where
  pub endpoint : Endpoint Byte
  pub open endpoint use *
  pub world : World Byte

module _ {Byte : Type 0} where
  unfoldable pub close : Session Byte → Session Byte
  close s =
      let (fd, w) = close_fd s.socket_fd s.world in
      record { endpoint = record s.endpoint { socket_fd = fd }; world = w }

  abbrev with_fd : ℤ → Session Byte → Session Byte
  with_fd fd s = record s { endpoint = record s.endpoint { socket_fd = fd } }

  -- `_stream = std::make_unique<StreamState>()`.
  abbrev fresh_stream : Session Byte → Session Byte
  fresh_stream s = record s { endpoint = record s.endpoint { stream = [] } }

  close_on_throw : Result (Unit {0}) → Session Byte → Result (Unit {0}) × Session Byte
  unfolding close
  close_on_throw (ok u) s = (ok u, s)
  close_on_throw (throw e) s = (throw e, close s)
  close_on_throw out_of_fuel s = (out_of_fuel, s)

  opened : Attempt → Socket → Session Byte → Result (Unit {0}) × Session Byte
  unfolding errno_message close_on_throw
  opened a (made fd) s = close_on_throw (set_up a) (with_fd (pos fd) s)
  opened a (refused error) s =
      (throw (runtime_error (errno_message "Error creating socket" error)), with_fd (negsuc 0) s)

  unfoldable pub connect : ℕ → String → Attempt → Method (Session Byte) (Unit {0})
  unfolding opened
  connect sun_path_size path a = do
    lift (validate_socket_path sun_path_size path)
    λ s. opened a a.socket (fresh_stream (close s))

module _ (mp : Msgpack) where
  unfoldable pub send : List mp.Byte → Method (Session mp.Byte) (Unit {0})
  send payload s = let (r, w) = send_all payload s.world in (r, record s { world = w })

  unfoldable pub receive_message : Method (Session mp.Byte) Object
  receive_message s =
      let (r, stream, rs) = receive_stream mp s.stream s.world.recvs in
      (
        r,
        record {
          endpoint = record s.endpoint { stream = stream };
          world = record s.world { recvs = rs };
        },
      )

  unfoldable pub respond : ℕ → Value → Method (Session mp.Byte) (Unit {0})
  unfolding send
  respond msgid result s =
      if is_open s.socket_fd
      then send (response_bytes mp msgid (some result) "") s
      else (throw (runtime_error "Socket is not open"), s)

  unfoldable pub respond_error : ℕ → String → Method (Session mp.Byte) (Unit {0})
  unfolding send
  respond_error msgid error s =
      if not (is_open s.socket_fd)
      then (throw (runtime_error "Socket is not open"), s)
      else if is_empty error
      then (throw (invalid_argument "RPC error response must not be empty"), s)
      else send (response_bytes mp msgid none error) s

  -- `receive`.
  unfoldable pub receive : (ℤ → String) → Method (Session mp.Byte) Message
  unfolding receive_message
  receive show_int s =
      let received = (do handle ← receive_message; lift (read_message mp show_int handle)) s in
      if is_open s.socket_fd then received else (throw (runtime_error "Socket is not open"), s)

  -- A request that comes while a response is awaited is refused, if its frame has four parts.
  unfoldable pub refuse : Objects → Method (Session mp.Byte) (Unit {0})
  refuse (Objects.element id (Objects.element method (Objects.element params Objects.no_objects))) =
      do
        msgid ← lift (cast mp (mp.as_uint32 id))
        respond_error msgid "endpoint is waiting for a router response"
  refuse _ = pure tt

  -- The loop of `request` past the send. Each round takes one message off the stream; the theorem
  -- `request_loop-ends` says how much fuel is enough.
  unfoldable pub request_loop : ℕ → ℕ → Method (Session mp.Byte) Value
  unfolding receive_message
  request_loop zero request_msgid s = (out_of_fuel, s)
  request_loop (suc fuel) request_msgid s =
      let again = request_loop fuel request_msgid in
      (do
        response ← receive_message
        (type, fields) ← lift (frame response)
        actual_type ← lift (cast mp (mp.as_int type))
        if is_number notification_type actual_type
            then again
            else if is_number request_type actual_type
            then refuse fields >> again
            else lift (read_reply mp request_msgid actual_type fields))
        s

  unfoldable pub request : ℕ → String → Values → Method (Session mp.Byte) Value
  unfolding send
  request fuel method args s =
      let sent =
        (do send (request_bytes mp s.next_msgid method args); request_loop fuel s.next_msgid)
          (record s { endpoint = record s.endpoint { next_msgid = next_id s.next_msgid } }) in
      if not (is_open s.socket_fd)
      then (throw (runtime_error "Socket is not open"), s)
      else if is_empty method
      then (throw (invalid_argument "RPC method name is empty"), s)
      else sent

  unfoldable pub register_method : ℕ → String → Method (Session mp.Byte) (Unit {0})
  register_method fuel method =
      if is_empty method then raise (invalid_argument "RPC method name is empty") else do
        request fuel "$/register" (Values.value (Value.string method) Values.no_values)
        pure tt

  unfoldable pub reset_methods : ℕ → Method (Session mp.Byte) (Unit {0})
  reset_methods fuel s =
      let reset = (do request fuel "$/reset" Values.no_values; pure tt) s in
      if is_open s.socket_fd then reset else (ok tt, s)
