-- ===== src/Client.antt =====
-- rpc.cpp: `Client`. A method's state is the client with what the kernel answers; `sun_path_size` is
-- sizeof(sockaddr_un::sun_path), which the platform fixes.
pub mod Calls
pub mod Ends
mod Lifetime
pub mod Sockets
use arduino_q_plugin.Common.{
  ℕ, suc, String, Bool, true, false, not, Option, none, some, List, [], is_empty, if◌then◌else◌,
  ◌<>◌,
}
use arduino_q_plugin.Common.Int.{ℤ, pos, negsuc}
use arduino_q_plugin.Common.Result.{Result, ok, throw, out_of_fuel, invalid_argument, runtime_error}
use arduino_q_plugin.Common.State.{Method, pure, raise, lift, try_catch, ◌>>=◌, ◌>>◌}
use arduino_q_plugin.Json.{Json, JsonLib}
use arduino_q_plugin.Msgpack.{Object, Msgpack}
use arduino_q_plugin.Value.{Value, Values}
use arduino_q_plugin.Value.Json.{parse_json_call}
use arduino_q_plugin.Socket.{
  World, Attempt, Socket, made, refused, validate_socket_path, set_socket_timeouts, set_up,
  errno_message, close_fd, send_all, receive_fresh,
}
use arduino_q_plugin.Frames.{request_bytes, read_response, next_id}

pub record Client : Type 0 where
  pub socket_fd : ℤ
  pub next_msgid : ℕ

-- A client that was made by the default constructor.
abbrev pub unconnected : Client
unconnected = record { socket_fd = negsuc 0; next_msgid = 0 }

abbrev pub is_open : ℤ → Bool
is_open (pos fd) = true
is_open (negsuc n) = false

pub record Session (Byte : Type 0) : Type 0 where
  pub client : Client
  pub open client use *
  pub world : World Byte

-- The move constructor: the new client, and the one that is left.
unfoldable pub move : Client → Client × Client
move other = (
  record { socket_fd = other.socket_fd; next_msgid = other.next_msgid },
  record other { socket_fd = negsuc 0 },
)

module _ {Byte : Type 0} where
  abbrev with_fd : ℤ → Session Byte → Session Byte
  with_fd fd s = record s { client = record s.client { socket_fd = fd } }

  unfoldable pub close : Session Byte → Session Byte
  unfolding close_fd
  close s =
      let (fd, w) = close_fd s.socket_fd s.world in
      record { client = record s.client { socket_fd = fd }; world = w }

  -- `catch (...) { close(); throw; }`.
  close_on_throw : Result (Unit {0}) → Session Byte → Result (Unit {0}) × Session Byte
  unfolding close
  close_on_throw (ok u) s = (ok u, s)
  close_on_throw (throw e) s = (throw e, close s)
  close_on_throw out_of_fuel s = (out_of_fuel, s)

  opened : Attempt → Socket → Session Byte → Result (Unit {0}) × Session Byte
  unfolding errno_message close_on_throw
  opened a (made fd) s = close_on_throw (set_up a) (with_fd (pos fd) s)
  opened a (refused error) s =
      (throw (runtime_error (errno_message "Error creating socket" error)), with_fd (negsuc 0) s)

  unfoldable pub connect : ℕ → String → Attempt → Method (Session Byte) (Unit {0})
  unfolding opened close
  connect sun_path_size path a = do
    lift (validate_socket_path sun_path_size path)
    λ s. opened a a.socket (close s)

  unfoldable pub adopt_socket : ℤ → Attempt → Method (Session Byte) (Unit {0})
  unfolding close_on_throw close
  adopt_socket (negsuc n) a = raise (invalid_argument "Invalid socket file descriptor")
  adopt_socket (pos fd) a = λ s. close_on_throw (set_socket_timeouts a) (with_fd (pos fd) (close s))

  -- Move assignment from another client: the target's session, and the client that is left.
  unfoldable pub move_assign : Client → Session Byte → Session Byte × Client
  unfolding close move
  move_assign other s = (record (close s) { client = (move other).0 }, (move other).1)

  on_world : {A : Type 0} → Method (World Byte) A → Method (Session Byte) A
  on_world m s = let (r, w) = m s.world in (r, record s { world = w })

module _ (mp : Msgpack) where
  receive : Method (Session mp.Byte) Object
  receive s =
      let (r, rs) = receive_fresh mp [] s.world.recvs in
      (r, record s { world = record s.world { recvs = rs } })

  -- `call` past its guards.
  exchange : ℕ → String → Values → Method (Session mp.Byte) Value
  exchange request_msgid method args = do
    on_world (send_all (request_bytes mp request_msgid method args))
    response ← receive
    lift (read_response mp request_msgid response)

  unfoldable pub call : String → Values → Method (Session mp.Byte) Value
  unfolding exchange on_world receive
  call method args s =
      if not (is_open s.socket_fd)
      then (throw (runtime_error "Socket is not open"), s)
      else if is_empty method
      then (throw (invalid_argument "RPC method name is empty"), s)
      else exchange s.next_msgid method args
          (record s { client = record s.client { next_msgid = next_id s.next_msgid } })

  -- `call(json)`.
  unfoldable pub call_json : JsonLib → Json → Method (Session mp.Byte) Value
  call_json lib call_payload = do
    (method, args) ← lift (parse_json_call lib call_payload)
    call method args
