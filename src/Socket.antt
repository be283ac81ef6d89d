-- ===== src/Socket.antt =====
-- rpc.cpp: `validate_socket_path`, `set_socket_timeouts`, `close_fd`, `send_all` and both forms of
-- `receive_message`, over what the kernel answers to each call.
-- The answers to `send` and `recv` are two scripts, consumed from the front. A socket has its
-- timeouts set before it is used, so past the end of a script a call times out (EAGAIN). The text of
-- `strerror(errno)` comes with a failure.
pub mod SendAll
pub mod Receive
use Prim.Native.String.{len}
use arduino_q_plugin.Common.{
  ℕ, zero, suc, ◌+◌, String, Option, none, some, List, [], ◌∷◌, ◌++◌, length, take, drop, ltb, leb,
  is_empty, if◌then◌else◌, ◌<>◌,
}
use arduino_q_plugin.Common.Int.{ℤ, pos, negsuc}
use arduino_q_plugin.Common.Result.{Result, ok, throw, invalid_argument, runtime_error, ◌>>=◌}
use arduino_q_plugin.Common.State.{Method}
use arduino_q_plugin.Msgpack.{Object, Msgpack, incomplete, message, malformed}

-- `accepted n`: `send` returns n. `interrupted` is EINTR, `again` EAGAIN, `failed` any other error.
pub data Send : Type 0 where
  accepted : ℕ → Send
  interrupted again : Send
  failed : String → Send

-- `bytes`: `recv` returns that many; `hangup`: it returns 0.
pub data Recv (Byte : Type 0) : Type 0 where
  bytes : List Byte → Recv Byte
  hangup interrupted again : Recv Byte
  failed : String → Recv Byte

-- `sent` is all that the kernel has accepted on the open socket and `closed` the descriptors that
-- were shut down and closed, in order.
pub record World (Byte : Type 0) : Type 0 where
  pub sends : List Send
  pub recvs : List (Recv Byte)
  pub sent : List Byte
  pub closed : List ℕ

-- `::socket` gives a descriptor, or an error.
pub data Socket : Type 0 where
  made : ℕ → Socket
  refused : String → Socket

-- What the kernel answers while a socket is made and connected: `::socket`, the two `setsockopt`
-- calls and `::connect`, each with the text of its error.
pub record Attempt : Type 0 where
  pub socket : Socket
  pub rcvtimeo : Option String
  pub sndtimeo : Option String
  pub connect : Option String

unfoldable pub errno_message : String → String → String
errno_message context error = context <> (": " <> error)

-- `sun_path_size` is sizeof(sockaddr_un::sun_path), which the platform fixes.
unfoldable pub validate_socket_path : ℕ → String → Result (Unit {0})
validate_socket_path sun_path_size path =
    if is_empty path
    then throw (invalid_argument "socket path is empty")
    else if leb sun_path_size (len path)
    then throw (invalid_argument ("socket path is too long: " <> path))
    else ok tt

sys_call : String → Option String → Result (Unit {0}) → Result (Unit {0})
unfolding errno_message
sys_call context none next = next
sys_call context (some error) next = throw (runtime_error (errno_message context error))

-- Linux has no SO_NOSIGPIPE, so the third call is not compiled.
unfoldable pub set_socket_timeouts : Attempt → Result (Unit {0})
unfolding sys_call
set_socket_timeouts a =
    sys_call "setsockopt SO_RCVTIMEO failed" a.rcvtimeo
      (sys_call "setsockopt SO_SNDTIMEO failed" a.sndtimeo (ok tt))

connected : Option String → Result (Unit {0})
unfolding errno_message
connected none = ok tt
connected (some error) = throw (runtime_error (errno_message "Error connecting to socket" error))

-- The `try` block of `Client::connect` and of `Endpoint::connect`, on the new socket.
unfoldable pub set_up : Attempt → Result (Unit {0})
unfolding connected set_socket_timeouts
set_up a = set_socket_timeouts a >>= λ _. connected a.connect

-- The descriptor after `close_fd`, and the world.
unfoldable pub close_fd : {Byte : Type 0} → ℤ → World Byte → ℤ × World Byte
close_fd (pos fd) w = (negsuc 0, record w { closed = w.closed ++ fd ∷ [] })
close_fd (negsuc n) w = (negsuc n, w)

module _ {Byte : Type 0} where
  -- The loop of `send_all` once `done` bytes are sent: its outcome, the answers left, and `sent`.
  unfoldable pub send_loop :
      List Byte → ℕ → List Send → List Byte → Result (Unit {0}) × List Send × List Byte
  unfolding errno_message
  send_loop payload done [] sent =
      if ltb done (length payload)
      then (throw (runtime_error "Timed out while sending RPC request"), [], sent)
      else (ok tt, [], sent)
  send_loop payload done (Send.accepted zero ∷ rs) sent =
      if ltb done (length payload)
      then (throw (runtime_error "Socket closed while sending RPC request"), rs, sent)
      else (ok tt, Send.accepted zero ∷ rs, sent)
  send_loop payload done (Send.accepted (suc n) ∷ rs) sent =
      let rest = send_loop payload (done + suc n) rs (sent ++ take (suc n) (drop done payload)) in
      if ltb done (length payload) then rest else (ok tt, Send.accepted (suc n) ∷ rs, sent)
  send_loop payload done (Send.interrupted ∷ rs) sent =
      let rest = send_loop payload done rs sent in
      if ltb done (length payload) then rest else (ok tt, Send.interrupted ∷ rs, sent)
  send_loop payload done (Send.again ∷ rs) sent =
      if ltb done (length payload)
      then (throw (runtime_error "Timed out while sending RPC request"), rs, sent)
      else (ok tt, Send.again ∷ rs, sent)
  send_loop payload done (Send.failed error ∷ rs) sent =
      if ltb done (length payload)
      then (throw (runtime_error (errno_message "Error sending RPC request" error)), rs, sent)
      else (ok tt, Send.failed error ∷ rs, sent)

  unfoldable pub send_all : List Byte → Method (World Byte) (Unit {0})
  unfolding send_loop
  send_all payload w =
      let (r, rs, sent) = send_loop payload 0 w.sends w.sent in
      (r, record w { sends = rs; sent = sent })

module _ (mp : Msgpack) where
  -- `receive_message(fd)`: the unpacker is fresh, and what it holds past the message is dropped
  -- with it. `buffer` is what it has been fed.
  unfoldable pub receive_fresh :
      List mp.Byte → List (Recv mp.Byte) → Result Object × List (Recv mp.Byte)
  unfolding errno_message
  receive_fresh buffer [] = (throw (runtime_error "Timed out waiting for RPC response"), [])
  receive_fresh buffer (Recv.bytes c ∷ rs) = elim (mp.decode (buffer ++ c)) [
    | incomplete ↦ receive_fresh (buffer ++ c) rs
    | message o _ ↦ (ok o, rs)
    | malformed e ↦ (throw e, rs)
  ]
  receive_fresh buffer (Recv.hangup ∷ rs) =
      (throw (runtime_error "Connection closed before RPC response"), rs)
  receive_fresh buffer (Recv.interrupted ∷ rs) = receive_fresh buffer rs
  receive_fresh buffer (Recv.again ∷ rs) =
      (throw (runtime_error "Timed out waiting for RPC response"), rs)
  receive_fresh buffer (Recv.failed error ∷ rs) =
      (throw (runtime_error (errno_message "Error receiving RPC response" error)), rs)

  -- `receive_message(fd, unp)`: the unpacker is asked first, and keeps what it holds past the
  -- message, as the first component of the state that is returned.
  unfoldable pub receive_stream :
      List mp.Byte → List (Recv mp.Byte) → Result Object × List mp.Byte × List (Recv mp.Byte)
  unfolding errno_message
  receive_stream buffer [] = elim (mp.decode buffer) [
    | incomplete ↦ (throw (runtime_error "Timed out waiting for RPC message"), buffer, [])
    | message o rest ↦ (ok o, rest, [])
    | malformed e ↦ (throw e, buffer, [])
  ]
  receive_stream buffer (Recv.bytes c ∷ rs) = elim (mp.decode buffer) [
    | incomplete ↦ receive_stream (buffer ++ c) rs
    | message o rest ↦ (ok o, rest, Recv.bytes c ∷ rs)
    | malformed e ↦ (throw e, buffer, Recv.bytes c ∷ rs)
  ]
  receive_stream buffer (Recv.hangup ∷ rs) = elim (mp.decode buffer) [
    | incomplete ↦ (throw (runtime_error "Connection closed before RPC message"), buffer, rs)
    | message o rest ↦ (ok o, rest, Recv.hangup ∷ rs)
    | malformed e ↦ (throw e, buffer, Recv.hangup ∷ rs)
  ]
  receive_stream buffer (Recv.interrupted ∷ rs) = elim (mp.decode buffer) [
    | incomplete ↦ receive_stream buffer rs
    | message o rest ↦ (ok o, rest, Recv.interrupted ∷ rs)
    | malformed e ↦ (throw e, buffer, Recv.interrupted ∷ rs)
  ]
  receive_stream buffer (Recv.again ∷ rs) = elim (mp.decode buffer) [
    | incomplete ↦ (throw (runtime_error "Timed out waiting for RPC message"), buffer, rs)
    | message o rest ↦ (ok o, rest, Recv.again ∷ rs)
    | malformed e ↦ (throw e, buffer, Recv.again ∷ rs)
  ]
  receive_stream buffer (Recv.failed error ∷ rs) = elim (mp.decode buffer) [
    | incomplete ↦
        (throw (runtime_error (errno_message "Error receiving RPC message" error)), buffer, rs)
    | message o rest ↦ (ok o, rest, Recv.failed error ∷ rs)
    | malformed e ↦ (throw e, buffer, Recv.failed error ∷ rs)
  ]
