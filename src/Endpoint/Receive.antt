-- ===== src/Endpoint/Receive.antt =====
-- `Endpoint::receive` on a stream of frames: what a client or the router sends is what is received.
use arduino_q_plugin.Common.{ℕ, String, ◌≡◌, refl, ap, ◌∙◌, true, List, ◌++◌, arith}
use arduino_q_plugin.Common.Int.{ℤ}
use arduino_q_plugin.Common.Result.{ok}
use arduino_q_plugin.Msgpack.{Object, Objects, Msgpack, WireLaws, CastLaws, IsWire}
use arduino_q_plugin.Value.{Values, AreValid, Message, MessageType}
use arduino_q_plugin.Value.Wire.Laws.{
  to_objects, size-to_objects, to_objects-AreWire, object_to_values-to_objects,
}
use arduino_q_plugin.Socket.Receive.{incoming, receive_stream-reassembles}
use arduino_q_plugin.Frames.{read_message, request_bytes, frame}
use arduino_q_plugin.Frames.Laws.{request_object, request_object-IsWire, request_bytes-encode, Fits}
use arduino_q_plugin.Client.{is_open}
use arduino_q_plugin.Endpoint.{Session, receive, receive_message}

-- The bytes that an endpoint holds and those that are to come.
abbrev pub ahead : {Byte : Type 0} → Session Byte → List Byte
ahead s = s.stream ++ incoming s.world.recvs

abbrev pub notification_object : String → Values → Object
notification_object method args = Object.array (
    Objects.element (Object.positive_integer 2) (
      Objects.element (Object.str method)
        (Objects.element (Object.array (to_objects args)) Objects.no_objects)))

pub notification_object-IsWire :
    (method : String) (args : Values)
    → Fits 0 method args
    → IsWire (notification_object method args)
unfolding IsWire
notification_object-IsWire method args (_, name, count, valid) = (
  omega arith,
  (omega arith, (name, ((omega (arith, size-to_objects args), to_objects-AreWire args valid), tt))),
)

module _ (mp : Msgpack) (casts : CastLaws mp) (show_int : ℤ → String) where
  open casts use {as_int_pos, as_uint32_pos, as_string_str}

  -- A request is read as a message that expects a response, with its number, method and arguments.
  pub read_message-request :
      (msgid : ℕ) (method : String) (args : Values)
      → Fits msgid method args
      → read_message mp show_int (request_object msgid method args)
        ≡ ok (record { type = MessageType.request; msgid = msgid; method = method; args = args })
  unfolding read_message frame
  read_message-request msgid method args (id, name, count, valid) = rw (
    as_int_pos 0 (omega arith),
    as_uint32_pos msgid id,
    as_string_str method,
    object_to_values-to_objects mp args valid,
  )

  pub read_message-notification :
      (method : String) (args : Values)
      → AreValid args
      → read_message mp show_int (notification_object method args)
        ≡ ok (record { type = MessageType.notification; msgid = 0; method = method; args = args })
  unfolding read_message frame
  read_message-notification method args valid =
      rw (
        as_int_pos 2 (omega arith),
        as_string_str method,
        object_to_values-to_objects mp args valid,
      )

module _ (mp : Msgpack) (laws : WireLaws mp) (s : Session mp.Byte) where
  -- One message off the stream: the descriptor, the counter and what was sent stay.
  pub receive_message-ahead :
      (o : Object) (extra : List mp.Byte)
      → IsWire o
      → ahead s ≡ mp.encode o ++ extra
      → (s' : Session mp.Byte) × (receive_message mp s ≡ (ok o, s'))
        × (ahead s' ≡ extra)
        × (s'.socket_fd ≡ s.socket_fd)
        × (s'.world.sent ≡ s.world.sent)
  unfolding receive_message
  receive_message-ahead o extra wire h =
      let (b, rs, e, rest) =
        receive_stream-reassembles mp laws o wire extra s.stream s.world.recvs h in
      (
        record {
          endpoint = record s.endpoint { stream = b };
          world = record s.world { recvs = rs };
        },
        rw e,
        rest,
        refl,
        refl,
      )

  module _ (casts : CastLaws mp) (show_int : ℤ → String)
      (open_socket : is_open s.socket_fd ≡ true) where
    -- A message off the stream, and what stays.
    pub receive-ahead :
        (o : Object) (m : Message) (extra : List mp.Byte)
        → IsWire o
        → read_message mp show_int o ≡ ok m
        → ahead s ≡ mp.encode o ++ extra
        → (s' : Session mp.Byte) × (receive mp show_int s ≡ (ok m, s'))
          × (ahead s' ≡ extra)
          × (s'.socket_fd ≡ s.socket_fd)
          × (s'.world.sent ≡ s.world.sent)
    unfolding receive
    receive-ahead o m extra wire reads h =
        let (s', e, rest, fd, sent) = receive_message-ahead o extra wire h in
        (s', rw (open_socket, e, reads), rest, fd, sent)

    -- What `receive` returns, and what is ahead then.
    received :
        (o : Object) (m : Message) (extra : List mp.Byte)
        → IsWire o
        → read_message mp show_int o ≡ ok m
        → ahead s ≡ mp.encode o ++ extra
        → ((receive mp show_int s).0 ≡ ok m) × (ahead (receive mp show_int s).1 ≡ extra)
    received o m extra wire reads h =
        let (s', e, rest, _, _) = receive-ahead o m extra wire reads h in rw e (refl, rest)

    -- On an open endpoint, the bytes that `Client::call` sends for arguments that a frame can
    -- carry are received as the request that they stand for, with the same number, method and
    -- arguments, and exactly those bytes are taken off the stream.
    pub receive-request_bytes :
        (msgid : ℕ) (method : String) (args : Values) (extra : List mp.Byte)
        → Fits msgid method args
        → ahead s ≡ request_bytes mp msgid method args ++ extra
        → ((receive mp show_int s).0
            ≡ ok (record {
              type = MessageType.request;
              msgid = msgid;
              method = method;
              args = args;
            }))
          × (ahead (receive mp show_int s).1 ≡ extra)
    receive-request_bytes msgid method args extra fits h =
        received (request_object msgid method args) _ extra
          (request_object-IsWire msgid method args fits)
          (read_message-request mp casts show_int msgid method args fits)
          (h ∙ ap (λ b. b ++ extra) (request_bytes-encode mp laws msgid method args fits))

    -- On an open endpoint, a notification in the stream is received as a message that expects no
    -- response.
    pub receive-notification :
        (method : String) (args : Values) (extra : List mp.Byte)
        → Fits 0 method args
        → ahead s ≡ mp.encode (notification_object method args) ++ extra
        → ((receive mp show_int s).0
            ≡ ok (record {
              type = MessageType.notification;
              msgid = 0;
              method = method;
              args = args;
            }))
          × (ahead (receive mp show_int s).1 ≡ extra)
    receive-notification method args extra fits h =
        received (notification_object method args) _ extra
          (notification_object-IsWire method args fits)
          (read_message-notification mp casts show_int method args fits.3) h
