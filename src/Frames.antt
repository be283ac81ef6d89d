-- ===== src/Frames.antt =====
-- rpc.cpp: the MessagePack-RPC frames that a client and an endpoint send and read. A request is
-- [0, msgid, method, args], a response [1, msgid, error, result], a notification [2, method, args].
pub mod Laws
pub mod Returns
use arduino_q_plugin.Common.{
  ℕ, ◌+◌, ◌%◌, ◌^◌, String, ◌≡◌, Bool, true, false, not, ◌&&◌, Option, none, some, List, ◌++◌,
  is_empty, ◌==◌, if◌then◌else◌, ◌<>◌,
}
use arduino_q_plugin.Common.Int.{ℤ, pos, negsuc}
use arduino_q_plugin.Common.Result.{Result, ok, throw, runtime_error, ◌>>=◌}
use arduino_q_plugin.Msgpack.{Object, Objects, Msgpack, cast}
use arduino_q_plugin.Value.{Value, Values, Message, MessageType}
use arduino_q_plugin.Value.Wire.{
  pack_value, pack_array, object_to_value, object_to_values, object_to_debug_string,
}

abbrev pub request_type : ℕ
request_type = 0

abbrev pub response_type : ℕ
response_type = 1

abbrev pub notification_type : ℕ
notification_type = 2

abbrev pub is_number : ℕ → ℤ → Bool
is_number k (pos n) = n == k
is_number k (negsuc n) = false

abbrev pub is_nil : Object → Bool
is_nil Object.nil = true
is_nil _ = false

-- A `uint32_t` counter wraps.
abbrev pub next_id : ℕ → ℕ
next_id n = (n + 1) % 2 ^ 32

-- The first part of a frame, which is its type, and the others.
unfoldable pub frame : Object → Result (Object × Objects)
frame (Object.array (Objects.element type fields)) = ok (type, fields)
frame _ = throw (runtime_error "Invalid RPC message format")

module _ (mp : Msgpack) where
  -- The buffer that `Client::call` and `Endpoint::request` fill.
  unfoldable pub request_bytes : ℕ → String → Values → List mp.Byte
  request_bytes msgid method args =
      mp.pack_array 4
      ++ (mp.pack_int (pos request_type)
          ++ (mp.pack_int (pos msgid) ++ (mp.pack_str method ++ pack_array mp args)))

  -- The buffer of `send_response`: an empty error is sent as nil, and so is a missing result.
  unfoldable pub response_bytes : ℕ → Option Value → String → List mp.Byte
  response_bytes msgid result error =
      mp.pack_array 4
      ++ (mp.pack_int (pos response_type)
          ++ (mp.pack_int (pos msgid)
              ++ ((if is_empty error then mp.pack_nil else mp.pack_str error)
                  ++ elim result [ none ↦ mp.pack_nil | some v ↦ pack_value mp v ])))

  -- The end of `Client::call` and of `Endpoint::request`: a response of the right type and length.
  unfoldable pub read_result : Object → Object → Result Value
  read_result error result =
      if is_nil error
      then object_to_value mp result
      else throw (runtime_error ("RPC error: " <> object_to_debug_string mp error))

  -- The end of the loop of `Endpoint::request`, for a frame that is neither notification nor request.
  unfoldable pub read_reply : ℕ → ℤ → Objects → Result Value
  unfolding read_result
  read_reply request_msgid actual_type
        (Objects.element id (Objects.element error (Objects.element result Objects.no_objects))) =
      if not (is_number response_type actual_type)
      then throw (runtime_error "Invalid RPC response format")
      else (do
        response_msgid ← cast mp (mp.as_uint32 id)
        if response_msgid == request_msgid
            then read_result error result
            else throw (runtime_error "RPC response does not match request"))
  read_reply request_msgid actual_type _ = throw (runtime_error "Invalid RPC response format")

  -- The messages that `Endpoint::receive` returns, from the parts after the type.
  read_notification : Objects → Result Message
  read_notification (Objects.element method (Objects.element params Objects.no_objects)) = do
    m ← cast mp (mp.as_string method)
    args ← object_to_values mp params
    ok (record { type = MessageType.notification; msgid = 0; method = m; args = args })
  read_notification _ = throw (runtime_error "Invalid RPC notification format")

  read_request : Objects → Result Message
  read_request
        (Objects.element id (Objects.element method (Objects.element params Objects.no_objects))) =
      do
        msgid ← cast mp (mp.as_uint32 id)
        m ← cast mp (mp.as_string method)
        args ← object_to_values mp params
        ok (record { type = MessageType.request; msgid = msgid; method = m; args = args })
  read_request _ = throw (runtime_error "Invalid RPC request format")

  unfoldable pub read_message : (ℤ → String) → Object → Result Message
  unfolding read_notification read_request
  read_message show_int handle = do
    (type, fields) ← frame handle
    actual_type ← cast mp (mp.as_int type)
    if is_number notification_type actual_type
        then read_notification fields
        else if is_number request_type actual_type
        then read_request fields
        else throw
            (runtime_error ("Unsupported inbound RPC message type: " <> show_int actual_type))

  -- What `Client::call` makes of the message that it receives.
  unfoldable pub read_response : ℕ → Object → Result Value
  unfolding read_result
  read_response request_msgid
        (Object.array (
          Objects.element type (
            Objects.element id
              (Objects.element error (Objects.element result Objects.no_objects))))) =
      do
        actual_response_type ← cast mp (mp.as_int type)
        response_msgid ← cast mp (mp.as_uint32 id)
        if is_number response_type actual_response_type && response_msgid == request_msgid
            then read_result error result
            else throw (runtime_error "RPC response does not match request")
  read_response request_msgid _ = throw (runtime_error "Invalid RPC response format")
