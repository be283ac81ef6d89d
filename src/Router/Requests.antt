-- ===== src/Router/Requests.antt =====
-- dummy.cpp: the handlers of requests and notifications. `insufficient` is what msgpack::unpack
-- throws for bytes that end too early; the other parameters are those of Echo.antt.
use arduino_q_plugin.Common.{
  ℕ, String, Bool, true, false, Option, none, some, List, ◌++◌, if◌then◌else◌, ◌<>◌,
}
use arduino_q_plugin.Common.Int.{ℤ, pos, negsuc}
use arduino_q_plugin.Common.Result.{Result, ok, throw, out_of_fuel, Exception, what}
use arduino_q_plugin.Common.State.{Method, pure, lift, ◌>>=◌, ◌>>◌}
use arduino_q_plugin.Msgpack.{
  Object, Objects, Msgpack, Decoded, incomplete, message, malformed, cast,
}
use arduino_q_plugin.Router.{register_method, reset_methods, lookup_method, notification_buffer}
use arduino_q_plugin.Router.Echo.{add_request, format_echo_result}
use arduino_q_plugin.Router.Writes.{Hub, send_buffer}
use text.Mathlib.Text.{◌==◌ as text_eq}

abbrev pub performed : {A S : Type 0} → A × S → Result A × S
performed (a, s) = (ok a, s)

module _ (mp : Msgpack) (show_int : ℤ → String) (show_double : ℕ → String)
    (insufficient undefined : Exception) where
  -- The frame of `send_response`.
  unfoldable pub response_frame : ℕ → Option String → Object → List mp.Byte
  response_frame id error result =
      mp.pack_array 4
      ++ (mp.pack_int (pos 1)
          ++ (mp.pack_int (pos id)
              ++ (elim error [ none ↦ mp.pack_nil | some text ↦ mp.pack_str text ]
                  ++ mp.encode result)))

  unfoldable pub send_response : ℕ → ℕ → Option String → Object → Hub mp.Byte → Bool × Hub mp.Byte
  send_response fd id error result = send_buffer fd (response_frame id error result)

  unfoldable pub send_error_response : ℕ → ℕ → String → Hub mp.Byte → Bool × Hub mp.Byte
  unfolding send_response
  send_error_response fd id error = send_response fd id (some error) Object.nil

  unfoldable pub unpacked : Decoded mp.Byte → Result Object
  unpacked (message o rest) = ok o
  unpacked incomplete = throw insufficient
  unpacked (malformed e) = throw e

  -- `send_packed_result`: the result's bytes are unpacked again.
  unfoldable pub send_packed_result : ℕ → ℕ → List mp.Byte → Method (Hub mp.Byte) Bool
  unfolding unpacked send_response
  send_packed_result fd id result_buf = do
    o ← lift (unpacked (mp.decode result_buf))
    λ h. performed (send_response fd id none o h)

  unfoldable pub send_to : ℤ → Option (List mp.Byte) → Hub mp.Byte → Bool × Hub mp.Byte
  send_to (pos fd) (some buffer) h = send_buffer fd buffer h
  send_to (pos fd) none h = (false, h)
  send_to (negsuc n) buffer h = (false, h)

  -- `route_notification` with the send, which returns whether it was routed.
  unfoldable pub route : String → Object → ℕ → Hub mp.Byte → Bool × Hub mp.Byte
  unfolding send_to
  route method params first_param h =
      send_to (lookup_method method h.entries) (notification_buffer mp method params first_param) h

  unfoldable pub register_request : ℕ → ℕ → Object → Method (Hub mp.Byte) Bool
  unfolding send_packed_result send_error_response
  register_request fd id (Object.array (Objects.element (Object.str method) Objects.no_objects)) =
      λ h.
        send_packed_result fd id (mp.pack_bool true)
          (record h { entries = register_method fd method h.entries })
  register_request fd id _ =
      λ h. performed (send_error_response fd id "$/register expects one method name" h)

  -- Whether the request was one for the router, as the caller takes the result.
  unfoldable pub handle_router_request : ℕ → ℕ → String → Object → Method (Hub mp.Byte) Bool
  unfolding register_request send_packed_result
  handle_router_request fd id method params h =
      if text_eq method "$/register"
      then register_request fd id params h
      else if text_eq method "$/reset"
      then send_packed_result fd id (mp.pack_bool true)
          (record h { entries = reset_methods fd h.entries })
      else (ok false, h)

  unfoldable pub emit_request : ℕ → ℕ → Object → Method (Hub mp.Byte) Bool
  unfolding route send_packed_result send_error_response
  emit_request fd id (Object.array (Objects.element (Object.str method) rest)) = λ h.
      let (routed, h') =
        route method (Object.array (Objects.element (Object.str method) rest)) 1 h in
      send_packed_result fd id (mp.pack_bool routed) h'
  emit_request fd id _ = λ h.
      performed
        (send_error_response fd id "emit_notify expects a method name and optional arguments" h)

  unfoldable pub echo_request : ℕ → ℕ → Result String → Method (Hub mp.Byte) Bool
  unfolding send_packed_result send_error_response
  echo_request fd id (ok text) = send_packed_result fd id (mp.pack_str text)
  echo_request fd id (throw e) = λ h. performed (send_error_response fd id (what e) h)
  echo_request fd id out_of_fuel = λ h. (out_of_fuel, h)

  -- 1.1, 2.2 and 3.3, by the digits of a `double`.
  abbrev pub array_result : List mp.Byte
  array_result =
      mp.pack_array 3
      ++ (mp.pack_double 0x3FF199999999999A
          ++ (mp.pack_double 0x400199999999999A ++ mp.pack_double 0x400A666666666666))

  unfoldable pub handle_builtin_request : ℕ → ℕ → String → Object → Method (Hub mp.Byte) Bool
  unfolding send_packed_result send_error_response add_request emit_request echo_request
      format_echo_result
  handle_builtin_request fd id method params h =
      if text_eq method "ping"
      then send_packed_result fd id (mp.pack_str "pong") h
      else if text_eq method "add"
      then (do bytes ← lift (add_request mp undefined params); send_packed_result fd id bytes) h
      else if text_eq method "echo"
      then echo_request fd id (format_echo_result show_int show_double params) h
      else if text_eq method "array"
      then send_packed_result fd id array_result h
      else if text_eq method "emit_notify"
      then emit_request fd id params h
      else performed (send_error_response fd id ("method not available: " <> method) h)

  -- A frame of four parts; another is dropped.
  unfoldable pub handle_request : ℕ → Object → Method (Hub mp.Byte) (Unit {0})
  unfolding handle_router_request handle_builtin_request
  handle_request fd
        (Object.array (
          Objects.element type (
            Objects.element id
              (Objects.element name (Objects.element params Objects.no_objects))))) =
      do
        msgid ← lift (cast mp (mp.as_uint32 id))
        method ← lift (cast mp (mp.as_string name))
        handled ← handle_router_request fd msgid method params
        if handled then pure tt else handle_builtin_request fd msgid method params >> pure tt
  handle_request fd _ = pure tt

  unfoldable pub handle_notification : Object → Method (Hub mp.Byte) (Unit {0})
  unfolding route
  handle_notification
        (Object.array (
          Objects.element type
            (Objects.element name (Objects.element params Objects.no_objects)))) =
      do method ← lift (cast mp (mp.as_string name)); λ h. (ok tt, (route method params 0 h).1)
  handle_notification _ = pure tt
