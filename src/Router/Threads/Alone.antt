-- ===== src/Router/Threads/Alone.antt =====
-- A handler's task, run with no other thread between its steps, is the handler.
use arduino_q_plugin.Common.{ℕ, String, ◌≡◌, refl, true, Option, none, some, List}
use arduino_q_plugin.Common.Int.{ℤ, pos, negsuc}
use arduino_q_plugin.Common.Result.{Result, ok, throw, out_of_fuel, Exception}
use arduino_q_plugin.Common.State.{lift}
use arduino_q_plugin.Msgpack.{Object, Objects, Msgpack, cast}
use arduino_q_plugin.Frames.{is_number}
use arduino_q_plugin.Router.{reset_methods}
use arduino_q_plugin.Router.Echo.{add_request, format_echo_result}
use arduino_q_plugin.Router.Requests.{
  send_response, send_error_response, send_packed_result, unpacked, send_to, route,
  register_request, performed, handle_router_request, emit_request, echo_request,
  handle_builtin_request, handle_request, handle_notification,
}
use arduino_q_plugin.Router.Clients.{handle_message}
use arduino_q_plugin.Router.Threads.{Task, run}
use arduino_q_plugin.Router.Threads.Handlers.{
  response_task, error_task, packed_task, register_task, router_task, send_to_task, route_task,
  emit_task, echo_task, builtin_task, request_task, notification_task, message_task,
}
use arduino_q_plugin.Router.Writes.{Hub}
use text.Mathlib.Text.{◌==◌ as text_eq}
use arduino_q_plugin.Router.Threads.Does.{Does, bind-Does, if-Does, either, finish-Does}

module _ (mp : Msgpack) (show_int : ℤ → String) (show_double : ℕ → String)
    (insufficient undefined : Exception) where
  response-Does :
      (fd id : ℕ) (error : Option String) (result : Object)
      → Does fd
          (response_task mp show_int show_double insufficient undefined fd id error result)
          (λ h.
            performed
              (send_response mp show_int show_double insufficient undefined fd id error result h))
  unfolding run response_task send_response
  response-Does fd id error result h = refl

  error-Does :
      (fd id : ℕ) (error : String)
      → Does fd (error_task mp show_int show_double insufficient undefined fd id error) (λ h.
        performed
          (send_error_response mp show_int show_double insufficient undefined fd id error h))
  unfolding error_task send_error_response
  error-Does fd id error = response-Does fd id (some error) Object.nil

  packed-Does :
      (fd id : ℕ) (bytes : List mp.Byte)
      → Does fd
          (packed_task mp show_int show_double insufficient undefined fd id bytes)
          (send_packed_result mp show_int show_double insufficient undefined fd id bytes)
  unfolding packed_task send_packed_result
  packed-Does fd id bytes =
      bind-Does fd _
        (lift (unpacked mp show_int show_double insufficient undefined (mp.decode bytes))) _ _
        (finish-Does fd _) (response-Does fd id none)

  register-Does :
      (fd id : ℕ) (params : Object)
      → Does fd
          (register_task mp show_int show_double insufficient undefined fd id params)
          (register_request mp show_int show_double insufficient undefined fd id params)
  unfolding register_task register_request run
  register-Does fd id (Object.array (Objects.element (Object.str method) Objects.no_objects)) h =
      packed-Does fd id _ _
  register-Does fd id _ h = error-Does fd id _ h

  reset-Does :
      (fd id : ℕ) (h : Hub mp.Byte)
      → run fd
          (Task.reset
            (packed_task mp show_int show_double insufficient undefined fd id (mp.pack_bool true)))
          h
        ≡ send_packed_result mp show_int show_double insufficient undefined fd id
            (mp.pack_bool true)
            (record h { entries = reset_methods fd h.entries })
  unfolding run
  reset-Does fd id h = packed-Does fd id _ _

  router-Does :
      (fd id : ℕ) (method : String) (params : Object)
      → Does fd
          (router_task mp show_int show_double insufficient undefined fd id method params)
          (handle_router_request mp show_int show_double insufficient undefined fd id method params)
  unfolding router_task handle_router_request
  router-Does fd id method params =
      if-Does fd (text_eq method "$/register") _ _ _ _ (register-Does fd id params)
        (if-Does fd (text_eq method "$/reset") _ _ _ _ (reset-Does fd id) (finish-Does fd _))

  send_to-Does :
      (fd : ℕ) (owner : ℤ) (buffer : Option (List mp.Byte))
      → Does fd
          (send_to_task mp show_int show_double insufficient undefined owner buffer)
          (λ h. performed (send_to mp show_int show_double insufficient undefined owner buffer h))
  unfolding send_to_task send_to run
  send_to-Does fd (pos to) (some buffer) h = refl
  send_to-Does fd (pos to) none h = refl
  send_to-Does fd (negsuc n) buffer h = refl

  route-Does :
      (fd : ℕ) (method : String) (params : Object) (first_param : ℕ)
      → Does fd
          (route_task mp show_int show_double insufficient undefined method params first_param)
          (λ h.
            performed
              (route mp show_int show_double insufficient undefined method params first_param h))
  unfolding route_task route run
  route-Does fd method params first_param h = send_to-Does fd _ _ h

  emit-Does :
      (fd id : ℕ) (params : Object)
      → Does fd
          (emit_task mp show_int show_double insufficient undefined fd id params)
          (emit_request mp show_int show_double insufficient undefined fd id params)
  unfolding emit_task emit_request
  emit-Does fd id (Object.array (Objects.element (Object.str method) rest)) =
      bind-Does fd _ _ _ _
        (route-Does fd method (Object.array (Objects.element (Object.str method) rest)) 1)
        (λ routed. packed-Does fd id (mp.pack_bool routed))
  emit-Does fd id _ = error-Does fd id _

  echo-Does :
      (fd id : ℕ) (r : Result String)
      → Does fd
          (echo_task mp show_int show_double insufficient undefined fd id r)
          (echo_request mp show_int show_double insufficient undefined fd id r)
  unfolding echo_task echo_request
  echo-Does fd id (ok text) = packed-Does fd id _
  echo-Does fd id (throw e) = error-Does fd id _
  echo-Does fd id out_of_fuel = finish-Does fd out_of_fuel

  builtin-Does :
      (fd id : ℕ) (method : String) (params : Object)
      → Does fd (builtin_task mp show_int show_double insufficient undefined fd id method params) (
          handle_builtin_request mp show_int show_double insufficient undefined fd id method params)
  unfolding builtin_task handle_builtin_request
  builtin-Does fd id method params =
      if-Does fd (text_eq method "ping") _ _ _ _ (packed-Does fd id _) (
        if-Does fd (text_eq method "add") _ _ _ _
          (bind-Does fd _ (lift (add_request mp undefined params)) _ _ (finish-Does fd _)
            (packed-Does fd id))
          (if-Does fd (text_eq method "echo") _ _ _ _
            (echo-Does fd id (format_echo_result show_int show_double params))
            (if-Does fd (text_eq method "array") _ _ _ _ (packed-Does fd id _) (
              if-Does fd (text_eq method "emit_notify") _ _ _ _ (emit-Does fd id params)
                (error-Does fd id _)))))

  request-Does :
      (fd : ℕ) (o : Object)
      → Does fd
          (request_task mp show_int show_double insufficient undefined fd o)
          (handle_request mp show_int show_double insufficient undefined fd o)
  unfolding request_task handle_request
  request-Does fd
        (Object.array (
          Objects.element type (
            Objects.element id
              (Objects.element name (Objects.element params Objects.no_objects))))) =
      bind-Does fd _ (lift (cast mp (mp.as_uint32 id))) _ _ (finish-Does fd _) (λ msgid.
        bind-Does fd _ (lift (cast mp (mp.as_string name))) _ _ (finish-Does fd _) (λ method.
          bind-Does fd _ _ _ _ (router-Does fd msgid method params) (λ handled.
            either fd handled _ _ _ _ (finish-Does fd (ok tt)) (
              bind-Does fd _ _ _ _ (builtin-Does fd msgid method params)
                (λ sent. finish-Does fd (ok tt))))))
  request-Does fd _ = finish-Does fd (ok tt)

  notification-Does :
      (fd : ℕ) (o : Object)
      → Does fd
          (notification_task mp show_int show_double insufficient undefined o)
          (handle_notification mp show_int show_double insufficient undefined o)
  unfolding notification_task handle_notification
  notification-Does fd
        (Object.array (
          Objects.element type
            (Objects.element name (Objects.element params Objects.no_objects)))) =
      bind-Does fd _ (lift (cast mp (mp.as_string name))) _ _ (finish-Does fd _) (λ method.
        bind-Does fd _ _ _ _ (route-Does fd method params 0) (λ routed. finish-Does fd (ok tt)))
  notification-Does fd _ = finish-Does fd (ok tt)

  -- The task of any message, run with no other thread between its steps, leaves the hub and the result
  -- of the handler.
  pub run-message_task :
      (fd : ℕ) (o : Object) (h : Hub mp.Byte)
      → run fd (message_task mp show_int show_double insufficient undefined fd o) h
        ≡ handle_message mp show_int show_double insufficient undefined fd o h
  unfolding message_task handle_message
  run-message_task fd (Object.array (Objects.element first rest)) =
      bind-Does fd _ (lift (cast mp (mp.as_int first))) _ _ (finish-Does fd _) (λ type.
        either fd (is_number 0 type) _ _ _ _
          (request-Does fd (Object.array (Objects.element first rest)))
          (either fd (is_number 2 type) _ _ _ _
            (notification-Does fd (Object.array (Objects.element first rest)))
            (finish-Does fd (ok tt))))
  run-message_task fd _ = finish-Does fd (ok tt)
