-- ===== src/Router/Threads/Handlers.antt =====
-- dummy.cpp: the handlers of requests and notifications as tasks.
use arduino_q_plugin.Common.{
  ℕ, String, Bool, true, false, Option, none, some, List, if◌then◌else◌, ◌<>◌,
}
use arduino_q_plugin.Common.Int.{ℤ, pos, negsuc}
use arduino_q_plugin.Common.Result.{Result, ok, throw, out_of_fuel, Exception, what}
use arduino_q_plugin.Msgpack.{Object, Objects, Msgpack, cast}
use arduino_q_plugin.Frames.{is_number}
use arduino_q_plugin.Router.{notification_buffer}
use arduino_q_plugin.Router.Echo.{add_request, format_echo_result}
use arduino_q_plugin.Router.Requests.{response_frame, unpacked, array_result}
use arduino_q_plugin.Router.Threads.{Task, bind}
use text.Mathlib.Text.{◌==◌ as text_eq}

abbrev pub returns : {Byte A : Type 0} → A → Task Byte A
returns a = Task.done (ok a)

module _ (mp : Msgpack) (show_int : ℤ → String) (show_double : ℕ → String)
    (insufficient undefined : Exception) where
  unfoldable pub response_task : ℕ → ℕ → Option String → Object → Task mp.Byte Bool
  response_task fd id error result =
      Task.send fd (response_frame mp show_int show_double insufficient undefined id error result)
        returns

  unfoldable pub error_task : ℕ → ℕ → String → Task mp.Byte Bool
  unfolding response_task
  error_task fd id error = response_task fd id (some error) Object.nil

  unfoldable pub packed_task : ℕ → ℕ → List mp.Byte → Task mp.Byte Bool
  unfolding response_task bind
  packed_task fd id result_buf =
      bind
        (Task.done (unpacked mp show_int show_double insufficient undefined (mp.decode result_buf)))
        (response_task fd id none)

  unfoldable pub register_task : ℕ → ℕ → Object → Task mp.Byte Bool
  unfolding packed_task error_task
  register_task fd id (Object.array (Objects.element (Object.str method) Objects.no_objects)) =
      Task.register method (packed_task fd id (mp.pack_bool true))
  register_task fd id _ = error_task fd id "$/register expects one method name"

  unfoldable pub router_task : ℕ → ℕ → String → Object → Task mp.Byte Bool
  unfolding register_task packed_task
  router_task fd id method params =
      if text_eq method "$/register"
      then register_task fd id params
      else if text_eq method "$/reset"
      then Task.reset (packed_task fd id (mp.pack_bool true))
      else returns false

  -- The notification goes to the descriptor that the lookup found.
  unfoldable pub send_to_task : ℤ → Option (List mp.Byte) → Task mp.Byte Bool
  send_to_task (pos fd) (some buffer) = Task.send fd buffer returns
  send_to_task (pos fd) none = returns false
  send_to_task (negsuc n) buffer = returns false

  unfoldable pub route_task : String → Object → ℕ → Task mp.Byte Bool
  unfolding send_to_task
  route_task method params first_param =
      Task.lookup method
        (λ owner. send_to_task owner (notification_buffer mp method params first_param))

  unfoldable pub emit_task : ℕ → ℕ → Object → Task mp.Byte Bool
  unfolding route_task packed_task error_task bind
  emit_task fd id (Object.array (Objects.element (Object.str method) rest)) =
      bind (route_task method (Object.array (Objects.element (Object.str method) rest)) 1)
        (λ routed. packed_task fd id (mp.pack_bool routed))
  emit_task fd id _ = error_task fd id "emit_notify expects a method name and optional arguments"

  unfoldable pub echo_task : ℕ → ℕ → Result String → Task mp.Byte Bool
  unfolding packed_task error_task
  echo_task fd id (ok text) = packed_task fd id (mp.pack_str text)
  echo_task fd id (throw e) = error_task fd id (what e)
  echo_task fd id out_of_fuel = Task.done out_of_fuel

  unfoldable pub builtin_task : ℕ → ℕ → String → Object → Task mp.Byte Bool
  unfolding packed_task error_task emit_task echo_task bind
  builtin_task fd id method params =
      if text_eq method "ping"
      then packed_task fd id (mp.pack_str "pong")
      else if text_eq method "add"
      then bind (Task.done (add_request mp undefined params)) (packed_task fd id)
      else if text_eq method "echo"
      then echo_task fd id (format_echo_result show_int show_double params)
      else if text_eq method "array"
      then packed_task fd id (array_result mp show_int show_double insufficient undefined)
      else if text_eq method "emit_notify"
      then emit_task fd id params
      else error_task fd id ("method not available: " <> method)

  unfoldable pub request_task : ℕ → Object → Task mp.Byte (Unit {0})
  unfolding router_task builtin_task bind
  request_task fd
        (Object.array (
          Objects.element type (
            Objects.element id
              (Objects.element name (Objects.element params Objects.no_objects))))) =
      bind (Task.done (cast mp (mp.as_uint32 id))) (λ msgid.
        bind (Task.done (cast mp (mp.as_string name))) (λ method.
          bind (router_task fd msgid method params) (λ handled.
            if handled
            then returns tt
            else bind (builtin_task fd msgid method params) (λ sent. returns tt))))
  request_task fd _ = returns tt

  unfoldable pub notification_task : Object → Task mp.Byte (Unit {0})
  unfolding route_task bind
  notification_task
        (Object.array (
          Objects.element type
            (Objects.element name (Objects.element params Objects.no_objects)))) =
      bind (Task.done (cast mp (mp.as_string name)))
        (λ method. bind (route_task method params 0) (λ routed. returns tt))
  notification_task _ = returns tt

  -- The body of the inner loop of `client_loop`.
  unfoldable pub message_task : ℕ → Object → Task mp.Byte (Unit {0})
  unfolding request_task notification_task bind
  message_task fd (Object.array (Objects.element first rest)) =
      bind (Task.done (cast mp (mp.as_int first))) (λ type.
        if is_number 0 type
        then request_task fd (Object.array (Objects.element first rest))
        else if is_number 2 type
        then notification_task (Object.array (Objects.element first rest))
        else returns tt)
  message_task fd _ = returns tt
