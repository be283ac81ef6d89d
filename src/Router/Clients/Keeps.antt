-- ===== src/Router/Clients/Keeps.antt =====
-- The handlers of the router keep one registry entry for each name, and return or throw.
use arduino_q_plugin.Common.{
  ℕ, zero, suc, String, ◌≡◌, ◌≢◌, refl, sym, subst, true, Option, none, some, ◌<◌, List, length,
  arith,
}
use arduino_q_plugin.Common.Int.{ℤ, pos, negsuc}
use arduino_q_plugin.Common.Result.{Result, ok, throw, out_of_fuel, Exception}
use arduino_q_plugin.Common.State.{pure, raise, ◌>>◌}
use arduino_q_plugin.Msgpack.{
  Object, Objects, Msgpack, WireLaws, Decoded, incomplete, message, malformed, cast,
}
use arduino_q_plugin.Frames.{is_number}
use arduino_q_plugin.Frames.Returns.{cast-Ends}
use arduino_q_plugin.Router.{register_method, reset_methods, lookup_method, notification_buffer}
use arduino_q_plugin.Router.Echo.{add_request, format_echo_result}
use arduino_q_plugin.Router.Echo.Total.{add_request_ends, format_echo_result_ends}
use arduino_q_plugin.Router.Registry.{IsMap, register_method-IsMap, reset_methods-IsMap}
use arduino_q_plugin.Router.Requests.{
  handle_request, handle_notification, handle_router_request, handle_builtin_request, route,
  send_packed_result, send_error_response, send_response, unpacked, register_request, emit_request,
  echo_request, send_to,
}
use arduino_q_plugin.Router.Writes.{Hub, send_buffer}
use arduino_q_plugin.Router.Clients.{handle_message, drain}
use text.Mathlib.Text.{◌==◌ as text_eq}
use arduino_q_plugin.Router.Clients.Holds.{Keeps, continued, chosen, branched, lifted}

module _ (mp : Msgpack) (show_int : ℤ → String) (show_double : ℕ → String)
    (insufficient undefined : Exception) where
  unpacked_ends :
      (d : Decoded mp.Byte)
      → unpacked mp show_int show_double insufficient undefined d ≢ out_of_fuel
  unfolding unpacked
  unpacked_ends incomplete e = absurd cc
  unpacked_ends (message o rest) e = absurd cc
  unpacked_ends (malformed x) e = absurd cc

  packed-Keeps :
      (fd id : ℕ) (bytes : List mp.Byte)
      → Keeps (send_packed_result mp show_int show_double insufficient undefined fd id bytes)
  unfolding send_packed_result send_response send_buffer
  packed-Keeps fd id bytes h k =
      continued (_, h) _
        (lifted (unpacked mp show_int show_double insufficient undefined (mp.decode bytes))
          (unpacked_ends (mp.decode bytes)) h k)
        (λ o h' k'. k')

  register-Keeps :
      (fd id : ℕ) (params : Object)
      → Keeps (register_request mp show_int show_double insufficient undefined fd id params)
  unfolding register_request send_error_response send_response send_buffer
  register-Keeps fd id (Object.array (Objects.element (Object.str method) Objects.no_objects)) h k =
      packed-Keeps fd id (mp.pack_bool true)
        (record h { entries = register_method fd method h.entries })
        (register_method-IsMap fd method h.entries k)
  register-Keeps fd id _ h k = k

  router-Keeps :
      (fd id : ℕ) (method : String) (params : Object)
      → Keeps
          (handle_router_request mp show_int show_double insufficient undefined fd id method params)
  unfolding handle_router_request
  router-Keeps fd id method params h k =
      chosen (text_eq method "$/register") _ _ (register-Keeps fd id params h k) (
        chosen (text_eq method "$/reset") _ _
          (packed-Keeps fd id (mp.pack_bool true)
            (record h { entries = reset_methods fd h.entries })
            (reset_methods-IsMap fd h.entries k))
          k)

  echo-Keeps :
      (fd id : ℕ) (r : Result String)
      → r ≢ out_of_fuel
      → Keeps (echo_request mp show_int show_double insufficient undefined fd id r)
  unfolding echo_request send_error_response send_response send_buffer
  echo-Keeps fd id (ok text) ends h k = packed-Keeps fd id (mp.pack_str text) h k
  echo-Keeps fd id (throw e) ends h k = k
  echo-Keeps fd id out_of_fuel ends h k = ends refl

  send_to-entries :
      (owner : ℤ) (buffer : Option (List mp.Byte)) (h : Hub mp.Byte)
      → (send_to mp show_int show_double insufficient undefined owner buffer h).1.entries
        ≡ h.entries
  unfolding send_to send_buffer
  send_to-entries (pos fd) (some buffer) h = refl
  send_to-entries (pos fd) none h = refl
  send_to-entries (negsuc n) buffer h = refl

  route-Keeps :
      (method : String) (params : Object) (first_param : ℕ) (h : Hub mp.Byte)
      → IsMap h.entries
      → IsMap
          (route mp show_int show_double insufficient undefined method params first_param
            h).1.entries
  unfolding route
  route-Keeps method params first_param h k =
      subst IsMap
        (sym (
          send_to-entries (lookup_method method h.entries)
            (notification_buffer mp method params first_param) h))
        k

  emit-Keeps :
      (fd id : ℕ) (params : Object)
      → Keeps (emit_request mp show_int show_double insufficient undefined fd id params)
  unfolding emit_request send_error_response send_response send_buffer
  emit-Keeps fd id (Object.array (Objects.element (Object.str method) rest)) h k =
      packed-Keeps fd id _ _
        (route-Keeps method (Object.array (Objects.element (Object.str method) rest)) 1 h k)
  emit-Keeps fd id _ h k = k

  builtin-Keeps :
      (fd id : ℕ) (method : String) (params : Object)
      → Keeps (
          handle_builtin_request mp show_int show_double insufficient undefined fd id method params)
  unfolding handle_builtin_request send_error_response send_response send_buffer
  builtin-Keeps fd id method params h k =
      chosen (text_eq method "ping") _ _ (packed-Keeps fd id (mp.pack_str "pong") h k) (
        chosen (text_eq method "add") _ _
          (continued (add_request mp undefined params, h) _
            (lifted (add_request mp undefined params) (add_request_ends mp undefined params) h k)
            (λ bytes. packed-Keeps fd id bytes))
          (chosen (text_eq method "echo") _ _
            (echo-Keeps fd id (format_echo_result show_int show_double params)
              (format_echo_result_ends show_int show_double params) h k)
            (chosen (text_eq method "array") _ _ (packed-Keeps fd id _ h k)
              (chosen (text_eq method "emit_notify") _ _ (emit-Keeps fd id params h k) k))))

  request-Keeps :
      (fd : ℕ) (o : Object)
      → Keeps (handle_request mp show_int show_double insufficient undefined fd o)
  unfolding handle_request
  request-Keeps fd
        (Object.array (
          Objects.element type (
            Objects.element id (Objects.element name (Objects.element params Objects.no_objects)))))
        h k =
      continued (cast mp (mp.as_uint32 id), h) _
        (lifted (cast mp (mp.as_uint32 id)) (cast-Ends mp (mp.as_uint32 id)) h k)
        (λ msgid h₁ k₁.
          continued (cast mp (mp.as_string name), h₁) _
            (lifted (cast mp (mp.as_string name)) (cast-Ends mp (mp.as_string name)) h₁ k₁)
            (λ method h₂ k₂.
              continued
                (handle_router_request mp show_int show_double insufficient undefined fd msgid
                  method params h₂)
                _ (router-Keeps fd msgid method params h₂ k₂)
                (λ handled.
                  branched handled _ _ (λ h₃ k₃. k₃)
                    (λ h₃ k₃.
                      continued
                        (handle_builtin_request mp show_int show_double insufficient undefined fd
                          msgid method params h₃)
                        _ (builtin-Keeps fd msgid method params h₃ k₃) (λ done h₄ k₄. k₄)))))
  request-Keeps fd _ h k = k

  notification-Keeps :
      (o : Object) → Keeps (handle_notification mp show_int show_double insufficient undefined o)
  unfolding handle_notification
  notification-Keeps
        (Object.array
          (Objects.element type (Objects.element name (Objects.element params Objects.no_objects))))
        h k =
      continued (cast mp (mp.as_string name), h) _
        (lifted (cast mp (mp.as_string name)) (cast-Ends mp (mp.as_string name)) h k)
        (λ method h₁ k₁. route-Keeps method params 0 h₁ k₁)
  notification-Keeps _ h k = k

  message-Keeps :
      (fd : ℕ) (o : Object)
      → Keeps (handle_message mp show_int show_double insufficient undefined fd o)
  unfolding handle_message
  message-Keeps fd (Object.array (Objects.element first rest)) h k =
      continued (cast mp (mp.as_int first), h) _
        (lifted (cast mp (mp.as_int first)) (cast-Ends mp (mp.as_int first)) h k)
        (λ type.
          branched (is_number 0 type) _ _
            (request-Keeps fd (Object.array (Objects.element first rest)))
            (branched (is_number 2 type) _ _
              (notification-Keeps (Object.array (Objects.element first rest))) (λ h₁ k₁. k₁)))
  message-Keeps fd _ h k = k

  module _ (laws : WireLaws mp) where
    pub drain-Keeps :
        (fuel fd : ℕ) (buffer : List mp.Byte)
        → length buffer < fuel
        → Keeps (drain mp show_int show_double insufficient undefined fuel fd buffer)
    unfolding drain
    drain-Keeps zero fd buffer room = absurd (omega (arith, room))
    drain-Keeps (suc fuel) fd buffer room =
        by_decoded (mp.decode buffer) refl (λ rest. drain-Keeps fuel fd rest)
      where
        by_decoded :
            (d : Decoded mp.Byte)
            → mp.decode buffer ≡ d
            → ((rest : List mp.Byte)
                → length rest < fuel
                → Keeps (drain mp show_int show_double insufficient undefined fuel fd rest))
            → Keeps {Byte = mp.Byte} {A = List mp.Byte} (elim d [
              | incomplete ↦ pure buffer
              | message o rest ↦
                  handle_message mp show_int show_double insufficient undefined fd o
                  >> drain mp show_int show_double insufficient undefined fuel fd rest
              | malformed e ↦ raise e
            ])
        by_decoded incomplete e later h k = k
        by_decoded (message o rest) e later h k =
            let fewer = laws.decode_consumes buffer rest o e in
            continued (handle_message mp show_int show_double insufficient undefined fd o h) _
              (message-Keeps fd o h k) (λ u. later rest (omega (arith, fewer, room)))
        by_decoded (malformed x) e later h k = k
