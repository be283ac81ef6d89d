-- ===== src/Router/Routing.antt =====
-- Where the router sends notifications, and which bytes.
use arduino_q_plugin.Common.{
  ℕ, suc, ◌-◌, String, ◌≡◌, refl, ap, ◌∙◌, some, List, ◌++◌, append-nil, arith, le→ltb,
}
use arduino_q_plugin.Common.Int.{pos}
use arduino_q_plugin.Msgpack.{Object, Objects, Msgpack, WireLaws, encode_all, size}
use arduino_q_plugin.Value.{Values}
use arduino_q_plugin.Value.Wire.Laws.{to_objects}
use arduino_q_plugin.Endpoint.Receive.{notification_object}
use arduino_q_plugin.Router.{
  register_method, lookup_method, notification_buffer, route_notification, sent_to,
}
use arduino_q_plugin.Router.Registry.{lookup_method-register_method}
use text.Mathlib.TextEquality.{eq_iff}

module _ (mp : Msgpack) (laws : WireLaws mp) where
  open laws use {encode_pos, encode_str, encode_array}

  encode_three :
      (a b c : Object)
      → mp.encode (
          Object.array
            (Objects.element a (Objects.element b (Objects.element c Objects.no_objects))))
        ≡ mp.pack_array 3 ++ (mp.encode a ++ (mp.encode b ++ mp.encode c))
  unfolding encode_all
  encode_three a b c =
      encode_array _
      ∙ ap (λ ts. mp.pack_array 3 ++ (mp.encode a ++ (mp.encode b ++ ts)))
          (append-nil (mp.encode c))

  lookup-new :
      (fd : ℕ) (method : String) (es : List (String × ℕ))
      → lookup_method method (register_method fd method es) ≡ pos fd
  lookup-new fd method es =
      lookup_method-register_method fd method method es ∙ ground (arith, eq_iff method method)

  packed :
      (method : String) (args : Values)
      → mp.pack_array 3
          ++ (mp.pack_int (pos 2)
              ++ (mp.pack_str method
                  ++ (mp.pack_array (size (to_objects args)) ++ encode_all mp (to_objects args))))
        ≡ mp.encode (notification_object method args)
  packed method args = rw (encode_three, encode_pos 2, encode_str method, encode_array) refl

  pub first_buffer :
      (method : String) (args : Values)
      → notification_buffer mp method (Object.array (to_objects args)) 0
        ≡ some (mp.encode (notification_object method args))
  unfolding notification_buffer
  first_buffer method args =
      let all : size (to_objects args) - 0 ≡ size (to_objects args) = omega arith in
      rw (le→ltb (size (to_objects args)) 0 (omega arith), all) (ap some (packed method args))

  second_buffer :
      (method : String) (args : Values)
      → notification_buffer mp method
          (Object.array (Objects.element (Object.str method) (to_objects args)))
          1
        ≡ some (mp.encode (notification_object method args))
  unfolding notification_buffer
  second_buffer method args =
      let others : suc (size (to_objects args)) - 1 ≡ size (to_objects args) = omega arith in
      rw (le→ltb (suc (size (to_objects args))) 1 (omega arith), others)
        (ap some (packed method args))

  -- A notification for a method goes to the descriptor that registered it last, with the bytes that an
  -- endpoint receives as that notification: both one that a client sends with its arguments, and one
  -- that a client asks for, whose arguments come behind the method's name.
  pub route_notification-register_method :
      (fd : ℕ) (method : String) (args : Values) (es : List (String × ℕ))
      → (route_notification mp
            (register_method fd method es)
            method
            (Object.array (to_objects args))
            0
          ≡ some (fd, mp.encode (notification_object method args)))
        × (route_notification mp
              (register_method fd method es)
              method
              (Object.array (Objects.element (Object.str method) (to_objects args)))
              1
            ≡ some (fd, mp.encode (notification_object method args)))
  unfolding route_notification
  route_notification-register_method fd method args es = (
    ap
          (λ owner.
            sent_to mp owner (notification_buffer mp method (Object.array (to_objects args)) 0))
          (lookup-new fd method es)
        ∙ ap (sent_to mp (pos fd)) (first_buffer method args),
    ap
          (λ owner. sent_to mp owner (
            notification_buffer mp method
              (Object.array (Objects.element (Object.str method) (to_objects args))) 1))
          (lookup-new fd method es)
        ∙ ap (sent_to mp (pos fd)) (second_buffer method args),
  )
