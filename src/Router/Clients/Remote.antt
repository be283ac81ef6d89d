-- ===== src/Router/Clients/Remote.antt =====
-- A call of the client at the router: what the call makes of the router's answer.
use arduino_q_plugin.Common.{
  ℕ, ◌^◌, ◌≤◌, ◌<◌, String, ◌≡◌, refl, ap, sym, ◌∙◌, true, false, List, [], ◌∷◌, ◌++◌, append-nil,
  arith, length, is_empty,
}
use arduino_q_plugin.Common.Int.{ℤ}
use arduino_q_plugin.Common.Result.{Result, ok, throw, out_of_fuel, Exception, what}
use arduino_q_plugin.Msgpack.{Object, Msgpack, WireLaws, CastLaws, message}
use arduino_q_plugin.Value.{Value, Values, IsValid}
use arduino_q_plugin.Value.Wire.Laws.{to_object}
use arduino_q_plugin.Socket.SendAll.{capacity}
use arduino_q_plugin.Socket.Receive.{incoming}
use arduino_q_plugin.Frames.Laws.{request_object, request_object-IsWire, request_bytes-encode, Fits}
use arduino_q_plugin.Client
use arduino_q_plugin.Client.{is_open, call}
use arduino_q_plugin.Client.Calls.{request}
use arduino_q_plugin.Endpoint.Respond.{call-respond, call-respond_error}
use arduino_q_plugin.Router.Requests.{handle_router_request, handle_request}
use arduino_q_plugin.Router.Writes.{Hub, send_buffer-completes}
use arduino_q_plugin.Router.Clients.{handle_message}
use arduino_q_plugin.Router.Clients.Answers.{
  IsPlain, IsCarried, IsNamed, returned, answer, answer-IsNamed, answer_bytes, builtin_answer, kept,
}

module _ (mp : Msgpack) (show_int : ℤ → String) (show_double : ℕ → String)
    (insufficient undefined : Exception) (laws : WireLaws mp) (casts : CastLaws mp) where
  open casts use {as_int_pos, as_uint32_pos, as_string_str}

  -- The router returned, kept its registry, and wrote these bytes to the descriptor.
  abbrev pub Answered : ℕ → List mp.Byte → Hub mp.Byte → Result (Unit {0}) × Hub mp.Byte → Type 0
  Answered fd bytes h (r, h') =
      (r ≡ ok tt) × (h'.entries ≡ h.entries) × (h'.outbox ≡ h.outbox ++ (fd, bytes) ∷ [])

  pub answered :
      (fd msgid : ℕ) (method : String) (args : Values) (h : Hub mp.Byte)
      → IsPlain method
      → IsCarried (answer show_int show_double method args)
      → msgid < 2 ^ 32
      → length (
          answer_bytes mp show_int show_double insufficient undefined laws msgid
            (answer show_int show_double method args))
        ≤ capacity h.answers
      → Answered fd
          (answer_bytes mp show_int show_double insufficient undefined laws msgid
            (answer show_int show_double method args))
          h
          (handle_message mp show_int show_double insufficient undefined fd
            (request_object msgid method args)
            h)
  unfolding handle_message handle_request handle_router_request to_object
  answered fd msgid method args h plain carried small room =
      let (all, wrote) =
        send_buffer-completes fd
          (answer_bytes mp show_int show_double insufficient undefined laws msgid
            (answer show_int show_double method args))
          h room in
      rw
        (
          as_int_pos 0 (omega arith),
          as_uint32_pos msgid small,
          as_string_str method,
          plain.not_register,
          plain.not_reset,
          builtin_answer mp show_int show_double insufficient undefined laws fd msgid method args h
              plain carried,
        )
        (
          refl,
          kept fd
              (answer_bytes mp show_int show_double insufficient undefined laws msgid
                (answer show_int show_double method args))
              h,
          wrote,
        )

  -- What a call makes of an answer, whatever it is.
  call-answer :
      (method : String) (args : Values) (r : Result String) (extra : List mp.Byte)
      (c : Client.Session mp.Byte)
      → is_open c.socket_fd ≡ true
      → is_empty method ≡ false
      → length (request mp method args c) ≤ capacity c.world.sends
      → c.next_msgid < 2 ^ 32
      → IsCarried r
      → IsNamed r
      → incoming c.world.recvs
        ≡ answer_bytes mp show_int show_double insufficient undefined laws c.next_msgid r ++ extra
      → (call mp method args c).0 ≡ returned r
  call-answer method args (ok text) extra c open_socket named room small carried some_text h =
      call-respond mp laws casts method args c open_socket named room small (Value.string text)
        extra (unfold IsValid in carried) h
  call-answer method args (throw e) extra c open_socket named room small carried some_text h =
      call-respond_error mp laws casts method args c open_socket named room small (what e) extra
        some_text carried h
  call-answer method args out_of_fuel extra c open_socket named room small carried some_text h =
      absurd carried

  -- A remote call through the router, of `ping`, of `echo`, or of a method that the router does not
  -- have: the bytes that the client sends are decoded at the router as one message; handling it keeps
  -- the registry and writes an answer; and a call for which that answer comes first, in any pieces,
  -- returns "pong", returns or throws what `echo` formats of the arguments, or throws that the method
  -- is not available. The client is open, the kernel takes what either side sends, and the format can
  -- carry the call and the text of the answer.
  pub remote_call :
      (fd : ℕ) (method : String) (args : Values) (extra : List mp.Byte) (h : Hub mp.Byte)
      (c : Client.Session mp.Byte)
      → IsPlain method
      → is_open c.socket_fd ≡ true
      → is_empty method ≡ false
      → Fits c.next_msgid method args
      → IsCarried (answer show_int show_double method args)
      → length (request mp method args c) ≤ capacity c.world.sends
      → length (
          answer_bytes mp show_int show_double insufficient undefined laws c.next_msgid
            (answer show_int show_double method args))
        ≤ capacity h.answers
      → incoming c.world.recvs
        ≡ answer_bytes mp show_int show_double insufficient undefined laws c.next_msgid
            (answer show_int show_double method args)
          ++ extra
      → (o : Object) × (mp.decode (request mp method args c) ≡ message o [])
        × Answered fd
            (answer_bytes mp show_int show_double insufficient undefined laws c.next_msgid
              (answer show_int show_double method args))
            h
            (handle_message mp show_int show_double insufficient undefined fd o h)
        × ((call mp method args c).0 ≡ returned (answer show_int show_double method args))
  remote_call fd method args extra h c plain open_socket named fits carried room answer_room comes =
      let o = request_object c.next_msgid method args in
      (
        o,
        ap mp.decode (
              request_bytes-encode mp laws c.next_msgid method args fits
              ∙ sym (append-nil (mp.encode o)))
            ∙ laws.decode_encode o [] (request_object-IsWire c.next_msgid method args fits),
        answered fd c.next_msgid method args h plain carried fits.0 answer_room,
        call-answer method args (answer show_int show_double method args) extra c open_socket named
            room fits.0 carried (answer-IsNamed show_int show_double method args) comes,
      )
