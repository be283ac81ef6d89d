-- ===== src/Router/Clients/Registers.antt =====
-- A request of `Endpoint::register_method` at the router, and the router's answer at the endpoint.
use arduino_q_plugin.Common.{
  ℕ, suc, ◌^◌, ◌≤◌, ◌<◌, String, ◌≡◌, refl, ap, sym, ◌∙◌, true, false, some, List, [], ◌∷◌, ◌++◌,
  append-nil, arith, length, is_empty, if◌then◌else◌,
}
use arduino_q_plugin.Common.Int.{ℤ, pos}
use arduino_q_plugin.Common.Result.{Result, ok, Exception}
use arduino_q_plugin.Msgpack.{Object, Msgpack, WireLaws, CastLaws, IsWire, message}
use arduino_q_plugin.Value.{Value, IsValid}
use arduino_q_plugin.Value.Wire.{pack_value}
use arduino_q_plugin.Value.Wire.Laws.{to_object}
use arduino_q_plugin.Socket.SendAll.{capacity}
use arduino_q_plugin.Frames.{request_bytes, response_bytes}
use arduino_q_plugin.Frames.Laws.{request_object, request_object-IsWire, request_bytes-encode, Fits}
use arduino_q_plugin.Client.{is_open}
use arduino_q_plugin.Endpoint
use arduino_q_plugin.Endpoint.Receive.{ahead}
use arduino_q_plugin.Endpoint.Registers.{one_name, register_method-answered}
use arduino_q_plugin.Router.{register_method, lookup_method}
use arduino_q_plugin.Router.Registry.{lookup_method-register_method}
use arduino_q_plugin.Router.Requests.{
  performed, unpacked, response_frame, send_response, send_packed_result, register_request,
  handle_router_request, handle_request,
}
use arduino_q_plugin.Router.Writes.{Hub, send_buffer, send_buffer-completes}
use arduino_q_plugin.Router.Clients.{handle_message}
use text.Mathlib.Text.{◌==◌ as text_eq}

module _ (mp : Msgpack) (show_int : ℤ → String) (show_double : ℕ → String)
    (insufficient undefined : Exception) (laws : WireLaws mp) (casts : CastLaws mp) where
  open casts use {as_int_pos, as_uint32_pos, as_string_str}

  -- The answer of the router to a request that it carries out.
  abbrev pub done_bytes : ℕ → List mp.Byte
  done_bytes msgid = response_bytes mp msgid (some (Value.bool true)) ""

  -- The router returned, a lookup of the method finds the descriptor and one of any other name finds
  -- what it found before, and the router has written its answer.
  abbrev pub Registered : ℕ → ℕ → String → Hub mp.Byte → Result (Unit {0}) × Hub mp.Byte → Type 0
  Registered fd msgid method h (r, h') =
      (r ≡ ok tt)
      × ((name : String)
          → lookup_method name h'.entries
            ≡ (if text_eq method name then pos fd else lookup_method name h.entries))
      × (h'.outbox ≡ h.outbox ++ (fd, done_bytes msgid) ∷ [])

  decode_true : mp.decode (mp.pack_bool true) ≡ message (Object.boolean true) []
  decode_true =
      ap mp.decode
        (sym (laws.encode_bool true) ∙ sym (append-nil (mp.encode (Object.boolean true))))
      ∙ laws.decode_encode (Object.boolean true) [] (unfold IsWire in tt)

  packed_true :
      (fd msgid : ℕ) (h : Hub mp.Byte)
      → send_packed_result mp show_int show_double insufficient undefined fd msgid
          (mp.pack_bool true)
          h
        ≡ performed (send_buffer fd (done_bytes msgid) h)
  unfolding send_packed_result unpacked send_response response_frame response_bytes pack_value
  packed_true fd msgid h = rw (decode_true, laws.encode_bool true) refl

  module _ (fd msgid : ℕ) (method : String) (h : Hub mp.Byte) (small : msgid < 2 ^ 32)
      (room : length (done_bytes msgid) ≤ capacity h.answers) where
    registered : Registered fd msgid method h (
        handle_message mp show_int show_double insufficient undefined fd
          (request_object msgid "$/register" (one_name method))
          h)
    unfolding handle_message handle_request handle_router_request register_request to_object
        send_buffer
    registered =
        let (all, wrote) =
          send_buffer-completes fd (done_bytes msgid)
            (record h { entries = register_method fd method h.entries }) room in
        rw
          (
            as_int_pos 0 (omega arith),
            as_uint32_pos msgid small,
            as_string_str "$/register",
            packed_true fd msgid (record h { entries = register_method fd method h.entries }),
            all,
          )
          (refl, λ name. lookup_method-register_method fd method name h.entries, wrote)

  -- The handshake of a registration: the bytes that the endpoint sends are decoded at the router as one
  -- message; after it was handled, a lookup of the method finds the endpoint's descriptor, whatever it
  -- found before, and those of other names find what they found before, and an answer was written; and
  -- an endpoint for which that answer comes first returns from `register_method`, having sent those
  -- bytes. The kernel takes what either side sends, the method has a name that the format can carry,
  -- and the message numbers are those of `uint32_t`.
  pub register_method-handshake :
      (fd fuel : ℕ) (method : String) (extra : List mp.Byte) (h : Hub mp.Byte)
      (e : Endpoint.Session mp.Byte)
      → is_open e.socket_fd ≡ true
      → is_empty method ≡ false
      → Fits e.next_msgid "$/register" (one_name method)
      → length (request_bytes mp e.next_msgid "$/register" (one_name method))
        ≤ capacity e.world.sends
      → length (done_bytes e.next_msgid) ≤ capacity h.answers
      → ahead e ≡ done_bytes e.next_msgid ++ extra
      → (o : Object) × (mp.decode (request_bytes mp e.next_msgid "$/register" (one_name method))
          ≡ message o [])
        × Registered fd e.next_msgid method h
            (handle_message mp show_int show_double insufficient undefined fd o h)
        × ((Endpoint.register_method mp (suc fuel) method e).0 ≡ ok tt)
        × ((Endpoint.register_method mp (suc fuel) method e).1.world.sent
            ≡ e.world.sent ++ request_bytes mp e.next_msgid "$/register" (one_name method))
  register_method-handshake fd fuel method extra h e open_socket named fits room answer_room
        answered =
      let o = request_object e.next_msgid "$/register" (one_name method) in
      let wire = request_object-IsWire e.next_msgid "$/register" (one_name method) fits in
      let (returns, sent) =
        register_method-answered mp laws casts fuel method (Value.bool true) extra e open_socket
          named room fits.0 (unfold IsValid in tt) answered in
      (
        o,
        ap mp.decode (
              request_bytes-encode mp laws e.next_msgid "$/register" (one_name method) fits
              ∙ sym (append-nil (mp.encode o)))
            ∙ laws.decode_encode o [] wire,
        registered fd e.next_msgid method h fits.0 answer_room,
        returns,
        sent,
      )
