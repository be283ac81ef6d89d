-- ===== src/Client/Calls.antt =====
-- `Client::call`: what it sends, what it returns, and what it refuses.
use arduino_q_plugin.Common.{
  ℕ, ◌^◌, ◌<◌, ◌≤◌, not, ◌&&◌, Bool-cases, String, ◌≡◌, refl, ap, sym, ◌∙◌, ◌≢◌, ◌⊎◌, inl, inr,
  true, false, List, [], ◌∷◌, ◌++◌, if◌then◌else◌, length, take, is_empty, arith,
}
use arduino_q_plugin.Common.Result.{
  Result, ok, throw, Exception, runtime_error, invalid_argument, ◌>>=◌, >>=-eq-ok,
}
use arduino_q_plugin.Common.State.{continue_with-lift}
use arduino_q_plugin.Msgpack.{Object, Msgpack, WireLaws, CastLaws, IsWire}
use arduino_q_plugin.Value.{Value, Values}
use arduino_q_plugin.Value.Wire.{object_to_value}
use arduino_q_plugin.Socket.{World, Recv, send_all, receive_fresh}
use arduino_q_plugin.Socket.SendAll.{send_all-Sends, send_all-frame, capacity, send_all-completes}
use arduino_q_plugin.Socket.Receive.{
  IsFlowing, incoming, receive_fresh-reassembles, receive_fresh-completes,
}
use arduino_q_plugin.Frames.{request_bytes, read_response, read_result, next_id}
use arduino_q_plugin.Frames.Laws.{
  response_object, read_response-match, read_response-stale, read_response_sound,
}
use arduino_q_plugin.Client.{Client, Session, is_open, call, exchange, receive, on_world}

module _ (mp : Msgpack) (method : String) (args : Values) (s : Session mp.Byte) where
  -- The bytes of the request that the next call sends.
  abbrev pub request : List mp.Byte
  request = request_bytes mp s.next_msgid method args

  abbrev pub bumped : Client
  bumped = record s.client { next_msgid = next_id s.next_msgid }

  abbrev pub sent_world : World mp.Byte
  sent_world = (send_all request s.world).1

  abbrev pub received : Result Object × List (Recv mp.Byte)
  received = receive_fresh mp [] s.world.recvs

  module _ (open_socket : is_open s.socket_fd ≡ true) (named : is_empty method ≡ false) where
    pub call-unsent :
        (e : Exception)
        → (send_all request s.world).0 ≡ throw e
        → call mp method args s ≡ (throw e, record { client = bumped; world = sent_world })
    unfolding call
    call-unsent e throws = rw (open_socket, named, exchange, on_world, throws)

    pub call-sent :
        (send_all request s.world).0 ≡ ok tt
        → call mp method args s ≡ (
          (received.0 >>= read_response mp s.next_msgid),
          record { client = bumped; world = record sent_world { recvs = received.1 } },
        )
    unfolding call
    call-sent done =
        rw
          (
            open_socket,
            named,
            exchange,
            on_world,
            done,
            receive,
            (send_all-frame request s.world).0,
          )
          (continue_with-lift received.0 _ (read_response mp s.next_msgid))

    -- Effects of a call of a named method on an open client: the number is used up whatever
    -- happens, the descriptor stays, and either the whole request was sent, or the call throws and
    -- a proper prefix of it was.
    pub call_effects :
        ((call mp method args s).1.next_msgid ≡ next_id s.next_msgid)
        × ((call mp method args s).1.socket_fd ≡ s.socket_fd)
        × ((call mp method args s).1.world.closed ≡ s.world.closed)
        × (((call mp method args s).1.world.sent ≡ s.world.sent ++ request)
            ⊎ ((e : Exception) × (k : ℕ) × ((call mp method args s).0 ≡ throw e)
                × (k < length request)
                × ((call mp method args s).1.world.sent ≡ s.world.sent ++ take k request)))
    call_effects = elim (send_all-Sends request s.world) [
      | inl (done, sent) ↦
          rw (call-sent done) (refl, refl, (send_all-frame request s.world).1, inl sent)
      | inr (e, k, throws, short, sent) ↦
          rw (call-unsent e throws)
            (refl, refl, (send_all-frame request s.world).1, inr (e, k, refl, short, sent))
    ]

    -- On an open client, a call of a named method returns a value only if the whole request was
    -- sent and the message received is a response [1, msgid, nil, result] with the number of this
    -- request; the value is what `result` holds.
    pub call_sound :
        CastLaws mp
        → (v : Value) → (call mp method args s).0 ≡ ok v
        → ((call mp method args s).1.world.sent ≡ s.world.sent ++ request)
          × ((result : Object) × (received.0 ≡ ok (response_object s.next_msgid Object.nil result))
              × (object_to_value mp result ≡ ok v))
    call_sound casts v e = elim (send_all-Sends request s.world) [
      | inl (done, sent) ↦
          let (o, eo, read) =
            >>=-eq-ok received.0 (read_response mp s.next_msgid)
              (sym (ap (λ p. p.0) (call-sent done)) ∙ e) in
          let (result, shape, value) = read_response_sound mp casts s.next_msgid o v read in
          (rw (call-sent done) sent, (result, eo ∙ ap ok shape, value))
      | inr (x, k, throws, short, sent) ↦ cc (sym (ap (λ p. p.0) (call-unsent x throws)) ∙ e)
    ]

    module _ (laws : WireLaws mp) (casts : CastLaws mp)
        (room : length request ≤ capacity s.world.sends) where
      call-receives :
          (o : Object) (extra : List mp.Byte)
          → IsWire o
          → incoming s.world.recvs ≡ mp.encode o ++ extra
          → ((call mp method args s).0 ≡ read_response mp s.next_msgid o)
            × ((lost : List mp.Byte) × (lost ++ incoming (call mp method args s).1.world.recvs
                  ≡ extra))
      call-receives o extra wire h =
          let (done, _) = send_all-completes request s.world room in
          let (lost, rs, e, rest) =
            receive_fresh-reassembles mp laws o wire extra s.world.recvs h in
          rw (call-sent done, e) (refl, (lost, rest))

      -- If the kernel takes the request and the bytes that come begin with a response to it, in pieces
      -- of any sizes, the call ends with the response's error or with the value of its result.
      pub call-response :
          (error result : Object) (extra : List mp.Byte)
          → s.next_msgid < 2 ^ 32
          → IsWire (response_object s.next_msgid error result)
          → incoming s.world.recvs ≡ mp.encode (response_object s.next_msgid error result) ++ extra
          → (call mp method args s).0 ≡ read_result mp error result
      call-response error result extra small wire h =
          (call-receives _ extra wire h).0
          ∙ read_response-match mp casts s.next_msgid error result small

      -- On an open client whose whole request the kernel takes, a response that was left over from
      -- another request is read, in any pieces, in place of this one's: the call throws. The piece of bytes that
      -- completes the response is the last one that it takes: what that piece holds past the response
      -- is lost, and the kernel's later answers are left for the next call.
      pub call-stale :
          (other : ℕ) (error result : Object) (front later : List (Recv mp.Byte))
          (last surplus : List mp.Byte)
          → other < 2 ^ 32
          → other ≢ s.next_msgid
          → IsWire (response_object other error result)
          → IsFlowing front
          → length (incoming front) < length (mp.encode (response_object other error result))
          → incoming front ++ last ≡ mp.encode (response_object other error result) ++ surplus
          → s.world.recvs ≡ front ++ Recv.bytes last ∷ later
          → ((call mp method args s).0
              ≡ throw (runtime_error "RPC response does not match request"))
            × ((call mp method args s).1.world.recvs ≡ later)
      call-stale other error result front later last surplus small ne wire flows short whole comes =
          let (done, _) = send_all-completes request s.world room in
          let e : received ≡ (ok (response_object other error result), later) =
            ap (receive_fresh mp []) comes
            ∙ receive_fresh-completes mp laws (response_object other error result) wire front later
                [] last surplus flows (omega (arith, short)) whole in
          rw (call-sent done, e)
            (read_response-stale mp casts s.next_msgid other error result small ne, refl)

-- A client that is not open, or a call with no method name, throws and changes nothing: neither is a
-- number used up nor is a byte sent.
pub call_refused :
    (mp : Msgpack) (method : String) (args : Values) (s : Session mp.Byte)
    → (is_open s.socket_fd && not (is_empty method)) ≡ false
    → call mp method args s ≡ (
      throw (
          if is_open s.socket_fd
          then invalid_argument "RPC method name is empty"
          else runtime_error "Socket is not open"),
      s,
    )
unfolding call
call_refused mp method args s h = elim (Bool-cases (is_open s.socket_fd)) [
  | inr shut ↦ rw shut
  | inl open_socket ↦ elim (Bool-cases (is_empty method)) [
    | inl empty ↦ rw (open_socket, empty)
    | inr named ↦ cc (rw (open_socket, named) at h)
  ]
]
