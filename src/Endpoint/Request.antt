-- ===== src/Endpoint/Request.antt =====
-- `Endpoint::request` ends: how much fuel its loop needs.
pub mod Supply
use arduino_q_plugin.Common.{
  ℕ, zero, suc, ◌+◌, ◌<◌, String, ◌≡◌, refl, ap, ◌≢◌, inl, inr, Option, none, some, List, [], ◌∷◌,
  ◌++◌, arith, length, length-append, is_empty, Bool-cases, ◌⊎◌,
}
use arduino_q_plugin.Common.Int.{ℤ}
use arduino_q_plugin.Common.Result.{Result, ok, throw, out_of_fuel, Exception, ◌>>=◌}
use arduino_q_plugin.Common.State.{Method, lift, continue_with}
use arduino_q_plugin.Msgpack.{
  Object, Objects, Msgpack, WireLaws, Decoded, incomplete, message, malformed, cast,
}
use arduino_q_plugin.Value.{Values}
use arduino_q_plugin.Value.Wire.{object_to_value, elements_to_values}
use arduino_q_plugin.Socket.{World, Recv, send_all, receive_stream}
use arduino_q_plugin.Socket.SendAll.{send_all-Sends, send_all-frame}
use arduino_q_plugin.Frames.{
  request_bytes, response_bytes, next_id, read_reply, read_result, is_number, frame,
  notification_type, request_type,
}
use arduino_q_plugin.Client.{is_open}
use arduino_q_plugin.Endpoint.{
  Session, receive_message, refuse, respond_error, request_loop, request, send,
}
use arduino_q_plugin.Frames.Returns.{
  Ends, Ends-continue, Ends-bind, frame-Ends, cast-Ends, value-Ends, read_result-Ends,
  read_reply-Ends, send_all-Ends,
}
use arduino_q_plugin.Endpoint.Request.Supply.{total, supply, receive_stream-Shrinks}

module _ (mp : Msgpack) where
  -- What is true of a session that only sends.
  abbrev Keeps : Session mp.Byte → Result (Unit {0}) × Session mp.Byte → Type 0
  Keeps s p = Ends p.0 × (supply p.1 ≡ supply s)

  respond_error-Keeps :
      (msgid : ℕ) (error : String) (s : Session mp.Byte) → Keeps s (respond_error mp msgid error s)
  unfolding respond_error send
  respond_error-Keeps msgid error s = elim (Bool-cases (is_open s.socket_fd)) [
    | inr shut ↦ rw shut (cc, refl)
    | inl open_socket ↦ elim (Bool-cases (is_empty error)) [
      | inl empty ↦ rw (open_socket, empty) (cc, refl)
      | inr named ↦
          let payload = response_bytes mp msgid none error in
          rw (open_socket, named)
            (
              send_all-Ends mp payload s.world,
              ap (λ r. length s.stream + total r) (send_all-frame payload s.world).0,
            )
    ]
  ]

  refuse-Keeps : (fields : Objects) (s : Session mp.Byte) → Keeps s (refuse mp fields s)
  unfolding refuse
  refuse-Keeps
        (Objects.element id (Objects.element method (Objects.element params Objects.no_objects)))
        s =
      numbered (mp.as_uint32 id)
    where
      numbered :
          (n : Option ℕ)
          → Keeps s (
              continue_with
                (cast mp n, s)
                λ k. respond_error mp k "endpoint is waiting for a router response")
      numbered none = (cc, refl)
      numbered (some k) = respond_error-Keeps k "endpoint is waiting for a router response" s
  refuse-Keeps _ s = (cc, refl)

  module _ (laws : WireLaws mp) where
    -- The session once a request's number is taken.
    abbrev numbered : Session mp.Byte → Session mp.Byte
    numbered s = record s { endpoint = record s.endpoint { next_msgid = next_id s.next_msgid } }

    sent_supply :
        (method : String) (args : Values) (s : Session mp.Byte) (fuel : ℕ)
        → supply s < fuel
        → supply (send mp (request_bytes mp s.next_msgid method args) (numbered s)).1 < fuel
    unfolding send
    sent_supply method args s fuel h =
        rw (send_all-frame (request_bytes mp s.next_msgid method args) s.world).0 h

    -- Every round of the loop takes a message off the stream, so fuel above the number of bytes held
    -- and still to come is never used up, whatever messages come in whatever pieces.
    pub request_loop-ends :
        (fuel request_msgid : ℕ) (s : Session mp.Byte)
        → supply s < fuel
        → (request_loop mp fuel request_msgid s).0 ≢ out_of_fuel
    unfolding request_loop
    request_loop-ends zero request_msgid s h = absurd (omega arith)
    request_loop-ends (suc fuel) request_msgid s h =
        let shrinks = receive_stream-Shrinks mp laws s.stream s.world.recvs in
        Ends-continue (receive_message mp s) _ (unfold receive_message in shrinks.0) λ o eo.
          let s' : Session mp.Byte = (receive_message mp s).1 in
          let less : supply s' < supply s = unfold receive_message in shrinks.1 o eo in
          Ends-continue (lift (frame o) s') _ (frame-Ends mp o) λ parts _.
            Ends-continue (lift (cast mp (mp.as_int parts.0)) s') _
              (cast-Ends mp (mp.as_int parts.0))
              λ t _. elim (Bool-cases (is_number notification_type t)) [
                | inl note ↦ rw note (request_loop-ends fuel request_msgid s' (omega arith))
                | inr other ↦ elim (Bool-cases (is_number request_type t)) [
                  | inl inbound ↦
                      let keeps = refuse-Keeps parts.1 s' in
                      rw (other, inbound)
                        (Ends-continue (refuse mp parts.1 s') _ keeps.0 λ _ _.
                          request_loop-ends fuel request_msgid (refuse mp parts.1 s').1
                            (omega (arith, keeps.1)))
                  | inr reply ↦ rw (other, reply) (read_reply-Ends mp request_msgid t parts.1)
                ]
              ]

    -- Whatever the endpoint is given, a request ends with fuel above the number of bytes held and
    -- still to come: it returns a value or throws.
    pub request-ends :
        (fuel : ℕ) (method : String) (args : Values) (s : Session mp.Byte)
        → supply s < fuel
        → (request mp fuel method args s).0 ≢ out_of_fuel
    unfolding request send
    request-ends fuel method args s h = elim (Bool-cases (is_open s.socket_fd)) [
      | inr shut ↦ rw shut (cc)
      | inl open_socket ↦ elim (Bool-cases (is_empty method)) [
        | inl empty ↦ rw (open_socket, empty) (cc)
        | inr named ↦
            rw (open_socket, named)
              (Ends-continue (send mp (request_bytes mp s.next_msgid method args) (numbered s)) _
                (send_all-Ends mp (request_bytes mp s.next_msgid method args) s.world)
                λ _ _. request_loop-ends fuel s.next_msgid _ (sent_supply method args s fuel h))
      ]
    ]
