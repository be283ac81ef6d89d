-- ===== src/Endpoint/Respond.antt =====
-- `Endpoint::respond` and `respond_error`, and what a client makes of the bytes that they send.
use Prim.Native.String.{len}
use arduino_q_plugin.Common.{
  ℕ, ◌^◌, ◌≤◌, ◌<◌, String, ◌≡◌, ap, ◌∙◌, true, false, none, some, List, ◌++◌, arith, length,
  is_empty, ◌<>◌,
}
use arduino_q_plugin.Common.Result.{ok, throw, runtime_error}
use arduino_q_plugin.Msgpack.{Object, Msgpack, WireLaws, CastLaws, IsWire}
use arduino_q_plugin.Value.{Value, Values, IsValid}
use arduino_q_plugin.Value.Wire.{object_to_debug_string}
use arduino_q_plugin.Value.Wire.Laws.{to_object, to_object-IsWire, object_to_value-to_object}
use arduino_q_plugin.Socket.SendAll.{Sends, send_all-Sends, capacity}
use arduino_q_plugin.Socket.Receive.{incoming}
use arduino_q_plugin.Frames.{response_bytes, read_result}
use arduino_q_plugin.Frames.Laws.{response_bytes-encode, error_bytes-encode}
use arduino_q_plugin.Client
use arduino_q_plugin.Client.{is_open, call}
use arduino_q_plugin.Client.Calls.{request, call-response}
use arduino_q_plugin.Endpoint.{Session, respond, respond_error}

module _ (mp : Msgpack) where
  -- On an open endpoint `respond` sends the response's bytes, or throws when a proper prefix of them
  -- was sent; a result is never sent together with an error.
  pub respond-Sends :
      (msgid : ℕ) (v : Value) (s : Session mp.Byte)
      → is_open s.socket_fd ≡ true
      → Sends s.world.sent
          (response_bytes mp msgid (some v) "")
          (respond mp msgid v s).0
          (respond mp msgid v s).1.world.sent
  unfolding respond
  respond-Sends msgid v s open_socket =
      rw open_socket (send_all-Sends (response_bytes mp msgid (some v) "") s.world)

  -- The same for `respond_error`, for an error that is not empty.
  pub respond_error-Sends :
      (msgid : ℕ) (error : String) (s : Session mp.Byte)
      → is_open s.socket_fd ≡ true
      → is_empty error ≡ false
      → Sends s.world.sent
          (response_bytes mp msgid none error)
          (respond_error mp msgid error s).0
          (respond_error mp msgid error s).1.world.sent
  unfolding respond_error
  respond_error-Sends msgid error s open_socket named =
      rw (open_socket, named) (send_all-Sends (response_bytes mp msgid none error) s.world)

module _ (mp : Msgpack) (laws : WireLaws mp) (casts : CastLaws mp) (method : String) (args : Values)
    (c : Client.Session mp.Byte) (open_socket : is_open c.socket_fd ≡ true)
    (named : is_empty method ≡ false)
    (room : length (request mp method args c) ≤ capacity c.world.sends)
    (small : c.next_msgid < 2 ^ 32) where
  -- On an open client, for a named method, and when the kernel takes the whole request, a result
  -- sent by `respond` under the number of the call comes out of the call unchanged: for every
  -- valid value, the bytes arriving in any pieces and with anything behind them.
  pub call-respond :
      (v : Value) (extra : List mp.Byte)
      → IsValid v
      → incoming c.world.recvs ≡ response_bytes mp c.next_msgid (some v) "" ++ extra
      → (call mp method args c).0 ≡ ok v
  unfolding read_result IsWire
  call-respond v extra valid h =
      call-response mp method args c open_socket named laws casts room Object.nil (to_object v)
        extra small
        (omega arith, (omega arith, (omega arith, (tt, (to_object-IsWire v valid, tt)))))
        (h ∙ ap (λ b. b ++ extra) (response_bytes-encode mp laws c.next_msgid v valid))
      ∙ object_to_value-to_object mp v valid

  -- On an open client, for a named method, and when the kernel takes the whole request, an error
  -- that is not empty, of less than 2 ^ 32 bytes, and sent by `respond_error` under the number of
  -- the call, makes the call throw with the text of the error.
  pub call-respond_error :
      (error : String) (extra : List mp.Byte)
      → is_empty error ≡ false
      → len error < 2 ^ 32
      → incoming c.world.recvs ≡ response_bytes mp c.next_msgid none error ++ extra
      → (call mp method args c).0 ≡ throw (runtime_error ("RPC error: " <> error))
  unfolding read_result IsWire object_to_debug_string
  call-respond_error error extra some_text short h =
      call-response mp method args c open_socket named laws casts room (Object.str error) Object.nil
        extra small (omega arith, (omega arith, (omega arith, (short, (tt, tt)))))
        (h ∙ ap (λ b. b ++ extra) (error_bytes-encode mp laws c.next_msgid error some_text))
