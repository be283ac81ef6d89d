-- ===== src/Endpoint/Registers.antt =====
-- `Endpoint::register_method`, when the router answers.
use arduino_q_plugin.Common.{
  ℕ, suc, ◌^◌, ◌≤◌, ◌<◌, String, ◌≡◌, refl, ap, ◌∙◌, true, false, some, List, [], ◌++◌, arith,
  length, is_empty,
}
use arduino_q_plugin.Common.Result.{ok}
use arduino_q_plugin.Msgpack.{Object, Msgpack, WireLaws, CastLaws, IsWire}
use arduino_q_plugin.Value.{Value, Values, IsValid}
use arduino_q_plugin.Value.Wire.Laws.{to_object, to_object-IsWire, object_to_value-to_object}
use arduino_q_plugin.Socket.{send_all}
use arduino_q_plugin.Socket.SendAll.{capacity, send_all-completes, send_all-frame}
use arduino_q_plugin.Socket.Receive.{incoming}
use arduino_q_plugin.Frames.{request_bytes, response_bytes, read_result, next_id}
use arduino_q_plugin.Frames.Laws.{response_object, response_bytes-encode}
use arduino_q_plugin.Client.{is_open}
use arduino_q_plugin.Endpoint.{Session, send, request, register_method}
use arduino_q_plugin.Endpoint.Receive.{ahead}
use arduino_q_plugin.Endpoint.Skip.{request_loop-skips, notification_bytes, AllFit}

abbrev pub one_name : String → Values
one_name method = Values.value (Value.string method) Values.no_values

response_object-IsWire :
    (msgid : ℕ) (v : Value)
    → msgid < 2 ^ 32
    → IsValid v
    → IsWire (response_object msgid Object.nil (to_object v))
unfolding IsWire
response_object-IsWire msgid v small valid =
    (omega arith, (omega arith, (omega arith, (tt, (to_object-IsWire v valid, tt)))))

read_value : (mp : Msgpack) (v : Value) → IsValid v → read_result mp Object.nil (to_object v) ≡ ok v
unfolding read_result
read_value mp v valid = object_to_value-to_object mp v valid

module _ (mp : Msgpack) (laws : WireLaws mp) (casts : CastLaws mp) where
  pub register_method-answered :
      (fuel : ℕ) (method : String) (v : Value) (extra : List mp.Byte) (s : Session mp.Byte)
      → is_open s.socket_fd ≡ true
      → is_empty method ≡ false
      → length (request_bytes mp s.next_msgid "$/register" (one_name method))
        ≤ capacity s.world.sends
      → s.next_msgid < 2 ^ 32
      → IsValid v
      → ahead s ≡ response_bytes mp s.next_msgid (some v) "" ++ extra
      → ((register_method mp (suc fuel) method s).0 ≡ ok tt)
        × ((register_method mp (suc fuel) method s).1.world.sent
            ≡ s.world.sent ++ request_bytes mp s.next_msgid "$/register" (one_name method))
  unfolding register_method request send
  register_method-answered fuel method v extra s open_socket named room small valid e =
      let payload = request_bytes mp s.next_msgid "$/register" (one_name method) in
      let sent : Session mp.Byte = record {
        endpoint = record s.endpoint { next_msgid = next_id s.next_msgid };
        world = (send_all payload s.world).1;
      } in
      let (done, bytes) = send_all-completes payload s.world room in
      let same : ahead sent ≡ ahead s =
        ap (λ rs. s.stream ++ incoming rs) (send_all-frame payload s.world).0 in
      let (value, _, kept) =
        request_loop-skips mp laws casts [] (suc fuel) s.next_msgid Object.nil (to_object v) extra
          sent (unfold AllFit in tt) (omega arith) small
          (response_object-IsWire s.next_msgid v small valid)
          (unfold notification_bytes in
            same ∙ e ∙ ap (λ b. b ++ extra) (response_bytes-encode mp laws s.next_msgid v valid)) in
      rw (named, open_socket, done, value, read_value mp v valid) (refl, kept ∙ bytes)
