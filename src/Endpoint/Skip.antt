-- ===== src/Endpoint/Skip.antt =====
-- `Endpoint::request` while notifications come in front of its response.
use arduino_q_plugin.Common.{
  ℕ, zero, suc, ◌^◌, ◌<◌, String, ◌≡◌, ◌∙◌, List, [], ◌∷◌, ◌++◌, append_assoc, arith, length,
}
use arduino_q_plugin.Msgpack.{Object, Msgpack, WireLaws, CastLaws, IsWire}
use arduino_q_plugin.Value.{Values}
use arduino_q_plugin.Frames.{read_reply, read_result, frame}
use arduino_q_plugin.Frames.Laws.{response_object, Fits}
use arduino_q_plugin.Endpoint.{Session, request_loop}
use arduino_q_plugin.Endpoint.Receive.{
  ahead, notification_object, notification_object-IsWire, receive_message-ahead,
}

-- Notifications, each with its method and arguments, and their bytes.
unfoldable pub notification_bytes : (mp : Msgpack) → List (String × Values) → List mp.Byte
notification_bytes mp [] = []
notification_bytes mp ((method, args) ∷ ns) =
    mp.encode (notification_object method args) ++ notification_bytes mp ns

unfoldable pub AllFit : List (String × Values) → Type 0
AllFit [] = Unit
AllFit ((method, args) ∷ ns) = Fits 0 method args × AllFit ns

module _ (mp : Msgpack) (laws : WireLaws mp) (casts : CastLaws mp) where
  open casts use {as_int_pos, as_uint32_pos}

  -- While a response is awaited, the notifications in front of it are read and dropped: with fuel
  -- for more messages than there are notifications, the loop ends with the error or the result of
  -- the response, and nothing of what follows the response is read.
  pub request_loop-skips :
      (ns : List (String × Values)) (fuel msgid : ℕ) (error result : Object) (extra : List mp.Byte)
      (s : Session mp.Byte)
      → AllFit ns
      → length ns < fuel
      → msgid < 2 ^ 32
      → IsWire (response_object msgid error result)
      → ahead s
        ≡ notification_bytes mp ns ++ (mp.encode (response_object msgid error result) ++ extra)
      → ((request_loop mp fuel msgid s).0 ≡ read_result mp error result)
        × (ahead (request_loop mp fuel msgid s).1 ≡ extra)
        × ((request_loop mp fuel msgid s).1.world.sent ≡ s.world.sent)
  unfolding request_loop notification_bytes AllFit frame read_reply
  request_loop-skips ns zero msgid error result extra s fit h small wire e = absurd (omega arith)
  request_loop-skips [] (suc fuel) msgid error result extra s fit h small wire e =
      let (s', received, rest, _, sent) = receive_message-ahead mp laws s _ extra wire e in
      rw (received, as_int_pos 1 (omega arith), as_uint32_pos msgid small)
        (ground arith, rest, sent)
  request_loop-skips ((method, args) ∷ ns) (suc fuel) msgid error result extra s fit h small wire
        e =
      let (s', received, rest, _, sent) =
        receive_message-ahead mp laws s (notification_object method args) _
          (notification_object-IsWire method args fit.0)
          (e
            ∙ append_assoc (mp.encode (notification_object method args)) (notification_bytes mp ns)
                _) in
      let (value, after, kept) =
        request_loop-skips ns fuel msgid error result extra s' fit.1 (omega arith) small wire
          rest in
      rw (received, as_int_pos 2 (omega arith)) (value, after, kept ∙ sent)
