-- ===== src/Source/Receiver/Serves.antt =====
-- What the receiver makes of the requests and notifications in its endpoint's stream.
use arduino_q_plugin.Common.{
  ℕ, String, ◌≡◌, refl, ap, ◌∙◌, Bool, true, List, [], ◌∷◌, ◌++◌, append_assoc,
}
use arduino_q_plugin.Common.Int.{ℤ}
use arduino_q_plugin.Common.Result.{ok}
use arduino_q_plugin.Msgpack.{Msgpack, WireLaws, CastLaws}
use arduino_q_plugin.Value.{Value, Values, Message, MessageType, expects_response}
use arduino_q_plugin.Value.Json.{to_json}
use arduino_q_plugin.Frames.Laws.{Fits}
use arduino_q_plugin.Json.{Json}
use arduino_q_plugin.Client.{is_open}
use arduino_q_plugin.Endpoint.{Session}
use arduino_q_plugin.Endpoint.Receive.{
  ahead, receive-ahead, read_message-notification, notification_object, notification_object-IsWire,
}
use arduino_q_plugin.Endpoint.Skip.{notification_bytes, AllFit}
use arduino_q_plugin.Source.{enqueue_message}
use arduino_q_plugin.Source.Queue.{enqueue_all}
use arduino_q_plugin.Source.Receiver.{Receiver, serve, receiver_loop, after_round}

-- The received form of a request and of a notification.
abbrev pub request : ℕ → String → Values → Message
request msgid method args = record {
  type = MessageType.request;
  msgid = msgid;
  method = method;
  args = args;
}

abbrev pub notification : String → Values → Message
notification method args = record {
  type = MessageType.notification;
  msgid = 0;
  method = method;
  args = args;
}

-- A flag that is set once for each notification, and what is enqueued for them.
abbrev pub set_for : List (String × Values) → List Bool
set_for [] = []
set_for (n ∷ ns) = true ∷ set_for ns

abbrev pub queued : List (String × Values) → List Json
queued [] = []
queued ((method, args) ∷ ns) = to_json (notification method args) ∷ queued ns

module _ (mp : Msgpack) (laws : WireLaws mp) (casts : CastLaws mp) (show_int : ℤ → String)
    (fuel : ℕ) where
  serve-notification :
      (s : Receiver mp.Byte) (method : String) (args : Values) (extra : List mp.Byte)
      → is_open s.session.socket_fd ≡ true
      → Fits 0 method args
      → ahead s.session ≡ mp.encode (notification_object method args) ++ extra
      → (s' : Session mp.Byte) × (serve mp show_int fuel s ≡ (
        ok tt,
        record {
          source = (enqueue_message (to_json (notification method args)) s.source).1;
          session = s';
        },
      ))
        × (ahead s' ≡ extra)
        × (s'.socket_fd ≡ s.session.socket_fd)
        × (s'.world.sent ≡ s.session.world.sent)
  unfolding serve expects_response
  serve-notification s method args extra open_socket fits h =
      let (s', e, rest, fd, sent) =
        receive-ahead mp laws s.session casts show_int open_socket (notification_object method args)
          (notification method args) extra (notification_object-IsWire method args fits)
          (read_message-notification mp casts show_int method args fits.3) h in
      (s', rw e, rest, fd, sent)

  one_more :
      (ns : List (String × Values)) (loads : List Bool) (s r : Receiver mp.Byte)
      → serve mp show_int fuel s ≡ (ok tt, r)
      → receiver_loop mp show_int fuel (true ∷ (set_for ns ++ true ∷ loads)) s
        ≡ receiver_loop mp show_int fuel (set_for ns ++ true ∷ loads) r
  unfolding receiver_loop after_round
  one_more [] loads s r e =
      ap
        (λ p.
          after_round mp show_int fuel true p (receiver_loop mp show_int fuel (true ∷ loads))
            (receiver_loop mp show_int fuel loads))
        e
  one_more (n ∷ ns) loads s r e =
      ap
        (λ p.
          after_round mp show_int fuel true p
            (receiver_loop mp show_int fuel (true ∷ (set_for ns ++ true ∷ loads)))
            (receiver_loop mp show_int fuel (set_for ns ++ true ∷ loads)))
        e

  -- While the flag is set and the endpoint open, the notifications in the stream are enqueued one
  -- by one in the order of their arrival, nothing is sent, and the receiver goes on with what
  -- follows them.
  pub receiver_loop-notifications :
      (ns : List (String × Values)) (loads : List Bool) (s : Receiver mp.Byte)
      (extra : List mp.Byte)
      → is_open s.session.socket_fd ≡ true
      → AllFit ns
      → ahead s.session ≡ notification_bytes mp ns ++ extra
      → (s' : Receiver mp.Byte) × (receiver_loop mp show_int fuel (set_for ns ++ true ∷ loads) s
          ≡ receiver_loop mp show_int fuel (true ∷ loads) s')
        × (s'.source ≡ enqueue_all (queued ns) s.source)
        × (ahead s'.session ≡ extra)
        × (s'.session.world.sent ≡ s.session.world.sent)
  unfolding receiver_loop notification_bytes AllFit enqueue_all
  receiver_loop-notifications [] loads s extra open_socket fits h = (s, refl, refl, h, refl)
  receiver_loop-notifications ((method, args) ∷ ns) loads s extra open_socket fits h =
      let (s', e, rest, fd, sent) =
        serve-notification s method args (notification_bytes mp ns ++ extra) open_socket fits.0 (
          h
          ∙ append_assoc (mp.encode (notification_object method args)) (notification_bytes mp ns)
              extra) in
      let r : Receiver mp.Byte = record {
        source = (enqueue_message (to_json (notification method args)) s.source).1;
        session = s';
      } in
      let (after, ran, all, left, still) =
        receiver_loop-notifications ns loads r extra (ap is_open fd ∙ open_socket) fits.1 rest in
      (after, one_more ns loads s r e ∙ ran, all, left, still ∙ sent)
