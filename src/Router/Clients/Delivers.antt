-- ===== src/Router/Clients/Delivers.antt =====
-- A notification at the router, and at the source plugin that registered its method.
use arduino_q_plugin.Common.{
  ℕ, ◌≤◌, String, ◌≡◌, refl, ap, ◌∙◌, Bool, true, List, [], ◌∷◌, ◌++◌, append-nil, sym, arith,
  length, take, take_all, Bool-cases, inl, inr, if◌then◌else◌,
}
use arduino_q_plugin.Common.Int.{ℤ, pos}
use arduino_q_plugin.Common.Result.{Result, ok, Exception}
use arduino_q_plugin.Msgpack.{Msgpack, WireLaws, CastLaws}
use arduino_q_plugin.Value.{Values}
use arduino_q_plugin.Socket.SendAll.{capacity}
use arduino_q_plugin.Frames.Laws.{Fits}
use arduino_q_plugin.Client.{is_open}
use arduino_q_plugin.Endpoint.Receive.{ahead, notification_object}
use arduino_q_plugin.Endpoint.Skip.{notification_bytes, AllFit}
use arduino_q_plugin.Json.{Json}
use arduino_q_plugin.Value.Json.{to_json}
use arduino_q_plugin.Source.{Source}
use arduino_q_plugin.Source.Queue.{
  IsReady, last_entries, last_entries_all, enqueue_all, enqueue_all-drop_oldest,
  enqueue_all-drop_newest,
}
use arduino_q_plugin.Source.Receiver.{Receiver, receiver_loop}
use arduino_q_plugin.Source.Receiver.Serves.{
  set_for, notification, queued, receiver_loop-notifications,
}
use arduino_q_plugin.Router.{lookup_method}
use arduino_q_plugin.Router.Routing.{first_buffer}
use arduino_q_plugin.Router.Requests.{handle_notification, route, send_to}
use arduino_q_plugin.Router.Writes.{Hub, send_buffer-completes}
use arduino_q_plugin.Router.Clients.{handle_message}
use text.Mathlib.Text.{◌==◌ as text_eq}

-- What a bounded queue keeps of a sequence: under drop_newest the first messages, as many as fit, and
-- else the last ones.
abbrev pub kept : Source → List Json → List Json
kept s ms =
    if text_eq s.overflow_policy "drop_newest"
    then take s.max_queue ms
    else last_entries s.max_queue ms

enqueue_all-kept :
    (ms : List Json) (s : Source)
    → IsReady s
    → (enqueue_all ms s).message_queue ≡ kept s (s.message_queue ++ ms)
enqueue_all-kept ms s ready = elim (Bool-cases (text_eq s.overflow_policy "drop_newest")) [
  | inl newest ↦ rw newest (
      enqueue_all-drop_newest ms s.message_queue s newest
        (sym (take_all s.max_queue s.message_queue ready.bounded)))
  | inr oldest ↦ rw oldest (
      enqueue_all-drop_oldest ms s.message_queue s ready.capacity oldest
        (sym (last_entries_all s.max_queue s.message_queue ready.bounded)))
]

module _ (mp : Msgpack) (show_int : ℤ → String) (show_double : ℕ → String)
    (insufficient undefined : Exception) (laws : WireLaws mp) (casts : CastLaws mp) where
  open casts use {as_int_pos, as_string_str}

  -- The router returned, and wrote these bytes to the descriptor.
  abbrev pub Written : ℕ → List mp.Byte → Hub mp.Byte → Result (Unit {0}) × Hub mp.Byte → Type 0
  Written fd bytes h (r, h') = (r ≡ ok tt) × (h'.outbox ≡ h.outbox ++ (fd, bytes) ∷ [])

  forwarded :
      (client fd : ℕ) (method : String) (args : Values) (h : Hub mp.Byte)
      → lookup_method method h.entries ≡ pos fd
      → length (mp.encode (notification_object method args)) ≤ capacity h.answers
      → Written fd (mp.encode (notification_object method args)) h (
          handle_message mp show_int show_double insufficient undefined client
            (notification_object method args)
            h)
  unfolding handle_message handle_notification route send_to
  forwarded client fd method args h owned room =
      let (all, wrote) =
        send_buffer-completes fd (mp.encode (notification_object method args)) h room in
      rw (as_int_pos 2 (omega arith), as_string_str method, owned, first_buffer mp laws method args)
        (refl, wrote)

  -- The way of a notification. The router, which has its method registered to a descriptor, writes it
  -- to that descriptor, whichever client sent it, as long as the kernel takes it; and a receiver of the
  -- source plugin for which those bytes come first sends nothing and goes on, and its queue, which was
  -- set up and within its bound, then holds the messages it held and after them this one: all of them
  -- where they fit, and else the first of them under drop_newest and the last of them under drop_oldest.
  pub notification_delivery :
      (client fd fuel : ℕ) (method : String) (args : Values) (h : Hub mp.Byte) (loads : List Bool)
      (s : Receiver mp.Byte) (extra : List mp.Byte)
      → lookup_method method h.entries ≡ pos fd
      → length (mp.encode (notification_object method args)) ≤ capacity h.answers
      → Fits 0 method args
      → IsReady s.source
      → is_open s.session.socket_fd ≡ true
      → ahead s.session ≡ mp.encode (notification_object method args) ++ extra
      → Written fd (mp.encode (notification_object method args)) h (
          handle_message mp show_int show_double insufficient undefined client
            (notification_object method args)
            h)
        × ((s' : Receiver mp.Byte) × (receiver_loop mp show_int fuel
                (set_for ((method, args) ∷ []) ++ true ∷ loads)
                s
              ≡ receiver_loop mp show_int fuel (true ∷ loads) s')
            × (s'.source.message_queue
                ≡ kept s.source (s.source.message_queue ++ to_json (notification method args) ∷ []))
            × (ahead s'.session ≡ extra)
            × (s'.session.world.sent ≡ s.session.world.sent))
  notification_delivery client fd fuel method args h loads s extra owned room fits ready open_socket
        comes =
      let (s', goes_on, queue, rest, silent) =
        receiver_loop-notifications mp laws casts show_int fuel ((method, args) ∷ []) loads s extra
          open_socket (unfold AllFit in (fits, tt))
          (unfold notification_bytes in
            comes
            ∙ ap (λ b. b ++ extra)
                (sym (append-nil (mp.encode (notification_object method args))))) in
      (
        forwarded client fd method args h owned room,
        (
          s',
          goes_on,
          ap (λ q. q.message_queue) queue
              ∙ enqueue_all-kept (queued ((method, args) ∷ [])) s.source ready,
          rest,
          silent,
        ),
      )
