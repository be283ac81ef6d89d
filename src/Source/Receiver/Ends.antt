-- ===== src/Source/Receiver/Ends.antt =====
-- How the receiver leaves the endpoint and the queue, whatever arrives.
use arduino_q_plugin.Common.{
  ℕ, String, ◌≡◌, Bool, true, false, List, [], ◌∷◌, Bool-cases, inl, inr, is_empty,
}
use arduino_q_plugin.Common.Int.{ℤ}
use arduino_q_plugin.Common.Result.{Result, ok, throw, out_of_fuel}
use arduino_q_plugin.Msgpack.{Msgpack}
use arduino_q_plugin.Value.{Message, expects_response}
use arduino_q_plugin.Value.Json.{to_json}
use arduino_q_plugin.Client.{is_open}
use arduino_q_plugin.Endpoint.{receive}
use arduino_q_plugin.Endpoint.Connect.{close-closed}
use arduino_q_plugin.Source.{Source, set_receiver_error}
use arduino_q_plugin.Source.Queue.{IsReady, enqueue_message_bounds}
use arduino_q_plugin.Source.Receiver.{
  Receiver, timed_out, served, serve, finish, receiver_failed, after_round, receiver_loop,
}

module _ (mp : Msgpack) (show_int : ℤ → String) (fuel : ℕ) where
  -- The endpoint is closed, and the queue is within its bound if it was.
  record IsDone (s after : Receiver mp.Byte) : Type 0 where
    closed : is_open after.session.socket_fd ≡ false
    ready : IsReady s.source → IsReady after.source

  finish-IsDone : (s : Receiver mp.Byte) → IsDone s (finish mp show_int fuel s)
  unfolding finish
  finish-IsDone s = elim (Bool-cases (is_open s.session.socket_fd)) [
    | inl connected ↦ rw connected (record { closed = close-closed _; ready = λ r. r })
    | inr disconnected ↦ rw disconnected (record { closed = disconnected; ready = λ r. r })
  ]

  set_receiver_error-IsReady :
      (e : String) (s : Source) → IsReady s → IsReady (set_receiver_error e s)
  unfolding set_receiver_error
  set_receiver_error-IsReady e s r = elim (Bool-cases (is_empty s.receiver_error)) [
    | inl first ↦ rw first (record { capacity = r.capacity; bounded = r.bounded })
    | inr later ↦ rw later r
  ]

  served-IsReady :
      (r : Result Message) (s : Receiver mp.Byte)
      → IsReady s.source
      → IsReady (served mp show_int fuel r s).1.source
  unfolding served expects_response
  served-IsReady (ok m) s ready = elim (Bool-cases (expects_response m)) [
    | inl answered ↦ rw answered (enqueue_message_bounds (to_json m) s.source ready).0
    | inr silent ↦ rw silent (enqueue_message_bounds (to_json m) s.source ready).0
  ]
  served-IsReady (throw e) s ready = ready
  served-IsReady out_of_fuel s ready = ready

  serve-IsReady :
      (s : Receiver mp.Byte) → IsReady s.source → IsReady (serve mp show_int fuel s).1.source
  unfolding serve
  serve-IsReady s ready = served-IsReady (receive mp show_int s.session).0 _ ready

  after_round-IsDone :
      (running : Bool) (p : Result (Unit {0}) × Receiver mp.Byte)
      (next again : Receiver mp.Byte → Receiver mp.Byte)
      → ((s : Receiver mp.Byte) → IsDone s (next s))
      → ((s : Receiver mp.Byte) → IsDone s (again s))
      → IsDone p.1 (after_round mp show_int fuel running p next again)
  unfolding after_round receiver_failed
  after_round-IsDone running (ok u, s) next again n a = n s
  after_round-IsDone running (out_of_fuel, s) next again n a = finish-IsDone s
  after_round-IsDone false (throw e, s) next again n a = finish-IsDone s
  after_round-IsDone true (throw e, s) next again n a = elim (Bool-cases (timed_out e)) [
    | inl late ↦ rw late (a s)
    | inr failed ↦
        let done = finish-IsDone (receiver_failed mp show_int fuel e s) in
        rw failed (record {
          closed = done.closed;
          ready = λ r. done.ready (set_receiver_error-IsReady _ s.source r);
        })
  ]

  receiver_loop-IsDone :
      (loads : List Bool) (s : Receiver mp.Byte) → IsDone s (receiver_loop mp show_int fuel loads s)
  unfolding receiver_loop
  receiver_loop-IsDone [] s = finish-IsDone s
  receiver_loop-IsDone (false ∷ loads) s = finish-IsDone s
  receiver_loop-IsDone (true ∷ []) s =
      let done = finish-IsDone (serve mp show_int fuel s).1 in
      record { closed = done.closed; ready = λ r. done.ready (serve-IsReady s r) }
  receiver_loop-IsDone (true ∷ running ∷ loads) s =
      let done =
        after_round-IsDone running (serve mp show_int fuel s)
          (receiver_loop mp show_int fuel (running ∷ loads)) (receiver_loop mp show_int fuel loads)
          (receiver_loop-IsDone (running ∷ loads)) (receiver_loop-IsDone loads) in
      record { closed = done.closed; ready = λ r. done.ready (serve-IsReady s r) }

  -- Whatever arrives and whenever the flag is cleared, the receiver leaves its endpoint closed and a
  -- queue that was within its bound within it.
  pub receiver_loop-ends :
      (loads : List Bool) (s : Receiver mp.Byte)
      → IsReady s.source
      → (is_open (receiver_loop mp show_int fuel loads s).session.socket_fd ≡ false)
        × IsReady (receiver_loop mp show_int fuel loads s).source
  receiver_loop-ends loads s ready =
      let done = receiver_loop-IsDone loads s in (done.closed, done.ready ready)
