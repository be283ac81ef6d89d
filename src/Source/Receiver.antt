-- ===== src/Source/Receiver.antt =====
-- unoq_source.cpp: `receiver_loop`, which feeds the queue from the endpoint. Each load of the flag
-- `_receiver_running` reads the next entry of a script, and false past its end.
pub mod Serves
pub mod Ends
use arduino_q_plugin.Common.{
  ℕ, String, Bool, true, false, not, ◌||◌, List, [], ◌∷◌, is_empty, if◌then◌else◌, ◌<>◌,
}
use arduino_q_plugin.Common.Int.{ℤ}
use arduino_q_plugin.Common.Result.{Result, ok, throw, out_of_fuel, Exception, what}
use arduino_q_plugin.Common.State.{Method}
use arduino_q_plugin.Msgpack.{Msgpack}
use arduino_q_plugin.Value.{Value, Message, expects_response}
use arduino_q_plugin.Value.Json.{to_json}
use arduino_q_plugin.Client.{is_open}
use arduino_q_plugin.Endpoint.{Session, close, receive, respond, reset_methods}
use arduino_q_plugin.Source.{Source, enqueue_message, set_receiver_error}
use text.Mathlib.Text.{starts_with}

-- The plugin and its endpoint.
pub record Receiver (Byte : Type 0) : Type 0 where
  pub source : Source
  pub session : Session Byte

-- `std::string::find` finds the text.
unfoldable pub occurs_in : String → String → Bool
occurs_in text String.[] = is_empty text
occurs_in text (String.◌∷◌ c s) = starts_with (String.◌∷◌ c s) text || occurs_in text s

timed_out : Exception → Bool
unfolding occurs_in what
timed_out e = occurs_in "Timed out waiting for RPC message" (what e)

module _ (mp : Msgpack) (show_int : ℤ → String) (fuel : ℕ) where
  -- The try block past `receive`.
  served : Result Message → Method (Receiver mp.Byte) (Unit {0})
  served (throw e) s = (throw e, s)
  served out_of_fuel s = (out_of_fuel, s)
  served (ok message) s =
      let (queued, source) = enqueue_message (to_json message) s.source in
      let (r, session) = respond mp message.msgid (Value.bool queued) s.session in
      if expects_response message
      then (r, record { source = source; session = session })
      else (ok tt, record s { source = source })

  -- The try block.
  unfoldable pub serve : Method (Receiver mp.Byte) (Unit {0})
  unfolding served
  serve s =
      let (r, session) = receive mp show_int s.session in served r (record s { session = session })

  -- What follows the loop. Exceptions of `reset_methods` are ignored.
  unfoldable pub finish : Receiver mp.Byte → Receiver mp.Byte
  finish s =
      if is_open s.session.socket_fd
      then record s { session = close (reset_methods mp fuel s.session).1 }
      else s

  unfoldable pub receiver_failed : Exception → Receiver mp.Byte → Receiver mp.Byte
  receiver_failed e s = record s {
    source = set_receiver_error ("RPC receiver failed: " <> what e) s.source;
  }

  -- The end of a round: `next` is the loop after a message, `again` that after a time-out, and
  -- `running` the load of the flag that decides on either.
  unfoldable pub after_round :
      Bool
      → Result (Unit {0}) × Receiver mp.Byte
      → (Receiver mp.Byte → Receiver mp.Byte)
      → (Receiver mp.Byte → Receiver mp.Byte)
      → Receiver mp.Byte
  unfolding timed_out finish receiver_failed
  after_round running (ok u, s) next again = next s
  after_round running (throw e, s) next again =
      if not running
      then finish s
      else if timed_out e
      then again s
      else finish (receiver_failed e s)
  after_round running (out_of_fuel, s) next again = finish s

  -- The loop, and what follows it.
  unfoldable pub receiver_loop : List Bool → Receiver mp.Byte → Receiver mp.Byte
  unfolding serve finish after_round
  receiver_loop [] s = finish s
  receiver_loop (false ∷ loads) s = finish s
  receiver_loop (true ∷ []) s = finish (serve s).1
  receiver_loop (true ∷ running ∷ loads) s =
      after_round running (serve s) (receiver_loop (running ∷ loads)) (receiver_loop loads)
