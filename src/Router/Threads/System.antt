-- ===== src/Router/Threads/System.antt =====
-- dummy.cpp: the threads of `client_loop` side by side. An event is one step of one of them, a
-- connection that `main` accepts, or the signal that clears `Running`; the kernel and the scheduler
-- choose the events.
use arduino_q_plugin.Common.{
  ℕ, String, Bool, false, Option, none, some, List, [], ◌∷◌, ◌++◌, ◌==◌, ◌≡◌, if◌then◌else◌,
}
use arduino_q_plugin.Common.Int.{ℤ}
use arduino_q_plugin.Common.Result.{ok, throw, out_of_fuel, Exception}
use arduino_q_plugin.Msgpack.{Msgpack, Decoded, incomplete, message, malformed}
use arduino_q_plugin.Socket.{Recv}
use arduino_q_plugin.Router.{register_method, reset_methods, lookup_method}
use arduino_q_plugin.Router.Writes.{Hub, send_buffer}
use arduino_q_plugin.Router.Threads.{Task}
use arduino_q_plugin.Router.Threads.Handlers.{message_task}

-- Where the thread of a client stands, with the bytes that its unpacker holds: before `read`, before
-- `unp.next`, in a handler, before `reset_methods`, before `close`.
pub data Phase (Byte : Type 0) : Type 0 where
  waiting draining : List Byte → Phase Byte
  handling : Task Byte (Unit {0}) → List Byte → Phase Byte
  leaving closing : Phase Byte

-- The thread that serves a descriptor, if one does.
pub record System (Byte : Type 0) : Type 0 where
  pub hub : Hub Byte
  pub threads : ℕ → Option (Phase Byte)
  pub running : Bool

pub data Event (Byte : Type 0) : Type 0 where
  -- `accept` answers a descriptor that is not open.
  accepted : ℕ → Event Byte
  -- `read` answers the thread of a descriptor.
  answered : ℕ → Recv Byte → Event Byte
  -- The thread of a descriptor takes its next step other than `read`.
  steps : ℕ → Event Byte
  sigint : Event Byte

module _ {Byte : Type 0} where
  abbrev pub put : ℕ → Option (Phase Byte) → (ℕ → Option (Phase Byte)) → ℕ → Option (Phase Byte)
  put fd p threads k = if k == fd then p else threads k

  -- The system in which the thread of a descriptor stands elsewhere.
  abbrev pub moved : ℕ → Phase Byte → System Byte → System Byte
  moved fd p s = record s { threads = put fd (some p) s.threads }

  abbrev pub with_hub : Hub Byte → System Byte → System Byte
  with_hub h s = record s { hub = h }

  -- The test of `while (Running)`.
  abbrev pub next_round : ℕ → List Byte → System Byte → System Byte
  next_round fd buffer s = moved fd (if s.running then Phase.waiting buffer else Phase.leaving) s

  -- What `read` answered.
  unfoldable pub after_read : ℕ → List Byte → Recv Byte → System Byte → System Byte
  after_read fd buffer (Recv.bytes c) s = moved fd (Phase.draining (buffer ++ c)) s
  after_read fd buffer Recv.interrupted s = next_round fd buffer s
  after_read fd buffer _ s = moved fd Phase.leaving s

  -- One step of a handler. An exception ends the program.
  unfoldable pub task_step :
      ℕ → Task Byte (Unit {0}) → List Byte → System Byte → Option (System Byte)
  task_step fd (Task.done (ok u)) rest s = some (moved fd (Phase.draining rest) s)
  task_step fd (Task.done (throw e)) rest s = none
  task_step fd (Task.done out_of_fuel) rest s = none
  task_step fd (Task.register method t) rest s = some (
      moved fd (Phase.handling t rest)
        (with_hub (record s.hub { entries = register_method fd method s.hub.entries }) s))
  task_step fd (Task.reset t) rest s = some (
      moved fd (Phase.handling t rest)
        (with_hub (record s.hub { entries = reset_methods fd s.hub.entries }) s))
  task_step fd (Task.lookup method t) rest s =
      some (moved fd (Phase.handling (t (lookup_method method s.hub.entries)) rest) s)
  task_step fd (Task.send to buffer t) rest s =
      let (sent, h) = send_buffer to buffer s.hub in
      some (moved fd (Phase.handling (t sent) rest) (with_hub h s))

module _ (mp : Msgpack) (show_int : ℤ → String) (show_double : ℕ → String)
    (insufficient undefined : Exception) where
  -- `unp.next`, and the handler of the message that it finds.
  unfoldable pub after_next :
      ℕ → List mp.Byte → Decoded mp.Byte → System mp.Byte → Option (System mp.Byte)
  unfolding message_task
  after_next fd buffer incomplete s = some (next_round fd buffer s)
  after_next fd buffer (message o rest) s = some (
      moved fd
        (Phase.handling (message_task mp show_int show_double insufficient undefined fd o) rest) s)
  after_next fd buffer (malformed e) s = none

  unfoldable pub thread_step : ℕ → Option (Phase mp.Byte) → System mp.Byte → Option (System mp.Byte)
  unfolding after_next task_step
  thread_step fd (some (Phase.draining buffer)) s = after_next fd buffer (mp.decode buffer) s
  thread_step fd (some (Phase.handling t rest)) s = task_step fd t rest s
  thread_step fd (some Phase.leaving) s = some (
      moved fd Phase.closing
        (with_hub (record s.hub { entries = reset_methods fd s.hub.entries }) s))
  thread_step fd (some Phase.closing) s = some (record s {
    hub = record s.hub { closed = s.hub.closed ++ fd ∷ [] };
    threads = put fd none s.threads;
  })
  thread_step fd _ s = none

  unfoldable pub read_step :
      ℕ → Option (Phase mp.Byte) → Recv mp.Byte → System mp.Byte → Option (System mp.Byte)
  unfolding after_read
  read_step fd (some (Phase.waiting buffer)) answer s = some (after_read fd buffer answer s)
  read_step fd _ answer s = none

  unfoldable pub accept_step : ℕ → Option (Phase mp.Byte) → System mp.Byte → Option (System mp.Byte)
  accept_step fd none s = some (next_round fd [] s)
  accept_step fd (some p) s = none

  -- The system after an event, and none where the event cannot happen or ends the program.
  unfoldable pub perform : Event mp.Byte → System mp.Byte → Option (System mp.Byte)
  unfolding thread_step read_step accept_step
  perform (Event.accepted fd) s = accept_step fd (s.threads fd) s
  perform (Event.answered fd answer) s = read_step fd (s.threads fd) answer s
  perform (Event.steps fd) s = thread_step fd (s.threads fd) s
  perform Event.sigint s = some (record s { running = false })

  -- The systems that events lead to.
  pub data Reachable (start : System mp.Byte) : System mp.Byte → Type 0 where
    here : Reachable start start
    next :
        {s s' : System mp.Byte}
        → Reachable start s
        → (e : Event mp.Byte) → perform e s ≡ some s'
        → Reachable start s'
