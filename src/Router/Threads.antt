-- ===== src/Router/Threads.antt =====
-- dummy.cpp: the threads of several clients. The two mutexes make `register_method`, `reset_methods`,
-- `lookup_method` and `send_buffer` one step each, so a handler is the tree of its calls of these, and
-- between two of them other threads run.
pub mod Handlers
pub mod System
pub mod Alone
mod Does
pub mod Owned
pub mod Answers
pub mod Loop
pub mod Steps
mod Serving
use arduino_q_plugin.Common.{ℕ, String, Bool, List}
use arduino_q_plugin.Common.Int.{ℤ}
use arduino_q_plugin.Common.Result.{Result, ok, throw, out_of_fuel}
use arduino_q_plugin.Common.State.{Method}
use arduino_q_plugin.Router.{register_method, reset_methods, lookup_method}
use arduino_q_plugin.Router.Writes.{Hub, send_buffer}

-- What is left to do in a thread. The descriptor registered and reset is the thread's own.
pub data Task (Byte : Type 0) (A : Type 0) : Type 0 where
  done : Result A → Task Byte A
  register : String → Task Byte A → Task Byte A
  reset : Task Byte A → Task Byte A
  lookup : String → (ℤ → Task Byte A) → Task Byte A
  send : ℕ → List Byte → (Bool → Task Byte A) → Task Byte A

module _ {Byte : Type 0} where
  unfoldable pub bind : {A B : Type 0} → Task Byte A → (A → Task Byte B) → Task Byte B
  bind (Task.done (ok a)) f = f a
  bind (Task.done (throw e)) f = Task.done (throw e)
  bind (Task.done out_of_fuel) f = Task.done out_of_fuel
  bind (Task.register method t) f = Task.register method (bind t f)
  bind (Task.reset t) f = Task.reset (bind t f)
  bind (Task.lookup method t) f = Task.lookup method (λ owner. bind (t owner) f)
  bind (Task.send to buffer t) f = Task.send to buffer (λ sent. bind (t sent) f)

  -- The whole of a task at once, with no other thread between its steps.
  unfoldable pub run : {A : Type 0} → ℕ → Task Byte A → Method (Hub Byte) A
  run fd (Task.done r) h = (r, h)
  run fd (Task.register method t) h =
      run fd t (record h { entries = register_method fd method h.entries })
  run fd (Task.reset t) h = run fd t (record h { entries = reset_methods fd h.entries })
  run fd (Task.lookup method t) h = run fd (t (lookup_method method h.entries)) h
  run fd (Task.send to buffer t) h = let (sent, h') = send_buffer to buffer h in run fd (t sent) h'
