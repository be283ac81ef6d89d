-- ===== src/Router/Threads/Owned.antt =====
-- The registry while the threads of several clients run.
use arduino_q_plugin.Common.{
  ℕ, String, Bool, true, false, Option, none, some, List, [], ◌∷◌, ◌++◌, ◌≡◌, ◌≢◌, refl, subst, ap,
  sym, ◌∙◌, if◌then◌else◌, inl, inr,
}
use arduino_q_plugin.Common.Int.{ℤ, pos}
use arduino_q_plugin.Common.Result.{ok, throw, out_of_fuel, Exception}
use arduino_q_plugin.Msgpack.{Msgpack, Decoded, incomplete, message, malformed}
use arduino_q_plugin.Socket.{Recv}
use arduino_q_plugin.Router.{register_method, reset_methods, lookup_method}
use arduino_q_plugin.Router.Registry.{
  IsMap, register_method-IsMap, reset_methods-IsMap, lookup_method-register_method,
  lookup_method-reset_methods,
}
use arduino_q_plugin.Router.Writes.{send_buffer}
use arduino_q_plugin.Router.Threads.{Task}
use arduino_q_plugin.Router.Threads.System.{
  Phase, System, Event, put, moved, with_hub, next_round, after_read, task_step, after_next,
  thread_step, read_step, accept_step, perform, Reachable,
}
use text.Mathlib.Text.{◌==◌ as text_eq}
use arduino_q_plugin.Router.Threads.Serving.{
  serves, serves-put, serves-put_own, serves-put_other, registered, left,
}

module _ {Byte : Type 0} where
  -- No name is registered twice, and a name is registered only to a client whose thread still serves it.
  pub record IsOwned (s : System Byte) : Type 0 where
    pub one_each : IsMap s.hub.entries
    pub serving :
        (name : String) (fd : ℕ)
        → lookup_method name s.hub.entries ≡ pos fd
        → serves (s.threads fd) ≡ true

  moved-IsOwned :
      (fd : ℕ) (p : Phase Byte) (s : System Byte)
      → serves (some p) ≡ true
      → IsOwned s
      → IsOwned (moved fd p s)
  moved-IsOwned fd p s new o = record {
    one_each = o.one_each;
    serving = λ name k e. serves-put fd k p s.threads new (o.serving name k e);
  }

  next_round-IsOwned :
      (fd : ℕ) (buffer : List Byte) (s : System Byte) → IsOwned s → IsOwned (next_round fd buffer s)
  next_round-IsOwned fd buffer s o = moved-IsOwned fd _ s (round s.running) o
    where
      round : (b : Bool) → serves (some (if b then Phase.waiting buffer else Phase.leaving)) ≡ true
      round true = refl
      round false = refl

  after_read-IsOwned :
      (fd : ℕ) (buffer : List Byte) (answer : Recv Byte) (s : System Byte)
      → IsOwned s
      → IsOwned (after_read fd buffer answer s)
  unfolding after_read
  after_read-IsOwned fd buffer (Recv.bytes c) s o = moved-IsOwned fd _ s refl o
  after_read-IsOwned fd buffer Recv.interrupted s o = next_round-IsOwned fd buffer s o
  after_read-IsOwned fd buffer _ s o = moved-IsOwned fd _ s refl o

  -- What a thread's own descriptor becomes when it registers a name.
  register-IsOwned :
      (fd : ℕ) (method : String) (p : Phase Byte) (s : System Byte)
      → serves (some p) ≡ true
      → IsOwned s
      → IsOwned (
          moved fd p
            (with_hub (record s.hub { entries = register_method fd method s.hub.entries }) s))
  register-IsOwned fd method p s new o = record {
    one_each = register_method-IsMap fd method s.hub.entries o.one_each;
    serving = λ name k e.
        elim (registered (text_eq method name) fd k (lookup_method name s.hub.entries)
          (sym (lookup_method-register_method fd method name s.hub.entries) ∙ e)) [
            | inl own ↦ serves-put_own fd k p s.threads own new
            | inr old ↦ serves-put fd k p s.threads new (o.serving name k old)
          ];
  }

  -- A descriptor whose methods are gone may stand anywhere.
  reset-IsOwned :
      (fd : ℕ) (p : Phase Byte) (s : System Byte)
      → IsOwned s
      → IsOwned
          (moved fd p (with_hub (record s.hub { entries = reset_methods fd s.hub.entries }) s))
  reset-IsOwned fd p s o = record {
    one_each = reset_methods-IsMap fd s.hub.entries o.one_each;
    serving = λ name k e.
        let (other, old) =
          left fd k (lookup_method name s.hub.entries)
            (sym (lookup_method-reset_methods fd name s.hub.entries o.one_each) ∙ e) in
        serves-put_other fd k (some p) s.threads other (o.serving name k old);
  }

  -- Where an event leads to.
  abbrev pub After : Option (System Byte) → Type 0
  After none = Unit
  After (some s) = IsOwned s

  send-IsOwned :
      (to fd : ℕ) (buffer : List Byte) (p : Phase Byte) (s : System Byte)
      → serves (some p) ≡ true
      → IsOwned s
      → IsOwned (moved fd p (with_hub (send_buffer to buffer s.hub).1 s))
  unfolding send_buffer
  send-IsOwned to fd buffer p s new o =
      moved-IsOwned fd p _ new (record { one_each = o.one_each; serving = o.serving })

  task_step-IsOwned :
      (fd : ℕ) (t : Task Byte (Unit {0})) (rest : List Byte) (s : System Byte)
      → IsOwned s
      → After (task_step fd t rest s)
  unfolding task_step
  task_step-IsOwned fd (Task.done (ok u)) rest s o = moved-IsOwned fd _ s refl o
  task_step-IsOwned fd (Task.done (throw e)) rest s o = tt
  task_step-IsOwned fd (Task.done out_of_fuel) rest s o = tt
  task_step-IsOwned fd (Task.register method t) rest s o = register-IsOwned fd method _ s refl o
  task_step-IsOwned fd (Task.reset t) rest s o = reset-IsOwned fd _ s o
  task_step-IsOwned fd (Task.lookup method t) rest s o = moved-IsOwned fd _ s refl o
  task_step-IsOwned fd (Task.send to buffer t) rest s o = send-IsOwned to fd buffer _ s refl o

  -- A closing thread serves no name, so that it may go.
  close-IsOwned :
      (fd : ℕ) (s : System Byte)
      → s.threads fd ≡ some Phase.closing
      → IsOwned s
      → IsOwned (record s {
        hub = record s.hub { closed = s.hub.closed ++ fd ∷ [] };
        threads = put fd none s.threads;
      })
  close-IsOwned fd s e o = record {
    one_each = o.one_each;
    serving = λ name k found.
        serves-put_other fd k none s.threads (not_closing name k found) (o.serving name k found);
  }
    where
      not_closing : (name : String) (k : ℕ) → lookup_method name s.hub.entries ≡ pos k → k ≢ fd
      not_closing name k found same =
          let left_yet =
            subst (λ p. serves p ≡ true) (ap s.threads same ∙ e) (o.serving name k found) in
          absurd cc

module _ (mp : Msgpack) (show_int : ℤ → String) (show_double : ℕ → String)
    (insufficient undefined : Exception) where
  after_next-IsOwned :
      (fd : ℕ) (buffer : List mp.Byte) (d : Decoded mp.Byte) (s : System mp.Byte)
      → IsOwned s
      → After (after_next mp show_int show_double insufficient undefined fd buffer d s)
  unfolding after_next
  after_next-IsOwned fd buffer incomplete s o = next_round-IsOwned fd buffer s o
  after_next-IsOwned fd buffer (message m rest) s o = moved-IsOwned fd _ s refl o
  after_next-IsOwned fd buffer (malformed e) s o = tt

  thread_step-IsOwned :
      (fd : ℕ) (p : Option (Phase mp.Byte)) (s : System mp.Byte)
      → s.threads fd ≡ p
      → IsOwned s
      → After (thread_step mp show_int show_double insufficient undefined fd p s)
  unfolding thread_step
  thread_step-IsOwned fd (some (Phase.draining buffer)) s e o =
      after_next-IsOwned fd buffer (mp.decode buffer) s o
  thread_step-IsOwned fd (some (Phase.handling t rest)) s e o = task_step-IsOwned fd t rest s o
  thread_step-IsOwned fd (some Phase.leaving) s e o = reset-IsOwned fd _ s o
  thread_step-IsOwned fd (some Phase.closing) s e o = close-IsOwned fd s e o
  thread_step-IsOwned fd _ s e o = tt

  read_step-IsOwned :
      (fd : ℕ) (p : Option (Phase mp.Byte)) (answer : Recv mp.Byte) (s : System mp.Byte)
      → IsOwned s
      → After (read_step mp show_int show_double insufficient undefined fd p answer s)
  unfolding read_step
  read_step-IsOwned fd (some (Phase.waiting buffer)) answer s o =
      after_read-IsOwned fd buffer answer s o
  read_step-IsOwned fd _ answer s o = tt

  accept_step-IsOwned :
      (fd : ℕ) (p : Option (Phase mp.Byte)) (s : System mp.Byte)
      → IsOwned s
      → After (accept_step mp show_int show_double insufficient undefined fd p s)
  unfolding accept_step
  accept_step-IsOwned fd none s o = next_round-IsOwned fd [] s o
  accept_step-IsOwned fd (some p) s o = tt

  perform-IsOwned :
      (e : Event mp.Byte) (s : System mp.Byte)
      → IsOwned s
      → After (perform mp show_int show_double insufficient undefined e s)
  unfolding perform
  perform-IsOwned (Event.accepted fd) s o = accept_step-IsOwned fd (s.threads fd) s o
  perform-IsOwned (Event.answered fd answer) s o = read_step-IsOwned fd (s.threads fd) answer s o
  perform-IsOwned (Event.steps fd) s o = thread_step-IsOwned fd (s.threads fd) s refl o
  perform-IsOwned Event.sigint s o = record { one_each = o.one_each; serving = o.serving }

  -- However the steps of the clients' threads are interleaved, and whatever the kernel answers, a name
  -- is registered at most once, and to a descriptor whose thread has not yet left its loop and reset its
  -- methods.
  pub Reachable-IsOwned :
      {start s : System mp.Byte}
      → IsOwned start
      → Reachable mp show_int show_double insufficient undefined start s
      → IsOwned s
  Reachable-IsOwned o Reachable.here = o
  Reachable-IsOwned {s} o (Reachable.next {s = before} r e step) =
      subst After step (perform-IsOwned e before (Reachable-IsOwned o r))
