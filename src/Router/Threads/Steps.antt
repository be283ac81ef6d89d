-- ===== src/Router/Threads/Steps.antt =====
-- The steps of one thread among those of others, and what a handler's task leads to.
use arduino_q_plugin.Common.{
  ℕ, String, true, Option, some, List, [], ◌∷◌, ◌≡◌, refl, ap, ◌∙◌, if◌then◌else◌, arith,
}
use arduino_q_plugin.Common.Int.{ℤ}
use arduino_q_plugin.Common.Result.{ok, throw, out_of_fuel, Exception}
use arduino_q_plugin.Msgpack.{Msgpack}
use arduino_q_plugin.Socket.{Recv}
use arduino_q_plugin.Router.Writes.{Hub}
use arduino_q_plugin.Router.Threads.{Task, run}
use arduino_q_plugin.Router.Threads.System.{
  Phase, System, Event, put, next_round, after_read, task_step, thread_step, read_step, perform,
  Reachable,
}

pub put_self :
    {Byte : Type 0} (fd : ℕ) (p : Option (Phase Byte)) (threads : ℕ → Option (Phase Byte))
    → put fd p threads fd ≡ p
put_self fd p threads = ground arith

module _ (mp : Msgpack) (show_int : ℤ → String) (show_double : ℕ → String)
    (insufficient undefined : Exception) (fd : ℕ) where
  -- What leads from one system to another by steps of this thread alone, when the kernel answers its
  -- reads by the first list: the second list are the answers that are left. Once they have ended, a
  -- read finds the end of the connection.
  pub data Leads (rs : List (Recv mp.Byte)) (s : System mp.Byte)
      : List (Recv mp.Byte) → System mp.Byte → Type 0 where
    here : Leads rs s rs s
    takes :
        {qs : List (Recv mp.Byte)} {t u : System mp.Byte}
        → Leads rs s qs t
        → perform mp show_int show_double insufficient undefined (Event.steps fd) t ≡ some u
        → Leads rs s qs u
    reads :
        {qs : List (Recv mp.Byte)} {t u : System mp.Byte} (answer : Recv mp.Byte)
        → Leads rs s (answer ∷ qs) t
        → perform mp show_int show_double insufficient undefined (Event.answered fd answer) t
          ≡ some u
        → Leads rs s qs u
    hangs_up :
        {t u : System mp.Byte}
        → Leads rs s [] t
        → perform mp show_int show_double insufficient undefined (Event.answered fd Recv.hangup) t
          ≡ some u
        → Leads rs s [] u

  -- The thread's steps lead to a system with this hub, in which it stands there.
  abbrev pub Reaches :
      List (Recv mp.Byte)
      → System mp.Byte
      → List (Recv mp.Byte)
      → Option (Phase mp.Byte)
      → Hub mp.Byte
      → Type 0
  Reaches rs s qs p h =
      (s' : System mp.Byte) × Leads rs s qs s'
      × (s'.hub ≡ h)
      × (s'.threads fd ≡ p)
      × (s'.running ≡ true)

  Leads_trans :
      {rs qs : List (Recv mp.Byte)} {s t : System mp.Byte} {ps : List (Recv mp.Byte)}
      {u : System mp.Byte}
      → Leads rs s qs t
      → Leads qs t ps u
      → Leads rs s ps u
  Leads_trans r Leads.here = r
  Leads_trans r (Leads.takes q step) = Leads.takes (Leads_trans r q) step
  Leads_trans r (Leads.reads answer q step) = Leads.reads answer (Leads_trans r q) step
  Leads_trans r (Leads.hangs_up q step) = Leads.hangs_up (Leads_trans r q) step

  -- The steps are events of the system.
  pub Leads-Reachable :
      {rs : List (Recv mp.Byte)} {s : System mp.Byte} {qs : List (Recv mp.Byte)}
      {t : System mp.Byte}
      → Leads rs s qs t
      → Reachable mp show_int show_double insufficient undefined s t
  Leads-Reachable Leads.here = Reachable.here
  Leads-Reachable (Leads.takes q step) = Reachable.next (Leads-Reachable q) (Event.steps fd) step
  Leads-Reachable (Leads.reads answer q step) =
      Reachable.next (Leads-Reachable q) (Event.answered fd answer) step
  Leads-Reachable (Leads.hangs_up q step) =
      Reachable.next (Leads-Reachable q) (Event.answered fd Recv.hangup) step

  pub onwards :
      {rs qs ps : List (Recv mp.Byte)} {s t : System mp.Byte} {p : Option (Phase mp.Byte)}
      {h : Hub mp.Byte}
      → Leads rs s qs t
      → Reaches qs t ps p h
      → Reaches rs s ps p h
  onwards r (u, q, hub, stands, runs) = (u, Leads_trans r q, hub, stands, runs)

  -- A step of the thread from where it stands.
  pub stepped :
      (p : Phase mp.Byte) (s t : System mp.Byte)
      → s.threads fd ≡ some p
      → thread_step mp show_int show_double insufficient undefined fd (some p) s ≡ some t
      → (rs : List (Recv mp.Byte)) → Leads rs s rs t
  unfolding perform
  stepped p s t stands step rs =
      Leads.takes Leads.here
        (ap (λ q. thread_step mp show_int show_double insufficient undefined fd q s) stands ∙ step)

  pub answered :
      (buffer : List mp.Byte) (answer : Recv mp.Byte) (s : System mp.Byte)
      → s.threads fd ≡ some (Phase.waiting buffer)
      → perform mp show_int show_double insufficient undefined (Event.answered fd answer) s
        ≡ some (after_read fd buffer answer s)
  unfolding perform read_step
  answered buffer answer s stands =
      ap (λ q. read_step mp show_int show_double insufficient undefined fd q answer s) stands

  pub read :
      (buffer : List mp.Byte) (answer : Recv mp.Byte) (rs : List (Recv mp.Byte))
      (s : System mp.Byte)
      → s.threads fd ≡ some (Phase.waiting buffer)
      → Leads (answer ∷ rs) s rs (after_read fd buffer answer s)
  read buffer answer rs s stands = Leads.reads answer Leads.here (answered buffer answer s stands)

  pub task_runs :
      (t : Task mp.Byte (Unit {0})) (rest : List mp.Byte) (s : System mp.Byte) (h : Hub mp.Byte)
      → s.threads fd ≡ some (Phase.handling t rest)
      → s.running ≡ true
      → run fd t s.hub ≡ (ok tt, h)
      → (rs : List (Recv mp.Byte)) → Reaches rs s rs (some (Phase.draining rest)) h
  unfolding run thread_step task_step
  task_runs (Task.done (ok u)) rest s h stands runs e rs =
      (_, stepped _ s _ stands refl rs, ap (λ p. p.1) e, put_self fd _ s.threads, runs)
  task_runs (Task.done (throw x)) rest s h stands runs e rs = absurd (cc (ap (λ p. p.0) e))
  task_runs (Task.done out_of_fuel) rest s h stands runs e rs = absurd (cc (ap (λ p. p.0) e))
  task_runs (Task.register method t) rest s h stands runs e rs =
      onwards (stepped _ s _ stands refl rs)
        (task_runs t rest _ h (put_self fd _ s.threads) runs e rs)
  task_runs (Task.reset t) rest s h stands runs e rs =
      onwards (stepped _ s _ stands refl rs)
        (task_runs t rest _ h (put_self fd _ s.threads) runs e rs)
  task_runs (Task.lookup method t) rest s h stands runs e rs =
      onwards (stepped _ s _ stands refl rs)
        (task_runs (t _) rest _ h (put_self fd _ s.threads) runs e rs)
  task_runs (Task.send to buffer t) rest s h stands runs e rs =
      onwards (stepped _ s _ stands refl rs)
        (task_runs (t _) rest _ h (put_self fd _ s.threads) runs e rs)

  -- While the program runs, the next round waits for bytes.
  pub next_round_runs :
      (buffer : List mp.Byte) (s : System mp.Byte)
      → s.running ≡ true
      → (next_round fd buffer s).threads fd ≡ some (Phase.waiting buffer)
  next_round_runs buffer s runs =
      put_self fd _ s.threads
      ∙ ap (λ b. some (if b then Phase.waiting buffer else Phase.leaving)) runs
