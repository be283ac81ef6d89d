-- ===== src/Router/Threads/Loop.antt =====
-- The thread of one client among those of others: the steps that it takes by itself are `client_loop`.
use arduino_q_plugin.Common.{
  ℕ, zero, suc, String, true, none, some, List, [], ◌∷◌, ◌++◌, ◌≡◌, refl, ap, ◌∙◌, length,
}
use arduino_q_plugin.Common.Int.{ℤ}
use arduino_q_plugin.Common.Result.{Result, ok, throw, out_of_fuel, Exception}
use arduino_q_plugin.Common.State.{Method, pure, raise, continue_with, ◌>>◌}
use arduino_q_plugin.Msgpack.{Msgpack, Decoded, incomplete, message, malformed}
use arduino_q_plugin.Socket.{Recv}
use arduino_q_plugin.Router.{reset_methods}
use arduino_q_plugin.Router.Writes.{Hub}
use arduino_q_plugin.Router.Clients.{handle_message, drain, leave, client_loop}
use arduino_q_plugin.Router.Threads.Handlers.{message_task}
use arduino_q_plugin.Router.Threads.Alone.{run-message_task}
use arduino_q_plugin.Router.Threads.System.{
  Phase, System, put, moved, next_round, after_read, after_next, thread_step,
}
use arduino_q_plugin.Router.Threads.Steps.{
  put_self, Leads, Reaches, onwards, stepped, answered, read, task_runs, next_round_runs,
}

module _ (mp : Msgpack) (show_int : ℤ → String) (show_double : ℕ → String)
    (insufficient undefined : Exception) (fd : ℕ) where
  -- What is left after a method has returned.
  resumed :
      {A B : Type 0} (p : Result A × Hub mp.Byte) (k : A → Method (Hub mp.Byte) B) (b : B)
      (h : Hub mp.Byte)
      → continue_with p k ≡ (ok b, h)
      → (a : A) × (h₁ : Hub mp.Byte) × (p ≡ (ok a, h₁)) × (k a h₁ ≡ (ok b, h))
  resumed (ok a, h₁) k b h e = (a, h₁, refl, e)
  resumed (throw x, h₁) k b h e = absurd (cc (ap (λ p. p.0) e))
  resumed (out_of_fuel, h₁) k b h e = absurd (cc (ap (λ p. p.0) e))

  abbrev Drains : ℕ → Type 0
  Drains fuel =
      (buffer held : List mp.Byte) (s : System mp.Byte) (h : Hub mp.Byte)
      → s.threads fd ≡ some (Phase.draining buffer)
      → s.running ≡ true
      → drain mp show_int show_double insufficient undefined fuel fd buffer s.hub ≡ (ok held, h)
      → (rs : List (Recv mp.Byte))
      → Reaches mp show_int show_double insufficient undefined fd rs s rs
          (some (Phase.waiting held)) h

  drain_runs : (fuel : ℕ) → Drains fuel
  unfolding drain thread_step after_next
  drain_runs zero buffer held s h stands runs e rs = absurd (cc (ap (λ p. p.0) e))
  drain_runs (suc fuel) buffer held s h stands runs e rs =
      by_decoded (mp.decode buffer) refl e (drain_runs fuel)
    where
      decoded :
          (d : Decoded mp.Byte)
          → mp.decode buffer ≡ d
          → after_next mp show_int show_double insufficient undefined fd buffer (mp.decode buffer) s
            ≡ after_next mp show_int show_double insufficient undefined fd buffer d s
      decoded d same =
          ap (λ q. after_next mp show_int show_double insufficient undefined fd buffer q s) same

      by_decoded :
          (d : Decoded mp.Byte)
          → mp.decode buffer ≡ d
          → (elim d as (λ _. Method (Hub mp.Byte) (List mp.Byte)) [
            | incomplete ↦ pure buffer
            | message o rest ↦
                handle_message mp show_int show_double insufficient undefined fd o
                >> drain mp show_int show_double insufficient undefined fuel fd rest
            | malformed x ↦ raise x
          ])
              s.hub
            ≡ (ok held, h)
          → Drains fuel
          → Reaches mp show_int show_double insufficient undefined fd rs s rs
              (some (Phase.waiting held))
              h
      by_decoded incomplete d e' later =
          let same : buffer ≡ held = cc (ap (λ p. p.0) e') in
          (
            next_round fd buffer s,
            stepped mp show_int show_double insufficient undefined fd _ s _ stands
                (decoded incomplete d) rs,
            ap (λ p. p.1) e',
            next_round_runs mp show_int show_double insufficient undefined fd buffer s runs
                ∙ ap (λ b. some (Phase.waiting b)) same,
            runs,
          )
      by_decoded (message o rest) d e' later =
          let (u, h₁, done, others) =
            resumed (handle_message mp show_int show_double insufficient undefined fd o s.hub)
              (λ u. drain mp show_int show_double insufficient undefined fuel fd rest) held h e' in
          let (s₁, leads, hub, stands₁, runs₁) =
            task_runs mp show_int show_double insufficient undefined fd
              (message_task mp show_int show_double insufficient undefined fd o) rest
              (moved fd
                (Phase.handling (message_task mp show_int show_double insufficient undefined fd o)
                  rest)
                s)
              h₁ (put_self fd _ s.threads) runs
              (run-message_task mp show_int show_double insufficient undefined fd o s.hub ∙ done)
              rs in
          onwards mp show_int show_double insufficient undefined fd
            (stepped mp show_int show_double insufficient undefined fd _ s _ stands
              (decoded (message o rest) d) rs)
            (onwards mp show_int show_double insufficient undefined fd leads (
              later rest held s₁ h stands₁ runs₁
                (ap (drain mp show_int show_double insufficient undefined fuel fd rest) hub
                  ∙ others)
                rs))
      by_decoded (malformed x) d e' later = absurd (cc (ap (λ p. p.0) e'))

  -- The end of the thread, from its reset on.
  leaves :
      (s : System mp.Byte) (h : Hub mp.Byte)
      → s.threads fd ≡ some Phase.leaving
      → s.running ≡ true
      → leave mp show_int show_double insufficient undefined fd s.hub ≡ h
      → (rs : List (Recv mp.Byte))
      → Reaches mp show_int show_double insufficient undefined fd rs s rs none h
  unfolding thread_step leave
  leaves s h stands runs e rs =
      let closing : System mp.Byte = record s {
        hub = record s.hub { entries = reset_methods fd s.hub.entries };
        threads = put fd (some Phase.closing) s.threads;
      } in
      onwards mp show_int show_double insufficient undefined fd
        (stepped mp show_int show_double insufficient undefined fd Phase.leaving s closing stands
          refl rs)
        (
          _,
          stepped mp show_int show_double insufficient undefined fd Phase.closing closing _
              (put_self fd _ s.threads) refl rs,
          e,
          put_self fd none closing.threads,
          runs,
        )

  -- When `client_loop` by itself returns, for some bytes that its unpacker holds and answers of the
  -- kernel, then in any system in which the client's thread waits with those bytes, and no signal came,
  -- the steps of that thread alone, with those answers, lead to the same hub and to the thread's end.
  pub client_loop-Reaches :
      (rs : List (Recv mp.Byte)) (buffer : List mp.Byte) (s : System mp.Byte) (h : Hub mp.Byte)
      → s.threads fd ≡ some (Phase.waiting buffer)
      → s.running ≡ true
      → client_loop mp show_int show_double insufficient undefined fd buffer rs s.hub ≡ (ok tt, h)
      → (qs : List (Recv mp.Byte)) × Reaches mp show_int show_double insufficient undefined fd rs s
          qs none h
  unfolding client_loop after_read
  client_loop-Reaches [] buffer s h stands runs e = (
    [],
    onwards mp show_int show_double insufficient undefined fd
        (Leads.hangs_up Leads.here
          (answered mp show_int show_double insufficient undefined fd buffer Recv.hangup s stands))
        (leaves _ h (put_self fd _ s.threads) runs (ap (λ p. p.1) e) []),
  )
  client_loop-Reaches (Recv.hangup ∷ rs) buffer s h stands runs e = (
    rs,
    onwards mp show_int show_double insufficient undefined fd
        (read mp show_int show_double insufficient undefined fd buffer Recv.hangup rs s stands)
        (leaves _ h (put_self fd _ s.threads) runs (ap (λ p. p.1) e) rs),
  )
  client_loop-Reaches (Recv.again ∷ rs) buffer s h stands runs e = (
    rs,
    onwards mp show_int show_double insufficient undefined fd
        (read mp show_int show_double insufficient undefined fd buffer Recv.again rs s stands)
        (leaves _ h (put_self fd _ s.threads) runs (ap (λ p. p.1) e) rs),
  )
  client_loop-Reaches (Recv.failed error ∷ rs) buffer s h stands runs e = (
    rs,
    onwards mp show_int show_double insufficient undefined fd
        (read mp show_int show_double insufficient undefined fd buffer (Recv.failed error) rs s
          stands)
        (leaves _ h (put_self fd _ s.threads) runs (ap (λ p. p.1) e) rs),
  )
  client_loop-Reaches (Recv.interrupted ∷ rs) buffer s h stands runs e =
      let (qs, reaches) =
        client_loop-Reaches rs buffer _ h
          (next_round_runs mp show_int show_double insufficient undefined fd buffer s runs) runs
          e in
      (
        qs,
        onwards mp show_int show_double insufficient undefined fd
            (read mp show_int show_double insufficient undefined fd buffer Recv.interrupted rs s
              stands)
            reaches,
      )
  client_loop-Reaches (Recv.bytes c ∷ rs) buffer s h stands runs e =
      let (held, h₁, drained, others) =
        resumed
          (drain mp show_int show_double insufficient undefined (suc (length (buffer ++ c))) fd
            (buffer ++ c) s.hub)
          _ (tt {0}) h e in
      let (s₁, leads, hub, stands₁, runs₁) =
        drain_runs (suc (length (buffer ++ c))) (buffer ++ c) held
          (moved fd (Phase.draining (buffer ++ c)) s) h₁ (put_self fd _ s.threads) runs drained
          rs in
      let (qs, reaches) =
        client_loop-Reaches rs held s₁ h stands₁ runs₁ (
          ap (client_loop mp show_int show_double insufficient undefined fd held rs) hub
          ∙ others) in
      (
        qs,
        onwards mp show_int show_double insufficient undefined fd
            (read mp show_int show_double insufficient undefined fd buffer (Recv.bytes c) rs s
              stands)
            (onwards mp show_int show_double insufficient undefined fd leads reaches),
      )
